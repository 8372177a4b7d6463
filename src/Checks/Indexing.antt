-- ===== src/Checks/Indexing.antt =====
-- The indexer of internal/indexer on concrete events.
use padma.Base.{◌≡◌, refl, ◌⊎◌, none, some, [], ◌∷◌, ◌==◌}
use padma.Errors.{Error, Result, ok, err, wrapped, reported}
use padma.Database.{Db, World, lift, query, read_now, pure}
use padma.Database.Outcome.{calm}
use padma.Database.Tx.{in_tx, in_tx_restores}
use padma.Indexer.Effect.{
  flushed, applied_all, applied, projected, invoice_paid_effect, fan_out, subscribers,
}
use padma.Indexer.Projector.{Projector, save, flush, apply_events, apply_event, project}
use padma.Indexer.Projections.{advance}
use padma.Indexer.Save.{saved, save_atomic, save_total}
use padma.Indexer.Recovery.{save_again}
use padma.Indexer.Queued.{Queued, save_queues}
use padma.Indexer.Deliveries.{enqueue_deliveries, matches, insert_deliveries}
use padma.Checks.Samples.{codec, digest, paid_event, database, world, lost_connection}

abbrev paid_buffer : Projector
paid_buffer = record { buf = paid_event ∷ [] }

-- begin, insert, upsert, probe, update, probe, select, insert, checkpoint, and the commit fails
abbrev failing_commit : World
failing_commit = record world {
  faults = none ∷ none ∷ none ∷ none ∷ none ∷ none ∷ none ∷ none ∷ none ∷ some lost_connection ∷ [];
}

save_commits_test : (saved codec digest 9 paid_buffer world).0 ≡ ok tt
unfolding save in_tx flush apply_events apply_event project ◌==◌ lift query enqueue_deliveries
    matches insert_deliveries read_now pure
save_commits_test = refl

save_fails_test : (saved codec digest 9 paid_buffer failing_commit).1.db ≡ database
unfolding save in_tx flush apply_events apply_event project ◌==◌ lift query enqueue_deliveries
    matches insert_deliveries read_now pure
save_fails_test = refl

save_reports_test :
    (in_tx (flush codec digest 9 paid_buffer.buf) failing_commit).0
    ≡ err (wrapped "db: commit: %w" [] (reported lost_connection))
unfolding save in_tx flush apply_events apply_event project ◌==◌ lift query enqueue_deliveries
    matches insert_deliveries read_now pure
save_reports_test = refl

save_atomic_example :
    (((saved codec digest 9 paid_buffer failing_commit).0 ≡ ok tt)
      × (flushed codec digest 9 50 paid_buffer.buf database
          ≡ ok (saved codec digest 9 paid_buffer failing_commit).1.db))
    ⊎ ((e : Error) × ((saved codec digest 9 paid_buffer failing_commit).0 ≡ err e)
        × ((saved codec digest 9 paid_buffer failing_commit).1.db ≡ database))
save_atomic_example = save_atomic codec digest 9 paid_buffer failing_commit

abbrev after : Result Db → Db
after (ok d) = d
after (err e) = database

abbrev paid_database : Db
unfolding flushed
paid_database = after (flushed codec digest 9 50 paid_buffer.buf database)

spec_test : flushed codec digest 9 50 paid_buffer.buf database ≡ ok paid_database
unfolding flushed applied_all applied projected invoice_paid_effect fan_out subscribers ◌==◌ matches
spec_test = refl

save_total_example :
    ((saved codec digest 9 paid_buffer (calm world)).0 ≡ ok tt)
    × ((saved codec digest 9 paid_buffer (calm world)).1.db ≡ paid_database)
save_total_example = save_total codec digest 9 paid_buffer world paid_database spec_test

abbrev restarted : World
restarted = record world { db = (saved codec digest 9 paid_buffer world).1.db; now = 70 }

save_again_example :
    ((saved codec digest 12 paid_buffer restarted).1.db ≡ restarted.db)
    ⊎ ((saved codec digest 12 paid_buffer restarted).1.db ≡ advance 12 70 restarted.db)
save_again_example = save_again codec digest 9 12 paid_event world restarted save_commits_test refl

in_tx_restores_example :
    (in_tx (flush codec digest 9 paid_buffer.buf) failing_commit).1.db ≡ failing_commit.db
in_tx_restores_example =
    in_tx_restores (flush codec digest 9 paid_buffer.buf) failing_commit _ save_reports_test

save_queues_example :
    Queued codec digest 50 paid_buffer.buf database (saved codec digest 9 paid_buffer world).1.db
save_queues_example = save_queues codec digest 9 paid_buffer world save_commits_test
