-- ===== src/Indexer/Save.antt =====
-- What `Save` does to the database, whatever fails on the way.
use padma.Base.{ℕ, ◌≡◌, refl, sym, ap, subst, ◌∙◌, ◌⊎◌, inl, inr, Text}
use padma.Errors.{Error, Result, ok, err}
use padma.Database.{Db, World}
use padma.Database.Outcome.{calm}
use padma.Database.Meets.{Meets}
use padma.Database.Tx.{in_tx_restores, in_tx_commits, in_tx-calm}
use padma.Indexer.Events.{Codec}
use padma.Indexer.Projector.{Projector, flush, save}
use padma.Indexer.Effect.{flushed}
use padma.Indexer.Refinement.{flush-Meets}
use padma.Indexer.Steady.{flush-IsSteady}

outcome_cases : (r : Result (Unit {0}) × World) → (r ≡ (ok tt, r.1)) ⊎ ((e : Error) × (r.0 ≡ err e))
outcome_cases (ok u, v) = inl refl
outcome_cases (err e, v) = inr (e, refl)

module _ (codec : Codec) (digest : Text → Text) where
  -- a run that returned made of the database what the specification says
  Meets-ok :
      (w v : World) (r : Result (Unit {0}) × World) (s : Result Db)
      → Meets w r s
      → r ≡ (ok tt, v)
      → s ≡ ok v.db
  Meets-ok w v r (ok d) h e = ap (λ (p : Result (Unit {0}) × World). ok p.1.db) (sym h ∙ e)
  Meets-ok w v r (err x) h e = absurd (cc (h, ap (λ (p : Result (Unit {0}) × World). p.0) e))

  abbrev pub saved : ℕ → Projector → World → Result (Unit {0}) × World
  saved seq p w = (save codec digest seq p w).0

  -- Save is all or nothing: either it returns, and the tables are as the specification of the raw
  -- change makes them, or it reports an error and the database is what it was.
  pub save_atomic :
      (seq : ℕ) (p : Projector) (w : World)
      → (((saved seq p w).0 ≡ ok tt)
          × (flushed codec digest seq w.now p.buf w.db ≡ ok (saved seq p w).1.db))
        ⊎ ((e : Error) × ((saved seq p w).0 ≡ err e) × ((saved seq p w).1.db ≡ w.db))
  unfolding save
  save_atomic seq p w = elim (outcome_cases (saved seq p w)) [
    | inl done ↦ inl (
      ap (λ (r : Result (Unit {0}) × World). r.0) done,
      Meets-ok w _ _ (flushed codec digest seq w.now p.buf w.db)
          (flush-Meets codec digest seq p.buf w)
          (in_tx_commits (flush codec digest seq p.buf) (flush-IsSteady codec digest seq p.buf) w _
            done),
    )
    | inr (e, failed) ↦ inr (e, failed, in_tx_restores (flush codec digest seq p.buf) w e failed)
  ]

  -- Where no statement fails, and the payloads decode and the events encode, that is, where the
  -- specification has a database, Save returns and leaves that database.
  pub save_total :
      (seq : ℕ) (p : Projector) (w : World) (d : Db)
      → flushed codec digest seq w.now p.buf w.db ≡ ok d
      → ((saved seq p (calm w)).0 ≡ ok tt) × ((saved seq p (calm w)).1.db ≡ d)
  unfolding save
  save_total seq p w d h =
      let done =
        in_tx-calm (flush codec digest seq p.buf) w (record w { db = d })
          (subst (Meets w (flush codec digest seq p.buf (calm w))) h
            (flush-Meets codec digest seq p.buf w)) in
      (
        ap (λ (r : Result (Unit {0}) × World). r.0) done,
        ap (λ (r : Result (Unit {0}) × World). r.1.db) done,
      )

  -- a Save that returned has made of the database what the specification says
  pub save_returned :
      (seq : ℕ) (p : Projector) (w : World)
      → (saved seq p w).0 ≡ ok tt
      → flushed codec digest seq w.now p.buf w.db ≡ ok (saved seq p w).1.db
  save_returned seq p w h = elim (save_atomic seq p w) [
    | inl (_, spec) ↦ spec
    | inr (e, failed, _) ↦ absurd (cc (h, failed))
  ]
