-- ===== src/Indexer/Run.antt =====
-- internal/indexer/run.go and internal/platform/fiber/fiber.go: the source of raw changes, which a
-- seed file stands in for. Reading files, JSON and the runner of the library are outside.
use padma.Base.{ℕ, suc, Bool, ◌||◌, List, [], ◌∷◌, Text, codes, ◌==◌, is_empty, if◌then◌else◌}
use padma.Errors.{Result, ok, err, message, wrapped, quoted, or_wrap, ◌>>=◌}
use padma.Platform.Config.{Config, Environment}
use padma.Database.{World}
use padma.Indexer.Events.{Event}
pub mod Seeds

-- events.RawChange
pub record RawChange : Type 0 where
  pub seq : ℕ
  pub body : Text

-- seedRecord
pub record SeedRecord : Type 0 where
  pub seq : ℕ
  pub event : Event

-- os.ReadFile, and json on seed files and events
pub record Files : Type 0 where
  pub read_file : Text → Result Text
  pub seed_records : Text → Result (List SeedRecord)
  pub marshal : Event → Result Text
  pub unmarshal : Text → Result Event

module _ (files : Files) where
  -- the loop over recs
  unfoldable pub encoded : List SeedRecord → Result (List RawChange)
  encoded [] = ok []
  encoded (rec ∷ recs) =
      or_wrap (wrapped "indexer: encode seed event: %w" []) (files.marshal rec.event) >>= λ body.
      encoded recs >>= λ changes. ok (record { seq = rec.seq; body = body } ∷ changes)

  -- loadSeed
  unfoldable pub load_seed : Text → Result (List RawChange)
  unfolding encoded
  load_seed path =
      if is_empty path
      then ok []
      else or_wrap (wrapped "indexer: read seed %s: %w" path) (files.read_file path) >>= λ b.
          or_wrap (wrapped "indexer: parse seed %s: %w" path) (files.seed_records b) >>= λ recs.
          encoded recs

  -- buildSource, whose only source is the FakeSource of these changes, with the StubNormalizer
  unfoldable pub build_source : Environment → Config → Result (List RawChange)
  unfolding load_seed
  build_source getenv cfg =
      if cfg.ingest_source == codes "fake"
      then load_seed (getenv (codes "SEED_FILE"))
      else if cfg.ingest_source == codes "polling" || cfg.ingest_source == codes "pubsub"
      then err (
          message
            "indexer: INGEST_SOURCE=%s needs the store_changes spike (concrete Source/Normalizer not yet in the library)"
            cfg.ingest_source)
      else err (message "indexer: unknown INGEST_SOURCE %q" (quoted cfg.ingest_source))

  -- StubNormalizer.Normalize; `decimal` prints a number
  unfoldable pub normalize : (ℕ → Text) → RawChange → Result (List Event)
  normalize decimal raw =
      or_wrap (wrapped "fiber: stub normalize seq %d: %w" (decimal raw.seq))
        (files.unmarshal raw.body)
      >>= λ e. ok (e ∷ [])

-- what FakeSource.Subscribe sends before it closes the channel: `stopped` says of each step whether
-- the context has ended by then, before the send or while it waits
unfoldable pub subscribe : (ℕ → Bool) → ℕ → List RawChange → List RawChange
subscribe stopped step [] = []
subscribe stopped step (c ∷ changes) =
    let rest = subscribe stopped (suc step) changes in if stopped step then [] else c ∷ rest

-- Run: `runner` is the library's ingest.Runner over the projector
unfoldable pub run :
    Files
    → (List RawChange → World → Result (Unit {0}) × World)
    → Environment
    → Config
    → World
    → Result (Unit {0}) × World
unfolding build_source
run files runner getenv cfg w = started (build_source files getenv cfg)
  where
    started : Result (List RawChange) → Result (Unit {0}) × World
    started (ok changes) = runner changes w
    started (err e) = (err e, w)
