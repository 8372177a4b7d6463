-- ===== src/Indexer/Run/Seeds.antt =====
-- A seed file replays its events.
use padma.Base.{
  ℕ, suc, take, Bool, false, ◌≡◌, inl, inr, refl, sym, ap, List, [], ◌∷◌, Text, All, codes, ◌==◌,
  ==_iff, empty_cases, Bool-cases, arith,
}
use padma.Errors.{ok, or_wrap_returned, bind-eq-ok, ok_injective}
use padma.Platform.Config.{Config, Environment}
use padma.Indexer.Events.{Event}
use padma.Indexer.Run.{
  RawChange, SeedRecord, Files, encoded, load_seed, build_source, normalize, subscribe,
}

-- the event with its raw JSON compacted, which is what Marshal writes of a RawMessage
abbrev pub compacted : (Text → Text) → Event → Event
compacted compact e = record e { payload = compact e.payload }

-- the changes carry the records of the seed, in its order, and each normalizes to its event with a
-- compacted payload
pub data Replays (files : Files) (decimal : ℕ → Text) (compact : Text → Text)
    : List SeedRecord → List RawChange → Type 0 where
  ends : Replays files decimal compact [] []
  goes_on :
      (rec : SeedRecord) (recs : List SeedRecord) (c : RawChange) (changes : List RawChange)
      → c.seq ≡ rec.seq
      → normalize files decimal c ≡ ok (compacted compact rec.event ∷ [])
      → Replays files decimal compact recs changes
      → Replays files decimal compact (rec ∷ recs) (c ∷ changes)

-- the records of a seed file; an empty path has none
pub data Seeded (files : Files) (path : Text) (recs : List SeedRecord) : Type 0 where
  no_path : path ≡ [] → recs ≡ [] → Seeded files path recs
  from_file :
      (b : Text)
      → files.read_file path ≡ ok b
      → files.seed_records b ≡ ok recs
      → Seeded files path recs

-- what JSON writes of the record's event it reads back, with the payload compacted
abbrev pub ReadsBack : Files → (Text → Text) → SeedRecord → Type 0
ReadsBack files compact rec =
    (body : Text)
    → files.marshal rec.event ≡ ok body
    → files.unmarshal body ≡ ok (compacted compact rec.event)

module _ (files : Files) (decimal : ℕ → Text) (compact : Text → Text) where
  encoded-Replays :
      (recs : List SeedRecord) (changes : List RawChange)
      → All (ReadsBack files compact) recs
      → encoded files recs ≡ ok changes
      → Replays files decimal compact recs changes
  unfolding encoded normalize
  encoded-Replays [] changes trip h = rw (sym (ok_injective h)) ends
  encoded-Replays (rec ∷ recs) changes trip h =
      let (body, marshals, h₁) = bind-eq-ok _ _ h in
      let (rest, encodes, h₂) = bind-eq-ok (encoded files recs) _ h₁ in
      let read = trip.0 body (or_wrap_returned _ (files.marshal rec.event) marshals) in
      rw (sym (ok_injective h₂))
        (goes_on rec recs _ rest refl (rw read refl) (encoded-Replays recs rest trip.1 encodes))

module _ (files : Files) (decimal : ℕ → Text) (compact : Text → Text)
    (trip : (b : Text) (recs : List SeedRecord)
      → files.seed_records b ≡ ok recs
      → All (ReadsBack files compact) recs) where
  load_seed-Replays :
      (path : Text) (changes : List RawChange)
      → load_seed files path ≡ ok changes
      → (recs : List SeedRecord) × Seeded files path recs
        × Replays files decimal compact recs changes
  unfolding load_seed
  load_seed-Replays path changes h = elim (empty_cases path) [
    | inl (test, none) ↦ ([], no_path none refl, rw (sym (ok_injective (rw test at h))) ends)
    | inr (test, _) ↦
        let (b, reads, h₁) = bind-eq-ok _ _ (rw test at h) in
        let (recs, parses, h₂) = bind-eq-ok _ _ h₁ in
        let parsed = or_wrap_returned _ (files.seed_records b) parses in
        (
          recs,
          from_file b (or_wrap_returned _ (files.read_file path) reads) parsed,
          encoded-Replays files decimal compact recs changes (trip b recs parsed) h₂,
        )
  ]

  -- what was sent before the context ended
  module _ (stopped : ℕ → Bool) where
    abbrev Sent : List SeedRecord → List RawChange → Type 0
    Sent recs sent =
        (n : ℕ) × Replays files decimal compact (take n recs) sent
        × (((i : ℕ) → stopped i ≡ false) → take n recs ≡ recs)

    subscribe-Sent :
        {recs : List SeedRecord} {changes : List RawChange} (step : ℕ)
        → Replays files decimal compact recs changes
        → Sent recs (subscribe stopped step changes)
    unfolding subscribe
    subscribe-Sent step ends = (0, ends, λ h. refl)
    subscribe-Sent step (goes_on rec recs c changes same normal rest) =
        elim (Bool-cases (stopped step)) [
          | inl e ↦ (0, rw e ends, λ h. absurd (cc (e, h step)))
          | inr e ↦
              let (n, sent, all) = subscribe-Sent (suc step) rest in
              (
                suc n,
                rw e (goes_on rec (take n recs) c _ same normal sent),
                λ h. ap (◌∷◌ rec) (all h),
              )
        ]

  -- A source is built only for "fake". It sends the records of the seed file in their order, each with
  -- its sequence number and as a change that normalizes to one event, the record's with its payload
  -- compacted; it sends all of them unless the context ends, and otherwise a first part of them. The
  -- condition is that an event that was read from a seed is, once JSON has written it, read back
  -- with its payload compacted.
  pub seed_replays :
      (stopped : ℕ → Bool) (getenv : Environment) (cfg : Config) (changes : List RawChange)
      → build_source files getenv cfg ≡ ok changes
      → (cfg.ingest_source ≡ codes "fake")
        × ((recs : List SeedRecord) × Seeded files (getenv (codes "SEED_FILE")) recs
            × Sent stopped recs (subscribe stopped 0 changes))
  unfolding build_source
  seed_replays stopped getenv cfg changes h =
      elim (Bool-cases (cfg.ingest_source == codes "fake")) [
        | inl e ↦
            let (recs, seeded, replays) =
              load_seed-Replays (getenv (codes "SEED_FILE")) changes (rw e at h) in
            (
              (==_iff cfg.ingest_source (codes "fake")).0 e,
              (recs, seeded, subscribe-Sent stopped 0 replays),
            )
        | inr e ↦ absurd (ground (arith, h))
      ]
