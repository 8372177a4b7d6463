-- ===== src/Checks/Running.antt =====
-- The configuration, the seed files and the modes of the program on concrete environments.
use padma.Base.{
  All, subst, ℕ, select, not, take, eqb, ◌&&◌, Bool, false, ◌≡◌, ◌↔◌, refl, List, [], ◌∷◌, Text,
  codes, ◌==◌, if◌then◌else◌,
}
use padma.Base.Int.{pos}
use padma.Errors.{ok_injective, ok, err, reported}
use padma.Platform.Config.{Config, Environment, load, env_or, env_int, validated, is_source}
use padma.Platform.Config.Loads.{Configured, load_iff}
use padma.Platform.Http.{atoi}
use padma.Indexer.Events.{Event}
use padma.Indexer.Run.{
  RawChange, SeedRecord, Files, run as run_source, build_source, load_seed, encoded, subscribe,
}
use padma.Indexer.Run.Seeds.{ReadsBack, compacted, Replays, Seeded, seed_replays}
use padma.App.{main, run, run_mode, run_indexer}
use padma.App.Handles.{System, with_pool, interrupted}
use padma.App.NewMerchant.{Provisioned, merchant_key-Provisioned}
use padma.App.Exits.{Exits, main-Exits}
use padma.Checks.Samples.{world, digest, paid_event}

-- the variables of a development machine
abbrev getenv : Environment
getenv key =
    if key == codes "DATABASE_URL"
    then codes "postgres://localhost/padma"
    else if key == codes "WEBHOOK_WORKERS"
    then codes "2"
    else if key == codes "SEED_FILE"
    then codes "seed.json"
    else []

abbrev local : Config
local = record {
  fiber_rpc_endpoint = [];
  fiber_biscuit_token = [];
  ingest_source = codes "fake";
  database_url = codes "postgres://localhost/padma";
  webhook_max_attempts = pos 8;
  webhook_workers = pos 2;
  http_addr = codes ":8080";
}

load_test : load getenv ≡ ok local
unfolding load env_or env_int validated is_source atoi ◌==◌
load_test = refl

load_iff_example : (load getenv ≡ ok local) ↔ Configured getenv local
load_iff_example = load_iff getenv local

-- a seed file of one event, and JSON that knows only this event
abbrev is_paid_event : Event → Bool
is_paid_event e =
    e.id == paid_event.id
    && (e.event_type == paid_event.event_type
        && (eqb e.created_at paid_event.created_at
            && (e.fiber_ref == paid_event.fiber_ref && e.payload == paid_event.payload)))

-- JSON without its spaces
abbrev compact : Text → Text
compact s = select (λ (c : ℕ). not (eqb c b' ')) s

abbrev files : Files
files = record {
  read_file = λ path. ok (codes "[]");
  seed_records = λ b. ok (record { seq = 1; event = paid_event } ∷ []);
  marshal =
      λ e. if is_paid_event e then ok (codes "e1") else err (reported (codes "unsupported value"));
  unmarshal = λ b. ok (compacted compact paid_event);
}

files_trip :
    (b : Text) (recs : List SeedRecord)
    → files.seed_records b ≡ ok recs
    → All (ReadsBack files compact) recs
files_trip b recs h = subst (All (ReadsBack files compact)) (ok_injective h) ((λ body k. refl), tt)

abbrev change : RawChange
change = record { seq = 1; body = codes "e1" }

source_test : build_source files getenv local ≡ ok (change ∷ [])
unfolding build_source load_seed encoded ◌==◌
source_test = refl

seed_replays_example :
    (local.ingest_source ≡ codes "fake")
    × ((recs : List SeedRecord) × Seeded files (getenv (codes "SEED_FILE")) recs
        × ((n : ℕ) × Replays files
              (λ n. codes "1")
              compact
              (take n recs)
              (subscribe (λ i. false) 0 (change ∷ []))
            × (((i : ℕ) → false ≡ false) → take n recs ≡ recs)))
seed_replays_example =
    seed_replays files (λ n. codes "1") compact files_trip (λ i. false) getenv local (change ∷ [])
      source_test

abbrev system : System
system = record {
  getenv = getenv;
  files = files;
  sha_256 = digest;
  itoa = λ n. codes "2";
  new_pool = λ dsn. ok tt;
  ping = ok tt;
  sql_open = λ dsn. ok tt;
  set_dialect = ok tt;
  goose_up = λ w. (ok tt, w);
  runner = λ changes w. (ok tt, w);
  dispatch = λ d w. (ok tt, w);
  listen = λ cfg w. (interrupted (ok tt), w);
}

abbrev arguments : List Text
arguments = codes "indexer" ∷ []

main_test : (main system arguments world).0 ≡ 0
unfolding main run run_mode load run_indexer ◌==◌ atoi with_pool run_source
main_test = refl

main-Exits_example : Exits system arguments world (main system arguments world)
main-Exits_example = main-Exits system arguments world

merchant_key-Provisioned_example :
    Provisioned system
      (codes "books" ∷ [])
      world
      (main system (codes "merchant-key" ∷ codes "books" ∷ []) world)
merchant_key-Provisioned_example = merchant_key-Provisioned system (codes "books" ∷ []) world
