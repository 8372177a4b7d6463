-- ===== src/App/Exits.antt =====
-- The exit code, and the handles that a run has opened.
use padma.Base.{
  ℕ, ◌≤◌, ◌↔◌, some, Bool, true, false, ◌≡◌, ◌≢◌, inl, inr, refl, List, [], ◌∷◌, Text, codes,
  Bool-cases, if◌then◌else◌, arith, ◌==◌,
}
use padma.Errors.{Error, Result, ok, err, is, canceled, Result-cases}
use padma.Database.{World}
use padma.Platform.Config.{Config, load}
use padma.App.Steps.{
  Step, printed, outstanding, IsBalanced, IsBalanced-append, IsBalanced-none, IsBalanced-printed,
  IsBalanced-complained, IsBalanced-handle,
}
use padma.Indexer.Run.{run as run_source}
use padma.App.{
  run_migrate, run_indexer, run_api, run_dispatcher, run_provision_merchant, run_mode, run_webhook,
  unless_canceled, waited, told, applied, exits, run, main,
}
use padma.App.Handles.{System, Ran, Served, interrupted, stopped, with_pool, migrate, first_do}

-- the handles of a run
record IsTidy (r : Ran) : Type 0 where
  balanced : IsBalanced r.steps

if_else-IsTidy : (test : Bool) {a b : Ran} → IsTidy a → IsTidy b → IsTidy (if test then a else b)
if_else-IsTidy true ha hb = ha
if_else-IsTidy false ha hb = hb

applied-IsTidy : (q : Result (Unit {0})) (r : Ran) → IsTidy r → IsTidy (applied q r)
applied-IsTidy (ok u) r h = record {
  balanced = IsBalanced-append r.steps _ h.balanced (IsBalanced-printed _);
}
applied-IsTidy (err e) r h = h

module _ (sys : System) where
  with_pool-IsTidy :
      (dsn : Text) (go_on : World → Ran) (w : World)
      → ((v : World) → IsTidy (go_on v))
      → IsTidy (with_pool sys dsn go_on w)
  unfolding with_pool
  with_pool-IsTidy dsn go_on w h = elim (Result-cases (sys.new_pool dsn)) [
    | inl (u, made) ↦ elim (Result-cases sys.ping) [
      | inl (v, pings) ↦ rw (made, pings) (record { balanced = IsBalanced-handle _ (h w).balanced })
      | inr (e, fails) ↦
          rw (made, fails) (record { balanced = IsBalanced-handle _ IsBalanced-none })
    ]
    | inr (e, fails) ↦ rw fails (record { balanced = IsBalanced-none })
  ]

  migrate-IsTidy : (dsn : Text) (w : World) → IsTidy (migrate sys dsn w)
  unfolding migrate
  migrate-IsTidy dsn w = elim (Result-cases (sys.sql_open dsn)) [
    | inl (u, made) ↦ elim (Result-cases sys.set_dialect) [
      | inl (v, known) ↦
          rw (made, known) (record { balanced = IsBalanced-handle _ IsBalanced-none })
      | inr (e, fails) ↦
          rw (made, fails) (record { balanced = IsBalanced-handle _ IsBalanced-none })
    ]
    | inr (e, fails) ↦ rw fails (record { balanced = IsBalanced-none })
  ]

  run_migrate-IsTidy : (cfg : Config) (w : World) → IsTidy (run_migrate sys cfg w)
  unfolding run_migrate
  run_migrate-IsTidy cfg w = applied-IsTidy _ _ (migrate-IsTidy cfg.database_url w)

unless_canceled-IsTidy :
    (goodbye : Text) (r : Result (Unit {0}) × World) → IsTidy (unless_canceled goodbye r)
unless_canceled-IsTidy goodbye (ok u, w) = record { balanced = IsBalanced-printed _ }
unless_canceled-IsTidy goodbye (err e, w) = elim (Bool-cases (is e canceled)) [
  | inl it_is ↦ rw it_is (record { balanced = IsBalanced-printed _ })
  | inr other ↦ rw other (record { balanced = IsBalanced-none })
]

first_do-IsTidy : (said : Text) (r : Ran) → IsTidy r → IsTidy (first_do (printed said ∷ []) r)
first_do-IsTidy said r h = record {
  balanced = IsBalanced-append (printed said ∷ []) r.steps (IsBalanced-printed said) h.balanced;
}

module _ (sys : System) where
  waited-IsTidy : (s : Served × World) → IsTidy (waited sys s)
  waited-IsTidy (interrupted r, w) = record { balanced = IsBalanced-none }
  waited-IsTidy (stopped e, w) = record { balanced = IsBalanced-none }

  told-IsTidy : (r : Result (Text × Text) × World) → IsTidy (told sys r)
  told-IsTidy (ok (id, key), w) = record { balanced = IsBalanced-printed _ }
  told-IsTidy (err e, w) = record { balanced = IsBalanced-none }

  run_indexer-IsTidy : (cfg : Config) (w : World) → IsTidy (run_indexer sys cfg w)
  unfolding run_indexer
  run_indexer-IsTidy cfg w = with_pool-IsTidy sys cfg.database_url _ w λ v. first_do-IsTidy _ _ (
      unless_canceled-IsTidy (codes "indexer: done")
        (run_source sys.files sys.runner sys.getenv cfg v))

  run_dispatcher-IsTidy : (cfg : Config) (w : World) → IsTidy (run_dispatcher sys cfg w)
  unfolding run_dispatcher run_webhook
  run_dispatcher-IsTidy cfg w = with_pool-IsTidy sys cfg.database_url _ w λ v.
      first_do-IsTidy _ _
        (unless_canceled-IsTidy (codes "dispatcher: stopped") (run_webhook sys cfg v).1)

  run_api-IsTidy : (cfg : Config) (w : World) → IsTidy (run_api sys cfg w)
  unfolding run_api
  run_api-IsTidy cfg w =
      with_pool-IsTidy sys cfg.database_url _ w λ v. first_do-IsTidy _ _ (waited-IsTidy _)

  run_provision_merchant-IsTidy :
      (rest : List Text) (cfg : Config) (w : World) → IsTidy (run_provision_merchant sys rest cfg w)
  unfolding run_provision_merchant
  run_provision_merchant-IsTidy rest cfg w =
      with_pool-IsTidy sys cfg.database_url _ w λ v. told-IsTidy _

  run_mode-IsTidy :
      (mode : Text) (rest : List Text) (cfg : Config) (w : World)
      → IsTidy (run_mode sys mode rest cfg w)
  unfolding run_mode
  run_mode-IsTidy mode rest cfg w =
      if_else-IsTidy (mode == codes "migrate") (run_migrate-IsTidy sys cfg w) (
        if_else-IsTidy (mode == codes "indexer") (run_indexer-IsTidy cfg w) (
          if_else-IsTidy (mode == codes "api") (run_api-IsTidy cfg w) (
            if_else-IsTidy (mode == codes "dispatcher") (run_dispatcher-IsTidy cfg w) (
              if_else-IsTidy (mode == codes "merchant-key")
                (run_provision_merchant-IsTidy rest cfg w)
                (record { balanced = IsBalanced-complained _ })))))

  run-IsTidy : (mode : Text) (rest : List Text) (w : World) → IsTidy (run sys mode rest w)
  unfolding run
  run-IsTidy mode rest w = elim (Result-cases (load sys.getenv)) [
    | inl (cfg, e) ↦ rw e (run_mode-IsTidy mode rest cfg w)
    | inr (m, e) ↦ rw e (record { balanced = IsBalanced-none })
  ]

run_unconfigured :
    (sys : System) (mode : Text) (rest : List Text) (w : World) (e : Error)
    → load sys.getenv ≡ err e
    → ((run sys mode rest w).result ≢ ok tt) × ((run sys mode rest w).world ≡ w)
unfolding run
run_unconfigured sys mode rest w e h = rw h (λ same. cc, refl)

-- how a run of the program ends
pub record Exits (sys : System) (args : List Text) (w : World) (r : ℕ × World × List Step)
    : Type 0 where
  pub small : r.0 ≤ 2
  pub usage_only : (r.0 ≡ 2) ↔ (args ≡ [])
  pub closes_all : outstanding 0 r.2 ≡ some 0
  pub unconfigured : (e : Error) → load sys.getenv ≡ err e → (r.0 ≢ 0) × (r.1 ≡ w)

exits-Exits :
    (sys : System) (mode : Text) (rest : List Text) (w : World) (q : Result (Unit {0})) (r : Ran)
    → IsTidy r
    → ((e : Error) → load sys.getenv ≡ err e → (q ≢ ok tt) × (r.world ≡ w))
    → Exits sys (mode ∷ rest) w (exits q r)
exits-Exits sys mode rest w (ok u) r h bad = record {
  small = omega arith;
  usage_only = (λ e. absurd (omega arith), λ e. absurd (cc));
  closes_all = h.balanced.settles 0;
  unconfigured = λ m e. absurd ((bad m e).0 refl);
}
exits-Exits sys mode rest w (err m) r h bad = record {
  small = omega arith;
  usage_only = (λ e. absurd (omega arith), λ e. absurd (cc));
  closes_all = (IsBalanced-append r.steps _ h.balanced (IsBalanced-complained _)).settles 0;
  unconfigured = λ n e. (λ z. omega arith, (bad n e).1);
}

-- Whatever the arguments, the environment and the libraries are, the program exits with 0, 1 or 2, and
-- with 2 exactly without arguments. Each handle of Postgres that it has opened is closed, once. Where
-- the configuration does not load, the exit code is not 0 and nothing has been done to the database.
pub main-Exits : (sys : System) (args : List Text) (w : World) → Exits sys args w (main sys args w)
unfolding main outstanding
main-Exits sys [] w = record {
  small = omega arith;
  usage_only = (λ e. refl, λ e. refl);
  closes_all = refl;
  unconfigured = λ m e. (λ z. omega arith, refl);
}
main-Exits sys (mode ∷ rest) w =
    exits-Exits sys mode rest w _ _ (run-IsTidy sys mode rest w) (run_unconfigured sys mode rest w)
