-- ===== src/App.antt =====
-- cmd/app/main.go: the modes of the program.
pub mod Steps
pub mod Handles
pub mod Exits
pub mod NewMerchant
use padma.Base.{
  ℕ, ◌*◌, Option, none, some, Bool, true, false, List, [], ◌∷◌, ◌++◌, Text, codes, ◌==◌, is_empty,
  if◌then◌else◌,
}
use padma.Base.Int.{ℤ}
use padma.Errors.{
  Error, Result, ok, err, message, wrapped, quoted, or_wrap, is, canceled, server_closed,
  error_text,
}
use padma.Database.{World}
use padma.Platform.Config.{Config, Environment, load}
use padma.Indexer.Run.{RawChange, Files, run as run_source}
use padma.Merchant.Handlers.{provision}
use padma.Webhook.Run.{Started, started, second}
use padma.App.Steps.{Step, opened, closed, printed, complained}
use padma.App.Handles.{
  Served, interrupted, stopped, Server, System, Ran, line, first_do, with_pool, migrate,
}

-- err != nil && !errors.Is(err, context.Canceled)
abbrev pub unless_canceled : Text → Result (Unit {0}) × World → Ran
unless_canceled goodbye (ok u, w) = record {
  result = ok tt;
  world = w;
  steps = printed (line goodbye) ∷ [];
}
unless_canceled goodbye (err e, w) =
    if is e canceled
    then record { result = ok tt; world = w; steps = printed (line goodbye) ∷ [] }
    else record { result = err e; world = w; steps = [] }

-- fmt.Println("migrations applied"), unless Migrate fails
abbrev pub applied : Result (Unit {0}) → Ran → Ran
applied (ok u) r = record r { steps = r.steps ++ printed (line (codes "migrations applied")) ∷ [] }
applied (err e) r = r

-- os.Exit(1), where run returns an error
abbrev pub exits : Result (Unit {0}) → Ran → ℕ × World × List Step
exits (ok u) r = (0, r.world, r.steps)
exits (err e) r = (1, r.world, r.steps ++ complained (line (codes "app: " ++ error_text e)) ∷ [])

module _ (sys : System) where
  -- case "migrate"
  unfoldable pub run_migrate : Config → World → Ran
  run_migrate cfg w = let r = migrate sys cfg.database_url w in applied r.result r

  -- runIndexer
  unfoldable pub run_indexer : Config → World → Ran
  run_indexer cfg = with_pool sys cfg.database_url λ w.
      first_do
        (printed (line (codes "indexer: starting (source: " ++ (cfg.ingest_source ++ codes ")")))
          ∷ [])
        (unless_canceled (codes "indexer: done") (run_source sys.files sys.runner sys.getenv cfg w))

  -- webhook.Run
  unfoldable pub run_webhook : Config → World → List Step × (Result (Unit {0}) × World)
  run_webhook cfg w = (
    printed (
          line (
            codes "dispatcher: workers="
            ++ (sys.itoa cfg.webhook_workers
                ++ (codes " max_attempts=" ++ sys.itoa cfg.webhook_max_attempts))))
        ∷ [],
    sys.dispatch (started cfg) w,
  )

  -- runDispatcher
  unfoldable pub run_dispatcher : Config → World → Ran
  run_dispatcher cfg = with_pool sys cfg.database_url λ w.
      first_do (run_webhook cfg w).0
        (unless_canceled (codes "dispatcher: stopped") (run_webhook cfg w).1)

  -- the select of runAPI
  abbrev pub waited : Served × World → Ran
  waited (interrupted r, w) = record { result = r; world = w; steps = [] }
  waited (stopped e, w) = record {
    result = if is e server_closed then ok tt else err e;
    world = w;
    steps = [];
  }

  abbrev pub server : Config → Server
  server cfg = record {
    addr = cfg.http_addr;
    read_header_timeout = 10 * second;
    fiber_endpoint = cfg.fiber_rpc_endpoint;
    auth_token = if is_empty cfg.fiber_biscuit_token then none else some cfg.fiber_biscuit_token;
  }

  -- runAPI; the line is printed by the goroutine that listens
  unfoldable pub run_api : Config → World → Ran
  run_api cfg = with_pool sys cfg.database_url λ w.
      first_do (printed (line (codes "api: listening on " ++ cfg.http_addr)) ∷ [])
        (waited (sys.listen (server cfg) w))

  -- name := "merchant"; if len(os.Args) > 2 { name = os.Args[2] }
  abbrev pub merchant_name : List Text → Text
  merchant_name [] = codes "merchant"
  merchant_name (name ∷ rest) = name

  abbrev pub told : Result (Text × Text) × World → Ran
  told (ok (id, key), w) = record {
    result = ok tt;
    world = w;
    steps = printed (line (codes "merchant_id=" ++ id) ++ line (codes "api_key=" ++ key)) ∷ [];
  }
  told (err e, w) = record { result = err e; world = w; steps = [] }

  -- runProvisionMerchant, with the arguments after the mode
  unfoldable pub run_provision_merchant : List Text → Config → World → Ran
  run_provision_merchant rest cfg =
      with_pool sys cfg.database_url
        λ w. told (provision sys.sha_256 (merchant_name rest) (codes "CKB") w)

  abbrev pub usage : Step
  usage = complained (line (codes "usage: app <migrate|indexer|api|dispatcher>"))

  -- the switch of run
  unfoldable pub run_mode : Text → List Text → Config → World → Ran
  run_mode mode rest cfg w =
      if mode == codes "migrate"
      then run_migrate cfg w
      else if mode == codes "indexer"
      then run_indexer cfg w
      else if mode == codes "api"
      then run_api cfg w
      else if mode == codes "dispatcher"
      then run_dispatcher cfg w
      else if mode == codes "merchant-key"
      then run_provision_merchant rest cfg w
      else record {
        result = err (message "unknown subcommand %q" (quoted mode));
        world = w;
        steps = usage ∷ [];
      }

  -- run
  unfoldable pub run : Text → List Text → World → Ran
  run mode rest w = configured (load sys.getenv)
    where
      configured : Result Config → Ran
      configured (ok cfg) = run_mode mode rest cfg w
      configured (err e) = record { result = err e; world = w; steps = [] }

  -- the exit code of main, and what has been done
  unfoldable pub main : List Text → World → ℕ × World × List Step
  main [] w = (2, w, usage ∷ [])
  main (mode ∷ rest) w = let r = run mode rest w in exits r.result r
