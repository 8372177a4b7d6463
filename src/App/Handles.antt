-- ===== src/App/Handles.antt =====
-- internal/platform/db/pool.go and migrate.go, and what the program runs on. What the libraries do is
-- outside: connections, migrations, the runner, the dispatcher and the HTTP server.
use padma.Base.{ℕ, Option, List, [], ◌∷◌, ◌++◌, Text}
use padma.Base.Int.{ℤ}
use padma.Errors.{Error, Result, ok, err, wrapped, or_wrap}
use padma.Database.{World}
use padma.Platform.Config.{Environment}
use padma.Indexer.Run.{RawChange, Files}
use padma.Webhook.Run.{Started}
use padma.App.Steps.{Step, opened, closed}

-- what runAPI waits for: the context, and then what Shutdown returns, or the error of ListenAndServe
pub data Served : Type 0 where
  interrupted : Result (Unit {0}) → Served
  stopped : Error → Served

-- http.Server, less its handler, and the client of the Fiber node; times are in nanoseconds
pub record Server : Type 0 where
  pub addr : Text
  pub read_header_timeout : ℕ
  pub fiber_endpoint : Text
  pub auth_token : Option Text

pub record System : Type 0 where
  pub getenv : Environment
  pub files : Files
  pub sha_256 : Text → Text
  pub itoa : ℤ → Text
  -- pgxpool.New and Ping
  pub new_pool : Text → Result (Unit {0})
  pub ping : Result (Unit {0})
  -- sql.Open, goose.SetDialect and goose.Up
  pub sql_open : Text → Result (Unit {0})
  pub set_dialect : Result (Unit {0})
  pub goose_up : World → Result (Unit {0}) × World
  -- ingest.Runner over the projector, the dispatcher over the store with the sweeper beside it, and
  -- the server
  pub runner : List RawChange → World → Result (Unit {0}) × World
  pub dispatch : Started → World → Result (Unit {0}) × World
  pub listen : Server → World → Served × World

-- what a mode returns, the world that it leaves, and its steps
pub record Ran : Type 0 where
  pub result : Result (Unit {0})
  pub world : World
  pub steps : List Step

-- with a newline
abbrev pub line : Text → Text
line s = s ++ b'\n' ∷ []

-- steps in front of a run
abbrev pub first_do : List Step → Ran → Ran
first_do steps r = record r { steps = steps ++ r.steps }

-- defer … Close()
abbrev pub closing : Ran → Ran
closing r = record r { steps = opened ∷ (r.steps ++ closed ∷ []) }

module _ (sys : System) where
  -- db.Open, which closes the pool itself where the ping fails, and then, in front of the rest of a
  -- mode, `defer pool.Close()`
  unfoldable pub with_pool : Text → (World → Ran) → World → Ran
  with_pool dsn go_on w = made (sys.new_pool dsn)
    where
      pinged : Result (Unit {0}) → Ran
      pinged (ok u) = go_on w
      pinged (err e) = record { result = err (wrapped "db: ping: %w" [] e); world = w; steps = [] }

      made : Result (Unit {0}) → Ran
      made (ok u) = closing (pinged sys.ping)
      made (err e) = record {
        result = err (wrapped "db: open pool: %w" [] e);
        world = w;
        steps = [];
      }

  -- db.Migrate
  unfoldable pub migrate : Text → World → Ran
  migrate dsn w = handle (sys.sql_open dsn)
    where
      up : Result (Unit {0}) × World → Ran
      up (r, v) = record {
        result = or_wrap (wrapped "db: migrate up: %w" []) r;
        world = v;
        steps = [];
      }

      dialect : Result (Unit {0}) → Ran
      dialect (ok u) = up (sys.goose_up w)
      dialect (err e) = record {
        result = err (wrapped "db: migrate dialect: %w" [] e);
        world = w;
        steps = [];
      }

      handle : Result (Unit {0}) → Ran
      handle (ok u) = closing (dialect sys.set_dialect)
      handle (err e) = record {
        result = err (wrapped "db: migrate open: %w" [] e);
        world = w;
        steps = [];
      }
