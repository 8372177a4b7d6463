-- ===== src/Platform/Config.antt =====
-- internal/platform/config/config.go: the configuration, from the variables of the environment.
use padma.Base.{Bool, true, false, ◌||◌, Text, codes, ◌==◌, [], is_empty, if◌then◌else◌}
use padma.Base.Int.{ℤ, pos}
use padma.Errors.{Result, ok, err, message, wrapped, quoted, or_wrap, ◌>>=◌}
use padma.Platform.Http.{atoi}
pub mod Loads

pub record Config : Type 0 where
  pub fiber_rpc_endpoint : Text
  pub fiber_biscuit_token : Text
  pub ingest_source : Text
  pub database_url : Text
  pub webhook_max_attempts : ℤ
  pub webhook_workers : ℤ
  pub http_addr : Text

-- os.Getenv: empty where the variable is not set
abbrev pub Environment : Type 0
Environment = Text → Text

unfoldable pub env_or : Environment → Text → Text → Text
env_or getenv key def = if is_empty (getenv key) then def else getenv key

unfoldable pub env_int : Environment → Text → ℤ → Result ℤ
env_int getenv key def =
    if is_empty (getenv key)
    then ok def
    else or_wrap (wrapped "config: %s must be an integer: %w" key) (atoi (getenv key))

-- case "pubsub", "polling", "fake"
unfoldable pub is_source : Text → Bool
is_source s = s == codes "pubsub" || s == codes "polling" || s == codes "fake"

-- the two checks after the parsing
unfoldable pub validated : Config → Result Config
unfolding is_source
validated cfg =
    if is_empty cfg.database_url
    then err (message "config: DATABASE_URL is required" [])
    else if is_source cfg.ingest_source
    then ok cfg
    else err (
        message "config: invalid INGEST_SOURCE %q (want pubsub|polling|fake)"
          (quoted cfg.ingest_source))

-- Load
unfoldable pub load : Environment → Result Config
unfolding env_or env_int validated
load getenv = env_int getenv (codes "WEBHOOK_MAX_ATTEMPTS") (pos 8) >>= λ max_attempts.
    env_int getenv (codes "WEBHOOK_WORKERS") (pos 4) >>= λ workers. validated (record {
      fiber_rpc_endpoint = getenv (codes "FIBER_RPC_ENDPOINT");
      fiber_biscuit_token = getenv (codes "FIBER_BISCUIT_TOKEN");
      ingest_source = env_or getenv (codes "INGEST_SOURCE") (codes "fake");
      database_url = getenv (codes "DATABASE_URL");
      webhook_max_attempts = max_attempts;
      webhook_workers = workers;
      http_addr = env_or getenv (codes "HTTP_ADDR") (codes ":8080");
    })
