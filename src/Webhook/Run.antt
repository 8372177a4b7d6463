-- ===== src/Webhook/Run.antt =====
-- internal/webhook/run.go: how the dispatcher is set up, and the sweeper beside it. The dispatcher's
-- own loop is the library's.
use padma.Base.{ℕ, ◌*◌, Bool, List, [], ◌∷◌, ◌++◌, Text, codes, ltb, if◌then◌else◌}
use padma.Base.Int.{ℤ, pos}
use padma.Errors.{Result, ok, err}
use padma.Database.{World}
use padma.Database.Rows.{Time}
use padma.Platform.Config.{Config}
use padma.Webhook.Backoff.{exp_jitter}
use padma.Webhook.Store.{requeue}
pub mod Swept

-- kwebhook.Dispatcher, less its store; times are in nanoseconds
pub record Dispatcher : Type 0 where
  pub timeout : ℕ
  -- of a random number and an attempt
  pub backoff : ℕ → ℕ → ℤ
  pub max_attempts : ℤ
  pub workers : ℤ
  pub poll_interval : ℕ

abbrev pub second : ℕ
second = 1000000000

-- the dispatcher of Run
unfoldable pub dispatcher : Config → Dispatcher
dispatcher cfg = record {
  timeout = 10 * second;
  backoff = exp_jitter (pos second) (pos (5 * 60 * second));
  max_attempts = cfg.webhook_max_attempts;
  workers = cfg.webhook_workers;
  poll_interval = second;
}

-- what Run starts: the dispatcher, and beside it a goroutine that sweeps at every tick of a period
pub record Started : Type 0 where
  pub dispatcher : Dispatcher
  pub sweep_every : ℕ

unfoldable pub started : Config → Started
started cfg = record { dispatcher = dispatcher cfg; sweep_every = 30 * second }

module _ (itoa : ℕ → Text) where
  abbrev pub noted : Result ℕ → List Text
  noted (ok n) =
      if ltb 0 n
      then (codes "dispatcher: re-armed " ++ (itoa n ++ codes " stuck deliveries")) ∷ []
      else []
  noted (err e) = []

  -- sweep, at the ticks that come before the context ends, with the lines that it prints
  unfoldable pub sweep : List Time → World → World × List Text
  sweep [] w = (w, [])
  sweep (t ∷ ticks) w =
      let r = requeue (record w { now = t }) in
      let rest = sweep ticks r.1 in (rest.0, noted r.0 ++ rest.1)
