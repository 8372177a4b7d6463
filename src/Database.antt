-- ===== src/Database.antt =====
-- The Postgres database behind the pool (internal/platform/db, migrations/), and actions on it. An
-- action runs statements one after another; `faults` says how the statements to come fare, so that
-- a theorem about an action covers every failure of the driver or of the server.
pub mod Rows
pub mod Tx
pub mod Outcome
pub mod Meets
pub mod Cases
pub mod Keeps
pub mod Returns
pub mod Preserves
use padma.Base.{ℕ, suc, Bool, Option, none, some, List, [], ◌∷◌, Text}
use padma.Errors.{Error, Result, ok, err, sentinel, reported, no_rows}
use Rows.{
  Time, Checkpoint, EventRow, PaymentRow, ChannelRow, InvoiceRow, EndpointRow, DeliveryRow,
  DeliveryLogRow, MerchantRow, OrderRow, RefundRow, SettlementRecord, RunRow,
}

pub record Db : Type 0 where
  -- whether migrations 0002 and 0003 are applied: to_regclass(…) IS NOT NULL
  pub has_webhook_tables : Bool
  pub has_merchant_tables : Bool
  pub ingest_checkpoint : Option Checkpoint
  pub events : List EventRow
  pub payments : List PaymentRow
  pub channels : List ChannelRow
  pub invoices : List InvoiceRow
  pub webhook_endpoints : List EndpointRow
  pub webhook_deliveries : List DeliveryRow
  pub webhook_delivery_log : List DeliveryLogRow
  pub merchants : List MerchantRow
  pub merchant_orders : List OrderRow
  pub refunds : List RefundRow
  pub settlements : List SettlementRecord
  pub reconciliation_runs : List RunRow

-- fibertypes.Amount of the kanaka library, known by what BigInt() returns
pub record Amount : Type 0 where
  pub big_int : ℕ

-- the rpc types of the kanaka library, with the fields that the code uses
pub record NewInvoiceParams : Type 0 where
  pub amount : Amount
  pub description : Text

pub record Invoice : Type 0 where
  pub payment_hash : Text
  pub address : Text

pub record SendPaymentParams : Type 0 where
  pub target_pubkey : Text
  pub amount : Amount
  pub keysend : Bool

pub record Payment : Type 0 where
  pub payment_hash : Text

pub data Call : Type 0 where
  new_invoice : NewInvoiceParams → Call
  send_payment : SendPaymentParams → Call

-- What an action sees beside the database: the clock, the random ids and keys, and the Fiber node,
-- whose answers are numbered by the calls that it has had.
pub record World : Type 0 where
  pub db : Db
  -- nothing, or what the driver reports; never one of the sentinels
  pub faults : List (Option Text)
  pub now : Time
  pub ulids : ℕ → Text
  pub minted : ℕ
  pub random_bytes : ℕ → Text
  pub drawn : ℕ
  pub invoice_reply : ℕ → Result Invoice
  pub payment_reply : ℕ → Result Payment
  pub calls : List Call

abbrev pub Action : Type 0 → Type 0
Action A = World → Result A × World

module _ {A : Type 0} where
  unfoldable pub pure : A → Action A
  pure a w = (ok a, w)

  unfoldable pub raise : Error → Action A
  raise e w = (err e, w)

  unfoldable pub lift : Result A → Action A
  lift r w = (r, w)

  abbrev pub commit : World → Result A × Db → Result A × World
  commit w (r, db) = (r, record w { db = db })

  unfoldable pub attempt : List (Option Text) → (Db → Result A × Db) → Action A
  attempt [] f w = commit w (f w.db)
  attempt (none ∷ rest) f w = commit (record w { faults = rest }) (f w.db)
  attempt (some m ∷ rest) f w = (err (reported m), record w { faults = rest })

  -- a statement: the driver or the server may fail it, and then it has done nothing
  unfoldable pub statement : (Db → Result A × Db) → Action A
  statement f w = attempt w.faults f w

  -- pool.Query and the rows that it scans
  unfoldable pub query : (Db → A) → Action A
  unfolding statement attempt
  query f = statement (λ db. (ok (f db), db))

  abbrev pub row_or_none : Option A → Result A
  row_or_none none = err (sentinel no_rows)
  row_or_none (some a) = ok a

  -- pool.QueryRow(…).Scan
  unfoldable pub query_row : (Db → Option A) → Action A
  unfolding statement attempt
  query_row f = statement (λ db. (row_or_none (f db), db))

  abbrev pub rewrap : (Error → Error) → Result A × World → Result A × World
  rewrap f (ok a, w) = (ok a, w)
  rewrap f (err e, w) = (err (f e), w)

  -- the error of an action, wrapped
  unfoldable pub wrap : (Error → Error) → Action A → Action A
  wrap f m w = rewrap f (m w)

  -- the result and error of an action, handed to the code that looks at both
  unfoldable pub try : Action A → Action (Result A)
  try m w = let (r, w') = m w in (ok r, w')

-- pool.Exec
unfoldable pub exec : (Db → Db) → Action (Unit {0})
unfolding statement attempt
exec f = statement (λ db. (ok tt, f db))

module _ {A B : Type 0} where
  abbrev pub continue : Result A × World → (A → Action B) → Result B × World
  continue (ok a, w) f = f a w
  continue (err e, w) f = (err e, w)

  infixl 5 ◌>>=◌ ◌>>◌
  unfoldable pub ◌>>=◌ : Action A → (A → Action B) → Action B
  ◌>>=◌ m f w = continue (m w) f

  abbrev pub ◌>>◌ : Action A → Action B → Action B
  m >> n = m >>= λ _. n

-- now()
unfoldable pub read_now : Action Time
read_now w = (ok w.now, w)

-- id.New, whose ids are the parameter `ulids`
unfoldable pub new_id : Action Text
new_id w = (ok (w.ulids w.minted), record w { minted = suc w.minted })
