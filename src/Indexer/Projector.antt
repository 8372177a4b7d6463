-- ===== src/Indexer/Projector.antt =====
-- internal/indexer/projector.go and merchant_match.go: the events of one raw change are buffered,
-- and applied with the checkpoint in one transaction.
use padma.Base.{ℕ, Option, none, some, List, [], ◌∷◌, ◌++◌, Text, ◌==◌, if◌then◌else◌}
use padma.Errors.{Result, ok, err, wrapped, or_wrap, is, no_rows}
use padma.Database.{World, Action, pure, lift, query_row, exec, wrap, read_now, ◌>>=◌, ◌>>◌}
use padma.Database.Rows.{Checkpoint, EventRow}
use padma.Database.Tx.{in_tx}
use padma.Indexer.Events.{
  Event, Codec, InvoicePaidData, PaymentReceivedData, invoice_paid, payment_received,
  channel_opened,
}
use padma.Indexer.Deliveries.{enqueue_deliveries}
use padma.Indexer.Projections.{
  null_text, amount_column, match_merchant_order, put_invoice, put_payment, put_channel,
  insert_event, advance,
}

-- Projector, beside the pool
pub record Projector : Type 0 where
  pub buf : List Event

-- Handle
unfoldable pub handle : Event → Projector → Projector
handle e p = record p { buf = p.buf ++ e ∷ [] }

module _ (codec : Codec) (digest : Text → Text) where
  open codec use {invoice_paid_data, payment_received_data, channel_opened_data}

  unfoldable pub project_invoice_paid : Event → Action (Unit {0})
  unfolding match_merchant_order
  project_invoice_paid e = do
    d ← lift (or_wrap (wrapped "indexer: decode invoice.paid: %w" []) (invoice_paid_data e.payload))
    wrap (wrapped "indexer: project invoice.paid: %w" []) (exec (put_invoice d))
    match_merchant_order d

  unfoldable pub project_payment_received : Event → Action (Unit {0})
  project_payment_received e = do
    d ← lift (
        or_wrap (wrapped "indexer: decode payment.received: %w" [])
          (payment_received_data e.payload))
    wrap (wrapped "indexer: project payment.received: %w" []) (exec (put_payment e d))

  unfoldable pub project_channel_opened : Event → Action (Unit {0})
  project_channel_opened e = do
    d ←
        lift (
          or_wrap (wrapped "indexer: decode channel.opened: %w" []) (channel_opened_data e.payload))
    wrap (wrapped "indexer: project channel.opened: %w" []) (exec (put_channel e d))

  -- assetAmount: nothing where the payload does not decode
  unfoldable pub asset_amount : Event → Option Text × Option ℕ
  asset_amount e =
      if e.event_type == invoice_paid
      then invoice_columns (invoice_paid_data e.payload)
      else if e.event_type == payment_received
      then payment_columns (payment_received_data e.payload)
      else (none, none)
    where
      invoice_columns : Result InvoicePaidData → Option Text × Option ℕ
      invoice_columns (ok d) = (null_text d.asset, amount_column d.amount)
      invoice_columns (err x) = (none, none)

      payment_columns : Result PaymentReceivedData → Option Text × Option ℕ
      payment_columns (ok d) = (null_text d.asset, amount_column d.amount)
      payment_columns (err x) = (none, none)

  unfoldable pub event_row : Event → ℕ → EventRow
  event_row e seq = record {
    id = e.id;
    event_type = e.event_type;
    fiber_ref = null_text e.fiber_ref;
    asset = (asset_amount e).0;
    amount = (asset_amount e).1;
    payload = e.payload;
    occurred_at = e.created_at;
    checkpoint = seq;
  }

  -- the switch on e.Type
  unfoldable pub project : Event → Action (Unit {0})
  unfolding project_invoice_paid project_payment_received project_channel_opened
  project e =
      if e.event_type == invoice_paid
      then project_invoice_paid e
      else if e.event_type == payment_received
      then project_payment_received e
      else if e.event_type == channel_opened
      then project_channel_opened e
      else pure tt

  -- applyEvent
  unfoldable pub apply_event : ℕ → Event → Action (Unit {0})
  unfolding event_row
  apply_event seq e = do
    wrap (wrapped "indexer: insert event %s: %w" e.id) (exec (insert_event (event_row e seq)))
    project e
    enqueue_deliveries codec digest e

  -- the loop over buf
  unfoldable pub apply_events : ℕ → List Event → Action (Unit {0})
  apply_events seq [] = pure tt
  apply_events seq (e ∷ es) = do apply_event seq e; apply_events seq es

  -- the function that Save runs in the transaction
  unfoldable pub flush : ℕ → List Event → Action (Unit {0})
  flush seq buf = do
    apply_events seq buf
    now ← read_now
    wrap (wrapped "indexer: save checkpoint: %w" []) (exec (advance seq now))

  -- Save: the buffer is taken whatever becomes of the transaction
  unfoldable pub save : ℕ → Projector → World → (Result (Unit {0}) × World) × Projector
  save seq p w = (in_tx (flush seq p.buf) w, record p { buf = [] })

-- Load
unfoldable pub load : Action ℕ
load w = settle (query_row (λ db. stored db.ingest_checkpoint) w)
  where
    stored : Option Checkpoint → Option ℕ
    stored none = none
    stored (some c) = some c.last_seq

    settle : Result ℕ × World → Result ℕ × World
    settle (ok seq, v) = (ok seq, v)
    settle (err e, v) =
        if is e no_rows then (ok 0, v) else (err (wrapped "indexer: load checkpoint: %w" [] e), v)
