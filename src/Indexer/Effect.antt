-- ===== src/Indexer/Effect.antt =====
-- What one raw change should make of the database: the indexer's specification, without statements,
-- faults or transactions. It fails only where a payload does not decode or an event does not encode.
use padma.Base.{
  ℕ, Bool, true, false, List, [], ◌∷◌, map, Text, ◌==◌, select, insert_new, update_where,
  if◌then◌else◌,
}
use padma.Errors.{Result, ok, wrapped, or_wrap, ◌>>=◌}
use padma.Database.{Db}
use padma.Database.Rows.{Time, DeliveryRow, OrderRow}
use padma.Indexer.Events.{
  Event, Codec, InvoicePaidData, invoice_paid, payment_received, channel_opened,
}
use padma.Indexer.Deliveries.{EndpointSnapshot, snapshot, matches, new_delivery}
use padma.Indexer.Projector.{event_row}
use padma.Indexer.Projections.{
  put_invoice, awaits, pay_order, put_payment, put_channel, insert_event, advance,
}

-- the orders that wait for the invoice are paid, once there is a table of orders
unfoldable pub paid_if : Bool → InvoicePaidData → List OrderRow → List OrderRow
paid_if true d os = update_where (awaits d.payment_hash) (pay_order d.settled_at) os
paid_if false d os = os

abbrev pub settle_invoice : InvoicePaidData → Db → Db
settle_invoice d db = record (put_invoice d db) {
  merchant_orders = paid_if db.has_merchant_tables d db.merchant_orders;
}

-- the subscriptions that an event goes to
unfoldable pub subscribers : Event → Db → List EndpointSnapshot
subscribers e db =
    if db.has_webhook_tables
    then map snapshot (select (matches e.event_type) db.webhook_endpoints)
    else []

module _ (codec : Codec) (digest : Text → Text) where
  open codec use {invoice_paid_data, payment_received_data, channel_opened_data, marshal}

  -- the outbox with a delivery for each subscription, unless it is there
  unfoldable pub add_deliveries :
      Event → Text → Time → List EndpointSnapshot → List DeliveryRow → List DeliveryRow
  add_deliveries e payload now [] ds = ds
  add_deliveries e payload now (ep ∷ eps) ds =
      add_deliveries e payload now eps
        (insert_new (λ (r : DeliveryRow). r.id) (new_delivery codec digest e payload now ep) ds)

  unfoldable pub fan_out : Event → Time → List EndpointSnapshot → Db → Result Db
  fan_out e now [] db = ok db
  fan_out e now (ep ∷ eps) db = do
    payload ← or_wrap (wrapped "indexer: marshal delivery payload: %w" []) (marshal e)
    ok (record db {
      webhook_deliveries = add_deliveries e payload now (ep ∷ eps) db.webhook_deliveries;
    })

  -- an invoice is stored as paid, and the pending orders that wait for it are paid
  unfoldable pub invoice_paid_effect : Event → Db → Result Db
  invoice_paid_effect e db = do
    d ← or_wrap (wrapped "indexer: decode invoice.paid: %w" []) (invoice_paid_data e.payload)
    ok (settle_invoice d db)

  unfoldable pub payment_received_effect : Event → Db → Result Db
  payment_received_effect e db = do
    d ←
        or_wrap (wrapped "indexer: decode payment.received: %w" [])
          (payment_received_data e.payload)
    ok (put_payment e d db)

  unfoldable pub channel_opened_effect : Event → Db → Result Db
  channel_opened_effect e db = do
    d ← or_wrap (wrapped "indexer: decode channel.opened: %w" []) (channel_opened_data e.payload)
    ok (put_channel e d db)

  unfoldable pub projected : Event → Db → Result Db
  projected e db =
      if e.event_type == invoice_paid
      then invoice_paid_effect e db
      else if e.event_type == payment_received
      then payment_received_effect e db
      else if e.event_type == channel_opened
      then channel_opened_effect e db
      else ok db

  unfoldable pub applied : ℕ → Time → Event → Db → Result Db
  applied seq now e db = do
    d ← projected e (insert_event (event_row codec digest e seq) db)
    fan_out e now (subscribers e d) d

  unfoldable pub applied_all : ℕ → Time → List Event → Db → Result Db
  applied_all seq now [] db = ok db
  applied_all seq now (e ∷ es) db = do d ← applied seq now e db; applied_all seq now es d

  unfoldable pub flushed : ℕ → Time → List Event → Db → Result Db
  flushed seq now buf db = do d ← applied_all seq now buf db; ok (advance seq now d)
