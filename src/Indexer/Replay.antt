-- ===== src/Indexer/Replay.antt =====
-- A crash before the commit replays the whole raw change: applying an event again changes nothing.
use padma.Base.{
  ◌≡◌, refl, ap, ap₂, subst, Bool, true, false, none, some, List, [], Text, ◌==◌, arith,
  upsert_idem, update_where_idem, if◌then◌else◌, or_else, Option,
}
use padma.Errors.{Result, ok, wrapped, or_wrap, ok_injective, bind-eq-ok}
use padma.Database.{Db}
use padma.Database.Rows.{
  Time, Checkpoint, DeliveryRow, OrderRow, InvoiceRow, PaymentRow, ChannelRow,
}
use padma.Indexer.Events.{
  Event, Codec, InvoicePaidData, PaymentReceivedData, ChannelOpenedData, invoice_paid,
  payment_received, channel_opened,
}
use padma.Indexer.Projections.{
  awaits, pay_order, put_invoice, put_payment, put_channel, paid_invoice, merge_invoice,
  received_payment, merge_payment, open_channel, merge_channel,
}
use padma.Indexer.Effect.{
  paid_if, settle_invoice, invoice_paid_effect, payment_received_effect, channel_opened_effect,
  projected,
}

awaits-pay_order : (hash : Text) (at : Time) (o : OrderRow) → awaits hash (pay_order at o) ≡ false
unfolding awaits
awaits-pay_order hash at o = ground arith

paid_if_idem :
    (b : Bool) (d : InvoicePaidData) (os : List OrderRow)
    → paid_if b d (paid_if b d os) ≡ paid_if b d os
unfolding paid_if
paid_if_idem true d os =
    update_where_idem (awaits d.payment_hash) (pay_order d.settled_at)
      (λ o _. awaits-pay_order d.payment_hash d.settled_at o) os
paid_if_idem false d os = refl

put_payment_idem :
    (e : Event) (x : PaymentReceivedData) (db : Db)
    → put_payment e x (put_payment e x db) ≡ put_payment e x db
put_payment_idem e x db =
    ap (λ (t : List PaymentRow). record db { payments = t })
      (upsert_idem (λ (r : PaymentRow). r.payment_hash) (merge_payment (received_payment e x))
        (λ r. refl) (received_payment e x) db.payments refl (λ r. refl))

put_channel_idem :
    (e : Event) (x : ChannelOpenedData) (db : Db)
    → put_channel e x (put_channel e x db) ≡ put_channel e x db
put_channel_idem e x db =
    ap (λ (t : List ChannelRow). record db { channels = t })
      (upsert_idem (λ (r : ChannelRow). r.channel_id) (merge_channel (open_channel e x)) (λ r. refl)
        (open_channel e x) db.channels refl (λ r. refl))

or_else_idem {ℓ} : {A : Type ℓ} (o d : Option A) → or_else (or_else o d) d ≡ or_else o d
or_else_idem (some a) d = refl
or_else_idem none none = refl
or_else_idem none (some a) = refl

or_else_self {ℓ} : {A : Type ℓ} (o : Option A) → or_else o o ≡ o
or_else_self none = refl
or_else_self (some a) = refl

invoices_idem :
    (x : InvoicePaidData) (db : Db)
    → (put_invoice x (put_invoice x db)).invoices ≡ (put_invoice x db).invoices
invoices_idem x db =
    upsert_idem (λ (r : InvoiceRow). r.payment_hash) (merge_invoice row) (λ r. refl) row db.invoices
      (λ i. record row { asset = or_else_self row.asset i; amount = or_else_self row.amount i })
      λ r i. record (merge_invoice row r) {
        asset = or_else_idem r.asset row.asset i;
        amount = or_else_idem r.amount row.amount i;
      }
  where
    row : InvoiceRow
    row = paid_invoice x

-- the projections leave the outbox and the rest alone, and are done once
module _ (codec : Codec) (digest : Text → Text) where
  invoice_paid_again :
      (e : Event) (db d : Db) (cp : Option Checkpoint) (ds : List DeliveryRow)
      → invoice_paid_effect codec digest e db ≡ ok d
      → invoice_paid_effect codec digest e
          (record d { ingest_checkpoint = cp; webhook_deliveries = ds })
        ≡ ok (record d { ingest_checkpoint = cp; webhook_deliveries = ds })
  unfolding invoice_paid_effect
  invoice_paid_again e db d cp ds h =
      let (x, decoded, stored) =
        bind-eq-ok
          (or_wrap (wrapped "indexer: decode invoice.paid: %w" [])
            (codec.invoice_paid_data e.payload))
          (λ x. ok (settle_invoice x db)) h in
      subst
        (λ (y : Db).
          invoice_paid_effect codec digest e
            (record y { ingest_checkpoint = cp; webhook_deliveries = ds })
          ≡ ok (record y { ingest_checkpoint = cp; webhook_deliveries = ds }))
        {x = settle_invoice x db} (ok_injective stored)
        (rw decoded (
          ap₂
            (λ (is : List InvoiceRow) (os : List OrderRow). ok (record db {
              invoices = is;
              merchant_orders = os;
              ingest_checkpoint = cp;
              webhook_deliveries = ds;
            }))
            (invoices_idem x db) (paid_if_idem db.has_merchant_tables x db.merchant_orders)))

  payment_received_again :
      (e : Event) (db d : Db) (cp : Option Checkpoint) (ds : List DeliveryRow)
      → payment_received_effect codec digest e db ≡ ok d
      → payment_received_effect codec digest e
          (record d { ingest_checkpoint = cp; webhook_deliveries = ds })
        ≡ ok (record d { ingest_checkpoint = cp; webhook_deliveries = ds })
  unfolding payment_received_effect
  payment_received_again e db d cp ds h =
      let (x, decoded, stored) =
        bind-eq-ok
          (or_wrap (wrapped "indexer: decode payment.received: %w" [])
            (codec.payment_received_data e.payload))
          (λ x. ok (put_payment e x db)) h in
      subst
        (λ (y : Db).
          payment_received_effect codec digest e
            (record y { ingest_checkpoint = cp; webhook_deliveries = ds })
          ≡ ok (record y { ingest_checkpoint = cp; webhook_deliveries = ds }))
        {x = put_payment e x db} (ok_injective stored)
        (rw decoded (
          ap ok
            (put_payment_idem e x (record db { ingest_checkpoint = cp; webhook_deliveries = ds }))))

  channel_opened_again :
      (e : Event) (db d : Db) (cp : Option Checkpoint) (ds : List DeliveryRow)
      → channel_opened_effect codec digest e db ≡ ok d
      → channel_opened_effect codec digest e
          (record d { ingest_checkpoint = cp; webhook_deliveries = ds })
        ≡ ok (record d { ingest_checkpoint = cp; webhook_deliveries = ds })
  unfolding channel_opened_effect
  channel_opened_again e db d cp ds h =
      let (x, decoded, stored) =
        bind-eq-ok
          (or_wrap (wrapped "indexer: decode channel.opened: %w" [])
            (codec.channel_opened_data e.payload))
          (λ x. ok (put_channel e x db)) h in
      subst
        (λ (y : Db).
          channel_opened_effect codec digest e
            (record y { ingest_checkpoint = cp; webhook_deliveries = ds })
          ≡ ok (record y { ingest_checkpoint = cp; webhook_deliveries = ds }))
        {x = put_channel e x db} (ok_injective stored)
        (rw decoded (
          ap ok
            (put_channel_idem e x (record db { ingest_checkpoint = cp; webhook_deliveries = ds }))))

  choice :
      (b : Bool) (s t s' t' : Result Db) (d d' : Db)
      → (s ≡ ok d → s' ≡ ok d')
      → (t ≡ ok d → t' ≡ ok d')
      → (if b then s else t) ≡ ok d
      → (if b then s' else t') ≡ ok d'
  choice true s t s' t' d d' hs ht h = hs h
  choice false s t s' t' d d' hs ht h = ht h

  pub projected_again :
      (e : Event) (db d : Db) (cp : Option Checkpoint) (ds : List DeliveryRow)
      → projected codec digest e db ≡ ok d
      → projected codec digest e (record d { ingest_checkpoint = cp; webhook_deliveries = ds })
        ≡ ok (record d { ingest_checkpoint = cp; webhook_deliveries = ds })
  unfolding projected
  projected_again e db d cp ds =
      choice (e.event_type == invoice_paid) _ _ _ _ _ _ (invoice_paid_again e db d cp ds) (
        choice (e.event_type == payment_received) _ _ _ _ _ _ (payment_received_again e db d cp ds)
          (choice (e.event_type == channel_opened) _ _ _ _ _ _ (channel_opened_again e db d cp ds)
            (λ h. refl)))
