-- ===== src/Indexer/Projections.antt =====
-- internal/indexer/projector.go and merchant_match.go: the rows that an event is projected onto.
use padma.Base.{
  ℕ, Bool, true, false, ◌&&◌, Option, none, some, [], ◌∷◌, Text, codes, ◌==◌, or_else, insert_new,
  upsert, update_where, if◌then◌else◌,
}
use padma.Errors.{wrapped}
use padma.Database.{Db, Action, pure, query, exec, wrap, ◌>>=◌, Amount}
use padma.Database.Rows.{EventRow, PaymentRow, ChannelRow, InvoiceRow, OrderRow, OrderStatus, Time}
use padma.Platform.Numeric.{amount_to_numeric, numeric_column}
use padma.Indexer.Events.{Event, InvoicePaidData, PaymentReceivedData, ChannelOpenedData}

-- nullText
unfoldable pub null_text : Text → Option Text
null_text [] = none
null_text (c ∷ s) = some (c ∷ s)

unfoldable pub amount_column : Amount → Option ℕ
amount_column a = numeric_column (amount_to_numeric a)

-- invoice_payment_hash = $1 AND status = 'pending'
unfoldable pub awaits : Text → OrderRow → Bool
awaits hash o = holds o.invoice_payment_hash && is_pending o.status
  where
    holds : Option Text → Bool
    holds none = false
    holds (some h) = h == hash

    is_pending : OrderStatus → Bool
    is_pending OrderStatus.pending = true
    is_pending _ = false

-- SET status = 'paid', paid_at = $2
abbrev pub pay_order : Time → OrderRow → OrderRow
pay_order settled_at o = record o { status = OrderStatus.paid; paid_at = some settled_at }

abbrev pub pay_orders : InvoicePaidData → Db → Db
pay_orders d db = record db {
  merchant_orders =
      update_where (awaits d.payment_hash) (pay_order d.settled_at) db.merchant_orders;
}

-- matchMerchantOrder
unfoldable pub match_merchant_order : InvoicePaidData → Action (Unit {0})
match_merchant_order d = do
  exists ←
      wrap (wrapped "indexer: probe merchant_orders: %w" []) (query (λ db. db.has_merchant_tables))
  if exists
      then wrap (wrapped "indexer: match merchant order: %w" []) (exec (pay_orders d))
      else pure tt

-- the VALUES and the SET of the invoices upsert
abbrev pub paid_invoice : InvoicePaidData → InvoiceRow
paid_invoice d = record {
  payment_hash = d.payment_hash;
  status = codes "paid";
  asset = null_text d.asset;
  amount = amount_column d.amount;
  settled_at = some d.settled_at;
}

abbrev pub merge_invoice : InvoiceRow → InvoiceRow → InvoiceRow
merge_invoice new old = record old {
  status = codes "paid";
  settled_at = new.settled_at;
  asset = or_else old.asset new.asset;
  amount = or_else old.amount new.amount;
}

abbrev pub put_invoice : InvoicePaidData → Db → Db
put_invoice d db = record db {
  invoices =
      upsert (λ (r : InvoiceRow). r.payment_hash) (merge_invoice (paid_invoice d)) (paid_invoice d)
        db.invoices;
}

abbrev pub received_payment : Event → PaymentReceivedData → PaymentRow
received_payment e d = record {
  payment_hash = d.payment_hash;
  direction = codes "received";
  status = codes "succeeded";
  asset = null_text d.asset;
  amount = amount_column d.amount;
  fee = none;
  peer = null_text d.payer_pubkey;
  created_at = some e.created_at;
  updated_at = some e.created_at;
}

-- created_at and fee stay as they are stored
abbrev pub merge_payment : PaymentRow → PaymentRow → PaymentRow
merge_payment new old = record old {
  direction = codes "received";
  status = codes "succeeded";
  asset = new.asset;
  amount = new.amount;
  peer = new.peer;
  updated_at = new.updated_at;
}

abbrev pub put_payment : Event → PaymentReceivedData → Db → Db
put_payment e d db = record db {
  payments =
      upsert (λ (r : PaymentRow). r.payment_hash) (merge_payment (received_payment e d))
        (received_payment e d) db.payments;
}

abbrev pub open_channel : Event → ChannelOpenedData → ChannelRow
open_channel e d = record {
  channel_id = d.channel_id;
  peer = null_text d.peer;
  state = some (codes "open");
  capacity = amount_column d.capacity;
  local_balance = none;
  remote_balance = none;
  opened_at = some e.created_at;
  closed_at = none;
}

abbrev pub merge_channel : ChannelRow → ChannelRow → ChannelRow
merge_channel new old = record old {
  peer = new.peer;
  state = some (codes "open");
  capacity = new.capacity;
  opened_at = new.opened_at;
}

abbrev pub put_channel : Event → ChannelOpenedData → Db → Db
put_channel e d db = record db {
  channels =
      upsert (λ (r : ChannelRow). r.channel_id) (merge_channel (open_channel e d))
        (open_channel e d) db.channels;
}

abbrev pub insert_event : EventRow → Db → Db
insert_event r db = record db { events = insert_new (λ (x : EventRow). x.id) r db.events }

abbrev pub advance : ℕ → Time → Db → Db
advance seq now db = record db {
  ingest_checkpoint = some (record { last_seq = seq; updated_at = now });
}
