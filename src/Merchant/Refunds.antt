-- ===== src/Merchant/Refunds.antt =====
-- internal/merchant/refunds.go: a keysend payment back to the payer, and its record.
pub mod Outcome
pub mod Recorded
pub mod Unrecorded
use padma.Base.{
  ℕ, Bool, true, false, Option, none, some, List, [], ◌∷◌, ◌++◌, Text, codes, ◌==◌, find, first,
  update_where, if◌then◌else◌,
}
use padma.Errors.{
  Error, Result, ok, err, sentinel, reported, wrapped, or_wrap, quoted, is, no_rows, invalid_state,
}
use padma.Database.{
  Db, World, Action, Amount, Payment, pure, raise, lift, statement, exec, query_row, wrap, new_id,
  ◌>>=◌, ◌>>◌,
}
use padma.Database.Rows.{Time, OrderRow, OrderStatus, RefundRow, PaymentRow}
use padma.Platform.Fibertypes.{Fibertypes}
use padma.Platform.Numeric.{amount_to_numeric, numeric_column}
use padma.Platform.Columns.{Pgx}
use padma.Merchant.Node.{send_payment}
use padma.Merchant.Orders.{Order, get_order, same_order, bad_amount}

-- Refund
pub record Refund : Type 0 where
  pub id : Text
  pub order_id : Text
  pub amount : Text
  pub asset : Text
  pub reason : Text
  pub status : Text
  pub fiber_payment_hash : Text

abbrev pub status_text : OrderStatus → Text
status_text OrderStatus.pending = codes "pending"
status_text OrderStatus.paid = codes "paid"
status_text OrderStatus.expired = codes "expired"
status_text OrderStatus.refunded = codes "refunded"

abbrev pub not_paid : OrderStatus → Error
not_paid s =
    wrapped "%w: order status is %q, must be paid" (quoted (status_text s)) (sentinel invalid_state)

abbrev pub no_payer : Error
no_payer = wrapped "%w: no payer pubkey captured for this order" [] (sentinel invalid_state)

-- the peer of the payment, where there is a payment
abbrev pub stored_peer : Option PaymentRow → Option (Option Text)
stored_peer none = none
stored_peer (some p) = some p.peer

abbrev pub peer_of : Text → Db → Option (Option Text)
peer_of payment_hash db =
    stored_peer (find (λ (p : PaymentRow). p.payment_hash) payment_hash db.payments)

abbrev pub payer_or_error : Result (Option Text) × World → Result Text × World
payer_or_error (ok none, w) = (err no_payer, w)
payer_or_error (ok (some []), w) = (err no_payer, w)
payer_or_error (ok (some (c ∷ s)), w) = (ok (c ∷ s), w)
payer_or_error (err e, w) =
    if is e no_rows then (err no_payer, w) else (err (wrapped "merchant: lookup payer: %w" [] e), w)

-- payerPubkey
unfoldable pub payer_pubkey : Text → Action Text
payer_pubkey payment_hash w = payer_or_error (query_row (peer_of payment_hash) w)

abbrev pub stores_refund :
    Option RefundRow → Option OrderRow → RefundRow → Db → Result (Unit {0}) × Db
stores_refund (some x) order r db =
    (err (reported (codes "duplicate key value violates unique constraint")), db)
stores_refund none none r db = (err (reported (codes "insert violates foreign key constraint")), db)
stores_refund none (some o) r db = (ok tt, record db { refunds = db.refunds ++ r ∷ [] })

abbrev pub same_refund : Text → RefundRow → Bool
same_refund id r = r.id == id

-- INSERT INTO refunds, with the primary key and the reference to merchant_orders(id)
abbrev pub insert_refund : RefundRow → Db → Result (Unit {0}) × Db
insert_refund r db =
    stores_refund (first (same_refund r.id) db.refunds)
      (first (same_order r.order_id) db.merchant_orders) r db

-- SET status = 'refunded'
abbrev pub refund_order : OrderRow → OrderRow
refund_order o = record o { status = OrderStatus.refunded }

abbrev pub mark_refunded : Text → Db → Db
mark_refunded order_id db = record db {
  merchant_orders = update_where (same_order order_id) refund_order db.merchant_orders;
}

abbrev pub refund_row : Text → Text → Text → Amount → Text → Payment → RefundRow
refund_row refund_id order_id asset amount reason pay = record {
  id = refund_id;
  order_id = order_id;
  amount = numeric_column (amount_to_numeric amount);
  asset = some asset;
  reason = reason;
  status = codes "sent";
  fiber_payment_hash = pay.payment_hash;
}

-- if order.Status != "paid"
abbrev pub check_paid : OrderStatus → Action (Unit {0})
check_paid OrderStatus.paid = pure tt
check_paid s = raise (not_paid s)

module _ (lib : Fibertypes) (pgx : Pgx) (rfc3339 : Time → Text) where
  open lib use {parse_amount, hex}

  -- what follows the answer of SendPayment
  unfoldable pub record_refund : Text → Text → Order → Amount → Payment → Action Refund
  record_refund order_id reason order amount pay = do
    refund_id ← new_id
    wrap (wrapped "merchant: insert refund: %w" [])
        (statement (insert_refund (refund_row refund_id order_id order.asset amount reason pay)))
    wrap (wrapped "merchant: mark order refunded: %w" []) (exec (mark_refunded order_id))
    pure (record {
      id = refund_id;
      order_id = order_id;
      amount = hex amount;
      asset = order.asset;
      reason = reason;
      status = codes "sent";
      fiber_payment_hash = pay.payment_hash;
    })

  -- from SendPayment on
  unfoldable pub pay_back : (Db → Db) → Text → Text → Order → Amount → Text → Action Refund
  pay_back others order_id reason order amount payer = do
    pay ←
        wrap (wrapped "merchant: send refund: %w" [])
          (send_payment others (record { target_pubkey = payer; amount = amount; keysend = true }))
    record_refund order_id reason order amount pay

  -- what follows the look for the order
  unfoldable pub refund_paid : (Db → Db) → Text → Text → Text → Order → Action Refund
  refund_paid others order_id amount_hex reason order = do
    check_paid order.status
    amount ← lift (or_wrap bad_amount (parse_amount amount_hex))
    payer ← payer_pubkey order.invoice_payment_hash
    pay_back others order_id reason order amount payer

  -- Refund
  unfoldable pub refund : (Db → Db) → Text → Text → Text → Text → Action Refund
  unfolding get_order refund_paid
  refund others merchant_id order_id amount_hex reason = do
    order ← get_order lib pgx rfc3339 merchant_id order_id
    refund_paid others order_id amount_hex reason order
