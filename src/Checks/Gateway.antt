-- ===== src/Checks/Gateway.antt =====
-- The merchant backend of internal/merchant on concrete orders.
use padma.Base.{
  ◌++◌, ℕ, ◌≡◌, refl, ◌⊎◌, true, false, none, some, [], ◌∷◌, Text, codes, first, find, update_where,
  ◌==◌, arith,
}
use padma.Base.Int.{pos}
use padma.Errors.{Error, Result, ok, err, wrapped, reported, is}
use padma.Database.{
  Amount, Db, World, Invoice, ◌>>=◌, lift, try, query_row, wrap, new_id, read_now, pure, exec,
}
use padma.Merchant.Node.{new_invoice, send_payment}
use padma.Database.Rows.{Time, OrderStatus, MerchantRow, PaymentRow}
use padma.Platform.Numeric.{Numeric, finite, amount_to_numeric, numeric_to_amount, whole}
use padma.Platform.Numeric.Exact.{Holds}
use padma.Platform.Columns.{Pgx, scan_numeric}
use padma.Platform.Hex.{read_hex, text_16}
use padma.Merchant.Orders.{Order, order_of, create_order, has_external, has_id, place}
use padma.Merchant.Orders.Repeat.{created, create_order_existing}
use padma.Merchant.Orders.Stored.{create_order_stored}
use padma.Merchant.Orders.Winner.{Stores}
use padma.Merchant.Refunds.{refund, Refund, payer_pubkey, pay_back, record_refund}
use padma.Merchant.Refunds.Outcome.{Refused, SentBack, refunding, refund_sends, payment_to}
use padma.Merchant.Refunds.Recorded.{refund_once, Recorded, refund-Recorded}
use padma.Merchant.Refunds.Unrecorded.{refund_resends}
use padma.Checks.Samples.{amount, order, database, world, lost_connection}
use padma.Checks.Amounts.{fibertypes}

abbrev plain : ℕ → Numeric
plain n = record { int = pos n; exp = pos 0; nan = false; infinity_modifier = finite; valid = true }

pub plain-Holds : (n : ℕ) → Holds (plain n) n
plain-Holds n = record { valid = refl; number = refl; finite = refl; denotes = omega arith }

abbrev pub pgx : Pgx
pgx = record { numeric = plain; numeric-Holds = plain-Holds }

abbrev pub rfc3339 : Time → Text
rfc3339 t = codes "2026-01-02T03:04:05Z"

abbrev merchant : MerchantRow
merchant = record { id = codes "m1"; name = codes "shop"; api_key_hash = []; settlement_asset = [] }

abbrev pub payment : PaymentRow
payment = record {
  payment_hash = codes "0x01";
  direction = codes "received";
  status = codes "succeeded";
  asset = none;
  amount = some 100;
  fee = none;
  peer = some (codes "0xaa");
  created_at = some 41;
  updated_at = some 41;
}

-- nobody else is at work
abbrev pub alone : Db → Db
alone db = db

abbrev pub shop : World
shop = record world { db = record database { merchants = merchant ∷ []; payments = payment ∷ [] } }

abbrev pub paid_shop : World
paid_shop = record shop {
  db = record shop.db { merchant_orders = record order { status = OrderStatus.paid } ∷ [] };
}

abbrev hundred : Text
hundred = codes "0x64"

hundred_test : fibertypes.parse_amount hundred ≡ ok (amount 100)
unfolding read_hex
hundred_test = refl

create_order_existing_example :
    (((i : Invoice) × ((created fibertypes pgx rfc3339 alone
            (codes "m1")
            (codes "x1")
            hundred
            []
            shop).0
          ≡ ok (order_of fibertypes pgx rfc3339 order, i)))
      ⊎ ((e : Error) × ((created fibertypes pgx rfc3339 alone
              (codes "m1")
              (codes "x1")
              hundred
              []
              shop).0
            ≡ err e)))
    × ((created fibertypes pgx rfc3339 alone (codes "m1") (codes "x1") hundred [] shop).1.db
        ≡ shop.db)
    × ((created fibertypes pgx rfc3339 alone (codes "m1") (codes "x1") hundred [] shop).1.calls
        ≡ [])
create_order_existing_example =
    create_order_existing fibertypes pgx rfc3339 alone (codes "m1") (codes "x1") hundred [] shop
      order (amount 100) refl hundred_test (unfold first has_external ◌==◌ in refl)

abbrev new_run : Result (Order × Invoice) × World
new_run = created fibertypes pgx rfc3339 alone (codes "m1") (codes "x2") hundred [] shop

abbrev made : Order
made = record {
  id = b'u' ∷ 0 ∷ [];
  merchant_id = codes "m1";
  external_order_id = codes "x2";
  invoice_payment_hash = codes "0x05";
  amount = hundred;
  asset = codes "CKB";
  status = OrderStatus.pending;
  created_at = codes "2026-01-02T03:04:05Z";
  paid_at = none;
}

abbrev made_invoice : Invoice
made_invoice = record { payment_hash = codes "0x05"; address = codes "fibt1" }

new_run_test : new_run ≡ (ok (made, made_invoice), new_run.1)
unfolding create_order ◌>>=◌ lift read_hex try query_row first has_external ◌==◌ is wrap new_invoice
    place new_id read_now pure scan_numeric amount_to_numeric text_16 numeric_to_amount whole
new_run_test = refl

create_order_stored_example : Stores fibertypes pgx rfc3339 (codes "m1") (codes "x2") new_run.1 made
create_order_stored_example =
    create_order_stored fibertypes pgx rfc3339 (codes "m1") (codes "x2") alone hundred [] refl
      made_invoice made shop new_run.1 (unfold first ◌==◌ in refl) new_run_test

abbrev refund_run : World → Result Refund × World
refund_run w =
    refunding fibertypes pgx rfc3339 alone (codes "m1") (codes "o1") hundred (codes "late") w

refund_sends_example :
    Refused paid_shop (refund_run paid_shop)
    ⊎ SentBack fibertypes pgx rfc3339 alone
        (codes "m1")
        (codes "o1")
        hundred
        (codes "late")
        paid_shop
        (refund_run paid_shop)
refund_sends_example =
    refund_sends fibertypes pgx rfc3339 alone (codes "m1") (codes "o1") hundred (codes "late")
      paid_shop

abbrev sent_back : Refund
sent_back = record {
  id = b'u' ∷ 0 ∷ [];
  order_id = codes "o1";
  amount = hundred;
  asset = codes "CKB";
  reason = codes "late";
  status = codes "sent";
  fiber_payment_hash = codes "0x06";
}

refund_run_test : refund_run paid_shop ≡ (ok sent_back, (refund_run paid_shop).1)
unfolding refund ◌>>=◌ query_row first has_id ◌==◌ pure lift read_hex payer_pubkey find pay_back
    wrap send_payment record_refund new_id exec text_16 scan_numeric amount_to_numeric
    numeric_to_amount whole update_where
refund_run_test = refl

refund-Recorded_example :
    Recorded fibertypes pgx rfc3339 alone
      (codes "m1")
      (codes "o1")
      hundred
      (codes "late")
      paid_shop
      (refund_run paid_shop).1
      sent_back
refund-Recorded_example =
    refund-Recorded fibertypes pgx rfc3339 alone (codes "m1") (codes "o1") hundred (codes "late")
      sent_back paid_shop (refund_run paid_shop).1 refund_run_test

refund_once_example : Refused (refund_run paid_shop).1 (refund_run (refund_run paid_shop).1)
refund_once_example =
    refund_once fibertypes pgx rfc3339 alone alone (codes "m1") (codes "o1") hundred hundred
      (codes "late") (codes "late") sent_back paid_shop (refund_run paid_shop).1
      (refund_run paid_shop).1 refund_run_test refl

abbrev losing : World
losing = record paid_shop { faults = none ∷ none ∷ some lost_connection ∷ [] }

abbrev losing_error : Error
losing_error = wrapped "merchant: insert refund: %w" [] (reported lost_connection)

losing_test : refund_run losing ≡ (err losing_error, (refund_run losing).1)
unfolding refund ◌>>=◌ query_row first has_id ◌==◌ pure lift read_hex payer_pubkey find pay_back
    wrap send_payment record_refund new_id
losing_test = refl

losing_calls :
    (refund_run losing).1.calls ≡ paid_shop.calls ++ payment_to (codes "0xaa") (amount 100) ∷ []
unfolding refund ◌>>=◌ query_row first has_id ◌==◌ pure lift read_hex payer_pubkey find pay_back
    wrap send_payment record_refund new_id
losing_calls = refl

refund_resends_example :
    (payer : Text) × (amount : Amount) × ((refund_run losing).1.calls
      ≡ losing.calls ++ payment_to payer amount ∷ [])
    × ((refund_run (record paid_shop { db = (refund_run losing).1.db })).1.calls
        ≡ paid_shop.calls ++ payment_to payer amount ∷ [])
refund_resends_example =
    refund_resends fibertypes pgx rfc3339 (codes "m1") (codes "o1") hundred (codes "late") alone
      alone losing_error losing (refund_run losing).1
      (record paid_shop { db = (refund_run losing).1.db }) losing_test
      (λ same. cc (losing_calls, same)) refl refl refl refl
