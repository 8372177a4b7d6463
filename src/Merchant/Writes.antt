-- ===== src/Merchant/Writes.antt =====
-- What the merchant backend writes: a predicate of the database that its statements keep, and that
-- other processes keep, is kept by its operations, whatever fails.
pub mod Accounts
use padma.Base.{◌≡◌, refl, inl, inr, Bool, true, false, Option, List, Text, is_empty, if◌then◌else◌}
use padma.Errors.{Error, Result, ok, err, wrapped, or_wrap, is, not_found}
use padma.Database.{
  Db, World, Action, Amount, Invoice, Payment, NewInvoiceParams, SendPaymentParams,
}
use padma.Database.Rows.{Time, OrderRow, OrderStatus, RefundRow, SettlementRecord, RunRow}
use padma.Database.Cases.{statement_cases}
use padma.Database.Preserves.{
  Preserves, preserves_rules, either-Preserves, Preserves-pure, Preserves-raise,
}
use padma.Platform.Fibertypes.{Fibertypes}
use padma.Platform.Columns.{Pgx}
use padma.Merchant.Node.{new_invoice, send_payment}
use padma.Merchant.Orders.{
  Order, scan_order, get_order, order_by_external_id, finish, winner, place, mint, reuse,
  create_order, insert_order, asset_or_ckb,
}
use padma.Merchant.Orders.Repeat.{scan_order_cases}
use padma.Merchant.Refunds.{
  Refund, payer_pubkey, record_refund, pay_back, refund_paid, check_paid, insert_refund,
  mark_refunded,
}
use padma.Merchant.Refunds.Outcome.{payer_cases}
use padma.Merchant.Settlement.{SettlementRow, settlement, persist}
use padma.Merchant.Reconcile.{reconciliation}

module _ {κ} (P : Db → Type κ) where
  module _ (others : Db → Db) (others_keep : (db : Db) → P db → P (others db)) where
    new_invoice-Preserves : (p : NewInvoiceParams) → Preserves P (new_invoice others p)
    unfolding new_invoice
    new_invoice-Preserves p = record { at = λ w h. others_keep w.db h }

    send_payment-Preserves : (p : SendPaymentParams) → Preserves P (send_payment others p)
    unfolding send_payment
    send_payment-Preserves p = record { at = λ w h. others_keep w.db h }

  payer_pubkey-Preserves : (hash : Text) → Preserves P (payer_pubkey hash)
  payer_pubkey-Preserves hash = record { at = looked }
    where
      looked : (w : World) → P w.db → P (payer_pubkey hash w).1.db
      looked w h =
          let (rest, pays) = payer_cases hash w in
          elim pays [ inl (payer, peer, full, e) ↦ rw e h | inr (x, e) ↦ rw e h ]

  check_paid-Preserves : (s : OrderStatus) → Preserves P (check_paid s)
  check_paid-Preserves OrderStatus.paid = Preserves-pure P tt
  check_paid-Preserves OrderStatus.pending = Preserves-raise P _
  check_paid-Preserves OrderStatus.expired = Preserves-raise P _
  check_paid-Preserves OrderStatus.refunded = Preserves-raise P _

  module _ (lib : Fibertypes) (pgx : Pgx) (rfc3339 : Time → Text) where
    scan_order-Preserves :
        (row : Db → Option OrderRow) → Preserves P (scan_order lib pgx rfc3339 row)
    scan_order-Preserves row = record { at = looked }
      where
        looked : (w : World) → P w.db → P (scan_order lib pgx rfc3339 row w).1.db
        looked w h =
            let (rest, looks) = scan_order_cases lib pgx rfc3339 row w in
            elim looks [ inl e ↦ rw e h | inr (m, e) ↦ rw e h ]

    pub get_order-Preserves :
        (merchant_id order_id : Text) → Preserves P (get_order lib pgx rfc3339 merchant_id order_id)
    unfolding get_order
    get_order-Preserves merchant_id order_id = scan_order-Preserves _

    order_by_external_id-Preserves :
        (merchant_id ext_id : Text)
        → Preserves P (order_by_external_id lib pgx rfc3339 merchant_id ext_id)
    unfolding order_by_external_id
    order_by_external_id-Preserves merchant_id ext_id = scan_order-Preserves _

    finish-Preserves :
        (merchant_id order_id : Text) (inv : Invoice)
        → Preserves P (finish lib pgx rfc3339 merchant_id order_id inv)
    unfolding finish
    finish-Preserves merchant_id order_id inv = search (preserves_rules, get_order-Preserves)

    winner-Preserves :
        (merchant_id order_id : Text) (inv : Invoice) (r : Result Order)
        → Preserves P (winner lib pgx rfc3339 merchant_id order_id inv r)
    winner-Preserves merchant_id order_id inv (ok existing) = search preserves_rules
    winner-Preserves merchant_id order_id inv (err e) = finish-Preserves merchant_id order_id inv

    module _ (others : Db → Db) (others_keep : (db : Db) → P db → P (others db)) where
      module _ (inserts_keep : (o : OrderRow) (db : Db) → P db → P (insert_order o db).1) where
        place-Preserves :
            (merchant_id ext_id : Text) (amount : Amount) (asset : Text) (inv : Invoice)
            → Preserves P (place lib pgx rfc3339 merchant_id ext_id amount asset inv)
        unfolding place
        place-Preserves merchant_id ext_id amount asset inv =
            search
              (
                preserves_rules, either-Preserves, finish-Preserves, winner-Preserves,
                order_by_external_id-Preserves, inserts_keep,
              )
              depth 12 fits 2000

        mint-Preserves :
            (merchant_id ext_id : Text) (amount : Amount) (asset : Text)
            → Preserves P (mint lib pgx rfc3339 others merchant_id ext_id amount asset)
        unfolding mint
        mint-Preserves merchant_id ext_id amount asset =
            search (preserves_rules, new_invoice-Preserves, place-Preserves, others_keep) depth 12
              fits 2000

        reuse-Preserves :
            (merchant_id ext_id : Text) (amount : Amount) (asset : Text) (r : Result Order)
            → Preserves P (reuse lib pgx rfc3339 others merchant_id ext_id amount asset r)
        reuse-Preserves merchant_id ext_id amount asset (ok existing) = search preserves_rules
        reuse-Preserves merchant_id ext_id amount asset (err e) =
            search (preserves_rules, either-Preserves, mint-Preserves)

        pub create_order-Preserves :
            (merchant_id ext_id amount_hex asset : Text)
            → Preserves P (create_order lib pgx rfc3339 others merchant_id ext_id amount_hex asset)
        unfolding create_order
        create_order-Preserves merchant_id ext_id amount_hex asset =
            search
              (
                preserves_rules, either-Preserves, mint-Preserves, reuse-Preserves,
                order_by_external_id-Preserves,
              )
              depth 12 fits 2000

      module _ (order_id : Text)
          (refunds_keep : (r : RefundRow) (db : Db) → P db → P (insert_refund r db).1)
          (marks_keep : (db : Db) → P db → P (mark_refunded order_id db)) where
        record_refund-Preserves :
            (reason : Text) (order : Order) (amount : Amount) (pay : Payment)
            → Preserves P (record_refund lib pgx rfc3339 order_id reason order amount pay)
        unfolding record_refund
        record_refund-Preserves reason order amount pay =
            search (preserves_rules, refunds_keep, marks_keep) depth 12 fits 2000

        pay_back-Preserves :
            (reason : Text) (order : Order) (amount : Amount) (payer : Text)
            → Preserves P (pay_back lib pgx rfc3339 others order_id reason order amount payer)
        unfolding pay_back
        pay_back-Preserves reason order amount payer =
            search (preserves_rules, send_payment-Preserves, others_keep, record_refund-Preserves)
              depth 12 fits 2000

        -- what follows the look for the order
        pub refund_paid-Preserves :
            (amount_hex reason : Text) (order : Order)
            → Preserves P (refund_paid lib pgx rfc3339 others order_id amount_hex reason order)
        unfolding refund_paid
        refund_paid-Preserves amount_hex reason order =
            search
              (preserves_rules, check_paid-Preserves, payer_pubkey-Preserves, pay_back-Preserves)
              depth 12 fits 2000
