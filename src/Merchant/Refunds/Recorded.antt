-- ===== src/Merchant/Refunds/Recorded.antt =====
-- What a refund that returned has recorded, and another refund of its order.
use padma.Base.{
  ℕ, ◌*◌, ◌≡◌, refl, sym, ap, ap₂, ◌∙◌, inl, inr, Option, none, some, List, [], ◌∷◌, ◌++◌, Text,
  length, codes, first, map, arith, ◌==◌, update_where, if◌then◌else◌,
}
use padma.Errors.{Result, ok, ok_injective}
use padma.Database.{Db, World, Amount, Payment, pure, new_id}
use padma.Database.Rows.{Time, OrderRow, OrderStatus, RefundRow}
use padma.Database.Returns.{bind-Passed, wrap_returned, statement_returned, exec_returned}
use padma.Merchant.Orders.{Order, has_id, order_of, same_order, or_empty}
use padma.Platform.Fibertypes.{Fibertypes}
use padma.Platform.Numeric.{amount_to_numeric}
use padma.Platform.Columns.{Pgx}
use padma.Merchant.Node.{send_payment}
use padma.Merchant.Refunds.{
  Refund, pay_back, record_refund, stores_refund, mark_refunded, refund_row, refund_order,
}
use padma.Merchant.Refunds.Outcome.{Refused, refunding, refund_cases, refund_sends}

abbrev add_refund : RefundRow → Db → Db
add_refund r db = record db { refunds = db.refunds ++ r ∷ [] }

stored_refund :
    (taken : Option RefundRow) (order : Option OrderRow) (r : RefundRow) (db d : Db) (u : Unit {0})
    → stores_refund taken order r db ≡ (ok u, d)
    → d ≡ add_refund r db
stored_refund (some x) order r db d u h = absurd (cc)
stored_refund none none r db d u h = absurd (cc)
stored_refund none (some o) r db d u h = sym (ap (λ (p : Result (Unit {0}) × Db). p.1) h)

-- the order of the id is refunded, and is otherwise as it was
abbrev pub refunded : Text → OrderRow → OrderRow
refunded order_id o = if o.id == order_id then record o { status = OrderStatus.refunded } else o

-- the refund has a row, and the orders of its id are refunded
abbrev pub with_refund : RefundRow → Db → Db
with_refund r db = record db {
  refunds = db.refunds ++ r ∷ [];
  merchant_orders = map (refunded r.order_id) db.merchant_orders;
}

update_where-refunded :
    (order_id : Text) (os : List OrderRow)
    → update_where (same_order order_id) refund_order os ≡ map (refunded order_id) os
unfolding update_where
update_where-refunded order_id [] = refl
update_where-refunded order_id (o ∷ os) =
    ap (◌∷◌ (refunded order_id o)) (update_where-refunded order_id os)

times_one : (n : ℕ) → n * 1 ≡ n
times_one n = omega arith

-- the row of a refund that answers with `f`
abbrev pub row_of : Amount → Refund → RefundRow
row_of amount f = record {
  id = f.id;
  order_id = f.order_id;
  amount = some amount.big_int;
  asset = some f.asset;
  reason = f.reason;
  status = f.status;
  fiber_payment_hash = f.fiber_payment_hash;
}

module _ (lib : Fibertypes) (pgx : Pgx) (rfc3339 : Time → Text) where
  -- the answer to a refund
  abbrev pub answer : Text → Text → Text → Amount → Payment → Text → Refund
  answer order_id reason asset amount pay id = record {
    id = id;
    order_id = order_id;
    amount = lib.hex amount;
    asset = asset;
    reason = reason;
    status = codes "sent";
    fiber_payment_hash = pay.payment_hash;
  }

  module _ (order_id reason : Text) (order : Order) (amount : Amount) (f : Refund)
      (w' : World) where
    -- what a refund that returned has answered, and what it made of the database `db`
    abbrev Stores : Payment → Db → Type 0
    Stores pay db =
        (f ≡ answer order_id reason order.asset amount pay f.id)
        × (w'.db ≡ with_refund (row_of amount f) db)

    recorded_row :
        (id : Text) (pay : Payment) (db : Db)
        → answer order_id reason order.asset amount pay id ≡ f
        → mark_refunded order_id
            (add_refund (refund_row id order_id order.asset amount reason pay) db)
          ≡ with_refund (row_of amount f) db
    unfolding amount_to_numeric
    recorded_row id pay db same =
        ap₂
          (λ (os : List OrderRow) (n : ℕ). record db {
            merchant_orders = os;
            refunds =
                db.refunds
                ++ record (row_of amount (answer order_id reason order.asset amount pay id)) {
                  amount = some n;
                }
                  ∷ [];
          })
          (update_where-refunded order_id db.merchant_orders) (times_one amount.big_int)
        ∙ ap (λ (x : Refund). with_refund (row_of amount x) db) same

    record_refund-Stores :
        (pay : Payment) (w : World)
        → record_refund lib pgx rfc3339 order_id reason order amount pay w ≡ (ok f, w')
        → Stores pay w.db
    unfolding record_refund new_id pure
    record_refund-Stores pay w h =
        let (id, w₁, drawn, h₁) = bind-Passed _ f w' new_id w h in
        let (u, w₂, inserts, h₂) = bind-Passed _ f w' _ w₁ h₁ in
        let (u', w₃, marks, h₃) = bind-Passed _ f w' _ w₂ h₂ in
        let (stored, _) = statement_returned _ u w₁ w₂ (wrap_returned _ _ u w₁ w₂ inserts) in
        let marked =
          exec_returned (mark_refunded order_id) u' w₂ w₃ (wrap_returned _ _ u' w₂ w₃ marks) in
        let kept = stored_refund _ _ _ w₁.db w₂.db u stored in
        let same : answer order_id reason order.asset amount pay id ≡ f =
          ok_injective (ap (λ (p : Result Refund × World). p.0) h₃) in
        let last = ap (λ (p : Result Refund × World). p.1.db) h₃ in
        let begun = ap (λ (p : Result Text × World). p.1.db) drawn in
        (
          sym same ∙ ap (λ (x : Refund). answer order_id reason order.asset amount pay x.id) same,
          sym last
              ∙ marked
              ∙ ap (mark_refunded order_id) (
                  kept
                  ∙ ap (add_refund (refund_row id order_id order.asset amount reason pay))
                      (sym begun))
              ∙ recorded_row id pay w.db same,
        )

    pay_back-Stores :
        (others : Db → Db) (payer : Text) (w : World)
        → pay_back lib pgx rfc3339 others order_id reason order amount payer w ≡ (ok f, w')
        → (pay : Payment) × (w.payment_reply (length w.calls) ≡ ok pay) × Stores pay (others w.db)
    unfolding pay_back send_payment
    pay_back-Stores others payer w h =
        let (pay, v, sends, h₁) = bind-Passed _ f w' _ w h in
        let paid = wrap_returned _ _ pay w v sends in
        let (answers, stored) = record_refund-Stores pay v h₁ in
        (
          pay,
          ap (λ (p : Result Payment × World). p.0) paid,
          (
            answers,
            stored
                ∙ ap (with_refund (row_of amount f))
                    (sym (ap (λ (p : Result Payment × World). p.1.db) paid)),
          ),
        )

  module _ (others : Db → Db) (merchant_id order_id amount_hex reason : Text) where
    -- The answer has the amount that was asked for, the asset of the merchant's order and the hash of
    -- the node's payment. Its row is added to what other processes left, in which the orders of the
    -- id, and no others, become refunded.
    abbrev pub Recorded : World → World → Refund → Type 0
    Recorded w w' f =
        (row : OrderRow) × (amount : Amount) × (pay : Payment) × (first
            (has_id order_id merchant_id) w.db.merchant_orders
          ≡ some row)
        × (lib.parse_amount amount_hex ≡ ok amount)
        × (w.payment_reply (length w.calls) ≡ ok pay)
        × (f ≡ answer order_id reason (or_empty row.asset) amount pay f.id)
        × (w'.db ≡ with_refund (row_of amount f) (others w.db))

    -- A refund that returned is recorded: it has a row with the id, order, amount, asset, reason,
    -- status and payment hash of its answer, behind the refunds that other processes left meanwhile;
    -- the orders of its id are refunded, and nothing else is changed. The amount is the one that was
    -- asked for, the asset the order's, and the payment hash is from the answer of the node.
    pub refund-Recorded :
        (f : Refund) (w w' : World)
        → refunding lib pgx rfc3339 others merchant_id order_id amount_hex reason w ≡ (ok f, w')
        → Recorded w w' f
    refund-Recorded f w w' h =
        elim (refund_cases lib pgx rfc3339 others merchant_id order_id amount_hex reason w) [
          | inl ((e, failed), _, _) ↦
              absurd (cc (failed, ap (λ (r : Result Refund × World). r.0) h))
          | inr (row, amount, payer, there, paid, parsed, peer, full, (rest, reached)) ↦
              let (pay, replied, (answers, stored)) =
                pay_back-Stores order_id reason (order_of lib pgx rfc3339 row) amount f w' others
                  payer (record w { faults = rest }) (sym reached ∙ h) in
              (row, amount, pay, there, parsed, replied, (unfold order_of in answers), stored)
        ]

refunded_row :
    (order_id merchant_id : Text) (os : List OrderRow) (row : OrderRow)
    → first (has_id order_id merchant_id) (map (refunded order_id) os) ≡ some row
    → row.status ≡ OrderStatus.refunded
unfolding first has_id
refunded_row order_id merchant_id [] row h = cc
refunded_row order_id merchant_id (o ∷ os) row h =
    ground (arith, refunded_row order_id merchant_id os row)

module _ (lib : Fibertypes) (pgx : Pgx) (rfc3339 : Time → Text) where
  -- An order that was refunded is not refunded again: on the database that a refund left, any other
  -- refund of the order is refused without a call.
  pub refund_once :
      (others others' : Db → Db) (merchant_id order_id hex hex' reason reason' : Text) (f : Refund)
      (w w' v : World)
      → refunding lib pgx rfc3339 others merchant_id order_id hex reason w ≡ (ok f, w')
      → v.db ≡ w'.db
      → Refused v (refunding lib pgx rfc3339 others' merchant_id order_id hex' reason' v)
  refund_once others others' merchant_id order_id hex hex' reason reason' f w w' v h same =
      let (_, amount, pay, _, _, _, answers, stored) =
        refund-Recorded lib pgx rfc3339 others merchant_id order_id hex reason f w w' h in
      let of_order = ap (λ (x : Refund). x.order_id) answers in
      elim (refund_sends lib pgx rfc3339 others' merchant_id order_id hex' reason' v) [
        | inl refused ↦ refused
        | inr (row, _, there, paid, _, _) ↦ absurd (
            cc (
              paid,
              refunded_row order_id merchant_id (others w.db).merchant_orders row (
                  ap
                    (λ (i : Text).
                      first (has_id order_id merchant_id)
                        (map (refunded i) (others w.db).merchant_orders))
                    (sym of_order)
                  ∙ ap (λ (d : Db). first (has_id order_id merchant_id) d.merchant_orders)
                      (sym (same ∙ stored))
                  ∙ there),
            ))
      ]
