-- ===== src/Merchant/Refunds/Unrecorded.antt =====
-- A refund that failed after its payment, and the same refund once more.
use padma.Base.{
  ◌≡◌, ◌≢◌, refl, sym, ap, ◌∙◌, inl, inr, false, Option, none, some, [], ◌∷◌, ◌++◌, Text, is_empty,
  first, find,
}
use padma.Errors.{Error, Result, ok, err}
use padma.Database.{
  Db, World, Action, Amount, Payment, continue, rewrap, pure, lift, statement, attempt, exec, wrap,
  query_row, new_id, ◌>>=◌,
}
use padma.Database.Cases.{statement_cases}
use padma.Database.Rows.{Time, OrderRow, OrderStatus, PaymentRow, RefundRow}
use padma.Platform.Fibertypes.{Fibertypes}
use padma.Platform.Columns.{Pgx}
use padma.Merchant.Node.{send_payment}
use padma.Merchant.Orders.{Order, get_order, scan_order, has_id, order_of, or_empty}
use padma.Merchant.Refunds.{
  Refund, refund, refund_paid, pay_back, record_refund, payer_pubkey, payer_or_error, peer_of,
  stored_peer, stores_refund, insert_refund, mark_refunded,
}
use padma.Merchant.Refunds.Outcome.{refunding, refund_cases, payment_to, pay_back_calls}

-- the orders and the payments are the same
abbrev Same : Db → Db → Type 0
Same db d = (d.merchant_orders ≡ db.merchant_orders) × (d.payments ≡ db.payments)

-- the payments are the same, and the orders too where there is an error
abbrev Unmarked : Db → Result Refund × World → Type 0
Unmarked db r =
    (r.1.db.payments ≡ db.payments)
    × ((e : Error) → r.0 ≡ err e → r.1.db.merchant_orders ≡ db.merchant_orders)

Unmarked-Same : (db d : Db) (r : Result Refund × World) → Same db d → Unmarked d r → Unmarked db r
Unmarked-Same db d r same marks = (marks.0 ∙ same.1, λ e failed. marks.1 e failed ∙ same.0)

module _ {A : Type 0} (db : Db) (k : A → Action Refund)
    (rest : (a : A) (v : World) → Unmarked v.db (k a v)) where
  continue-Unmarked : (r : Result A × World) → Same db r.1.db → Unmarked db (continue r k)
  continue-Unmarked (ok a, v) same = Unmarked-Same db v.db (k a v) same (rest a v)
  continue-Unmarked (err e, v) same = (same.1, λ x failed. same.0)

  bind-Unmarked : (m : Action A) (w : World) → Same db (m w).1.db → Unmarked db ((m >>= k) w)
  unfolding ◌>>=◌
  bind-Unmarked m w same = continue-Unmarked (m w) same

wrap_world : {A : Type 0} (f : Error → Error) (m : Action A) (w : World) → (wrap f m w).1 ≡ (m w).1
unfolding wrap
wrap_world f m w = rewrapped f (m w)
  where
    rewrapped : {A : Type 0} (f : Error → Error) (r : Result A × World) → (rewrap f r).1 ≡ r.1
    rewrapped f (ok a, v) = refl
    rewrapped f (err e, v) = refl

Same-wrap :
    {A : Type 0} (db : Db) (f : Error → Error) (m : Action A) (w : World)
    → Same db (m w).1.db
    → Same db (wrap f m w).1.db
Same-wrap db f m w same =
    let world = wrap_world f m w in
    (
      ap (λ (v : World). v.db.merchant_orders) world ∙ same.0,
      ap (λ (v : World). v.db.payments) world ∙ same.1,
    )

stored-Same :
    (taken : Option RefundRow) (order : Option OrderRow) (r : RefundRow) (db : Db)
    → Same db (stores_refund taken order r db).1
stored-Same (some x) order r db = (refl, refl)
stored-Same none none r db = (refl, refl)
stored-Same none (some o) r db = (refl, refl)

insert-Same : (r : RefundRow) (w : World) → Same w.db (statement (insert_refund r) w).1.db
insert-Same r w =
    let (rest, fared) = statement_cases (insert_refund r) w in
    elim fared [ inl e ↦ rw e (stored-Same _ _ r w.db) | inr (m, e) ↦ rw e (refl, refl) ]

module _ (lib : Fibertypes) (pgx : Pgx) (rfc3339 : Time → Text) where
  module _ (order_id reason : Text) (order : Order) (amount : Amount) where
    mark-Unmarked :
        (f : Error → Error) (x : Refund) (w : World)
        → Unmarked w.db ((wrap f (exec (mark_refunded order_id)) >>= λ u. pure x) w)
    unfolding ◌>>=◌ wrap exec pure
    mark-Unmarked f x w =
        let (rest, fared) = statement_cases (λ db. (ok tt, mark_refunded order_id db)) w in
        elim fared [
          | inl e ↦ rw e (refl, λ e failed. absurd (cc))
          | inr (m, e) ↦ rw e (refl, λ e failed. refl)
        ]

    record_refund-Unmarked :
        (pay : Payment) (w : World)
        → Unmarked w.db (record_refund lib pgx rfc3339 order_id reason order amount pay w)
    unfolding record_refund new_id
    record_refund-Unmarked pay w =
        bind-Unmarked w.db _
          (λ id v.
            bind-Unmarked v.db _ (λ u v'. mark-Unmarked _ _ v') _ v
              (Same-wrap v.db _ (statement (insert_refund _)) v (insert-Same _ v)))
          new_id w (refl, refl)

    pay_back-Unmarked :
        (others : Db → Db) (payer : Text) (w : World)
        → Same w.db (others w.db)
        → Unmarked w.db (pay_back lib pgx rfc3339 others order_id reason order amount payer w)
    unfolding pay_back send_payment
    pay_back-Unmarked others payer w same =
        bind-Unmarked w.db _ record_refund-Unmarked _ w (Same-wrap w.db _ _ w same)

full_payer :
    (payer : Text) (v : World)
    → is_empty payer ≡ false
    → payer_or_error (ok (some payer), v) ≡ (ok payer, v)
full_payer [] v full = absurd (cc)
full_payer (c ∷ payer) v full = refl

-- without faults the payer is found
payer_healthy :
    (payment_hash payer : Text) (v : World)
    → v.faults ≡ []
    → peer_of payment_hash v.db ≡ some (some payer)
    → is_empty payer ≡ false
    → payer_pubkey payment_hash v ≡ (ok payer, record v { faults = [] })
unfolding payer_pubkey query_row statement attempt
payer_healthy payment_hash payer v healthy peer full =
    rw (healthy, peer) (full_payer payer (record v { faults = [] }) full)

module _ (lib : Fibertypes) (pgx : Pgx) (rfc3339 : Time → Text) where
  order_healthy :
      (merchant_id order_id : Text) (v : World) (row : OrderRow)
      → v.faults ≡ []
      → first (has_id order_id merchant_id) v.db.merchant_orders ≡ some row
      → get_order lib pgx rfc3339 merchant_id order_id v
        ≡ (ok (order_of lib pgx rfc3339 row), record v { faults = [] })
  unfolding get_order scan_order query_row statement attempt
  order_healthy merchant_id order_id v row healthy there = rw (healthy, there) refl

  module _ (others : Db → Db) (merchant_id order_id hex reason : Text) where
    -- without faults the refund of a paid order pays
    healthy_pays :
        (v : World) (row : OrderRow) (amount : Amount) (payer : Text)
        → v.faults ≡ []
        → first (has_id order_id merchant_id) v.db.merchant_orders ≡ some row
        → row.status ≡ OrderStatus.paid
        → lib.parse_amount hex ≡ ok amount
        → peer_of (or_empty row.invoice_payment_hash) v.db ≡ some (some payer)
        → is_empty payer ≡ false
        → (refunding lib pgx rfc3339 others merchant_id order_id hex reason v).1.calls
          ≡ v.calls ++ payment_to payer amount ∷ []
    unfolding refund refund_paid ◌>>=◌ lift pure order_of pay_back record_refund
    healthy_pays v row amount payer healthy there paid parsed peer full =
        let v' = record v { faults = [] } in
        let found = order_healthy merchant_id order_id v row healthy there in
        let pays = payer_healthy (or_empty row.invoice_payment_hash) payer v' refl peer full in
        rw (found, paid, parsed, pays)
          (pay_back_calls lib pgx rfc3339 others order_id hex reason (order_of lib pgx rfc3339 row)
            amount payer v')

  module _ (merchant_id order_id hex reason : Text) where
    -- Money can go out twice: where a refund reports an error although the node was called, and other
    -- processes left the orders and the payments alone meanwhile, the same refund, on the database that
    -- it left and without faults, sends the same payment again, whatever failed and whatever other
    -- processes do during the second call.
    pub refund_resends :
        (others others' : Db → Db) (e : Error) (w w' v : World)
        → refunding lib pgx rfc3339 others merchant_id order_id hex reason w ≡ (err e, w')
        → w'.calls ≢ w.calls
        → (others w.db).merchant_orders ≡ w.db.merchant_orders
        → (others w.db).payments ≡ w.db.payments
        → v.db ≡ w'.db
        → v.faults ≡ []
        → (payer : Text) × (amount : Amount) × (w'.calls ≡ w.calls ++ payment_to payer amount ∷ [])
          × ((refunding lib pgx rfc3339 others' merchant_id order_id hex reason v).1.calls
              ≡ v.calls ++ payment_to payer amount ∷ [])
    refund_resends others others' e w w' v failed called orders payments same healthy =
        elim (refund_cases lib pgx rfc3339 others merchant_id order_id hex reason w) [
          | inl (_, _, calls) ↦
              absurd (called (sym (ap (λ (r : Result Refund × World). r.1.calls) failed) ∙ calls))
          | inr (row, amount, payer, there, paid, parsed, peer, full, (rest, reached)) ↦
              let order = order_of lib pgx rfc3339 row in
              let begun = record w { faults = rest } in
              let ended = sym reached ∙ failed in
              let marks =
                pay_back-Unmarked lib pgx rfc3339 order_id reason order amount others payer begun
                  (orders, payments) in
              let kept =
                sym (ap (λ (r : Result Refund × World). r.1.db.merchant_orders) ended)
                ∙ marks.1 e (ap (λ (r : Result Refund × World). r.0) ended) in
              let kept' =
                sym (ap (λ (r : Result Refund × World). r.1.db.payments) ended) ∙ marks.0 in
              let orders' = ap (λ (d : Db). d.merchant_orders) same ∙ kept in
              let payments' = ap (λ (d : Db). d.payments) same ∙ kept' in
              (
                payer,
                amount,
                sym (ap (λ (r : Result Refund × World). r.1.calls) ended)
                    ∙ pay_back_calls lib pgx rfc3339 others order_id hex reason order amount payer
                        begun,
                healthy_pays others' merchant_id order_id hex reason v row amount payer healthy
                    (ap (first (has_id order_id merchant_id)) orders' ∙ there) paid parsed
                    (ap
                        (λ ps. stored_peer (
                          find (λ (p : PaymentRow). p.payment_hash)
                            (or_empty row.invoice_payment_hash) ps))
                        payments'
                      ∙ peer)
                    full,
              )
        ]
