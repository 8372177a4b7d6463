-- ===== src/Lifecycle/Refunds.antt =====
-- Refund: it marks an order that it has seen paid, whatever happened to the order since.
use padma.Base.{
  ◌≡◌, ◌≢◌, refl, sym, ap, ◌∙◌, ◌⊎◌, inl, inr, subst, true, Option, none, some, List, Text, ==_iff,
  first, find_of_first, arith,
}
use padma.Database.{Db, World, Action, continue, raise, ◌>>=◌, ◌>>◌}
use padma.Database.Rows.{OrderRow, OrderStatus, paid, pending, expired, refunded}
use padma.Merchant.Orders.{Order, get_order, has_id, order_of}
use padma.Merchant.Orders.Repeat.{scan_order_cases, looked_up}
use padma.Merchant.Refunds.{Refund, refund, refund_paid, check_paid}
use padma.Merchant.Writes.{refund_paid-Preserves}
use padma.Merchant.Handlers.{Outside}
use padma.Lifecycle.{order_key, Grows, Lives}
use padma.Lifecycle.Writes.{insert_refund-Lives, mark_refunded-Lives}

paid_cases : (s : OrderStatus) → (s ≡ paid) ⊎ (s ≢ paid)
paid_cases pending = inr (cc)
paid_cases paid = inl refl
paid_cases expired = inr (cc)
paid_cases refunded = inr (cc)

-- an order that is not paid is not refunded
unpaid_stays :
    (s : OrderStatus) (rest : Action Refund) (w : World)
    → s ≢ paid
    → ((check_paid s >> rest) w).1.db ≡ w.db
unfolding ◌>>=◌ raise
unpaid_stays pending rest w h = refl
unpaid_stays paid rest w h = absurd (h refl)
unpaid_stays expired rest w h = refl
unpaid_stays refunded rest w h = refl

module _ (k : Text) (x : OrderRow) where
  -- that it holds of a database
  abbrev pub LivesIn : Db → Type 0
  LivesIn db = Lives k x db.merchant_orders

  named :
      (merchant_id order_id : Text)
      → order_id ≡ k
      → (y : OrderRow) → has_id order_id merchant_id y ≡ true
      → y.id ≡ k
  unfolding has_id
  named merchant_id order_id same y h = (==_iff y.id order_id).0 (ground arith) ∙ same

  module _ (o : Outside) (others_keep : (db : Db) → LivesIn db → LivesIn (o.others db)) where
    -- the status that the refund has read is one that the order may have
    abbrev Seen : Text → Order → Type 0
    Seen order_id order = order_id ≡ k → Grows x.status order.status

    refund_paid-Lives :
        (order_id amount_hex reason : Text) (order : Order) (w : World)
        → Seen order_id order
        → LivesIn w.db
        → LivesIn
            (refund_paid o.lib o.pgx o.rfc3339 o.others order_id amount_hex reason order w).1.db
    unfolding refund_paid
    refund_paid-Lives order_id amount_hex reason order w seen h = elim (paid_cases order.status) [
      | inl is_paid ↦
          (refund_paid-Preserves LivesIn o.lib o.pgx o.rfc3339 o.others others_keep order_id
              (λ r db. insert_refund-Lives k x r db)
              (mark_refunded-Lives k x order_id
                (λ same. subst (Grows x.status) is_paid (seen same)))
              amount_hex reason order).at
            w h
      | inr other ↦
          subst (Lives k x)
            (ap (λ (db : Db). db.merchant_orders) (sym (unpaid_stays order.status _ w other))) h
    ]

    pub refund-Lives :
        (merchant_id order_id amount_hex reason : Text) (w : World)
        → LivesIn w.db
        → LivesIn
            (refund o.lib o.pgx o.rfc3339 o.others merchant_id order_id amount_hex reason w).1.db
    unfolding refund get_order ◌>>=◌
    refund-Lives merchant_id order_id amount_hex reason w h =
        let (rest, looks) =
          scan_order_cases o.lib o.pgx o.rfc3339
            (λ db. first (has_id order_id merchant_id) db.merchant_orders) w in
        elim looks [
          | inl e ↦
              rw e (found rest (first (has_id order_id merchant_id) w.db.merchant_orders) refl)
          | inr (m, e) ↦ rw e h
        ]
      where
        seen :
            (r : OrderRow)
            → first (has_id order_id merchant_id) w.db.merchant_orders ≡ some r
            → Seen order_id (order_of o.lib o.pgx o.rfc3339 r)
        seen r e same =
            let (unique, (y, there, grown)) = h in
            let it =
              find_of_first order_key (has_id order_id merchant_id) k r
                (named merchant_id order_id same) w.db.merchant_orders unique e in
            let same_row : y ≡ r = cc (it, there) in
            subst (λ (z : OrderRow). Grows x.status z.status) same_row grown.1

        found :
            (rest : List (Option Text)) (row : Option OrderRow)
            → first (has_id order_id merchant_id) w.db.merchant_orders ≡ row
            → LivesIn
                (continue
                  (looked_up o.lib o.pgx o.rfc3339 row, record w { faults = rest })
                  (refund_paid o.lib o.pgx o.rfc3339 o.others order_id amount_hex reason)).1.db
        found rest none e = h
        found rest (some r) e =
            refund_paid-Lives order_id amount_hex reason (order_of o.lib o.pgx o.rfc3339 r)
              (record w { faults = rest }) (seen r e) h
