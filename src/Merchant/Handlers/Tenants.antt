-- ===== src/Merchant/Handlers/Tenants.antt =====
-- The orders of other merchants under the routes of one merchant.
use padma.Base.{
  ◌≡◌, ◌≢◌, refl, sym, ap, ◌∙◌, inl, inr, true, Option, none, some, List, Text, ◌==◌, ==_iff, first,
  find, IsUnique, find-append_found, key_of_find, find_of_first, first_passes, find-update_where,
  map_row, arith, Bool-cases, if◌then◌else◌,
}
use padma.Database.{Db, World, continue, ◌>>=◌}
use padma.Database.Rows.{OrderRow, RefundRow, MerchantRow}
use padma.Platform.Http.{Request}
use padma.Merchant.Orders.{get_order, insert_order, stores, same_order, has_id, order_of}
use padma.Merchant.Orders.Repeat.{scan_order_cases, looked_up}
use padma.Merchant.Refunds.{
  refund, refund_paid, insert_refund, stores_refund, same_refund, mark_refunded, refund_order,
}
use padma.Merchant.Writes.{refund_paid-Preserves}
use padma.Merchant.Handlers.{Outside, Route, handle, serve}
use padma.Merchant.Handlers.Guard.{key_owner, auth_cases}
use padma.Merchant.Handlers.Keeping.{handle_keeps}
use padma.Lifecycle.{order_key}

module _ (k : Text) (x : OrderRow) where
  -- the order is in the table
  abbrev pub Stays : Db → Type 0
  Stays db = find order_key k db.merchant_orders ≡ some x

  stores-Stays :
      (existing taken : Option OrderRow) (owner : Option MerchantRow) (o : OrderRow) (db : Db)
      → Stays db
      → Stays (stores existing taken owner o db).1
  stores-Stays (some e) taken owner o db h = h
  stores-Stays none (some e) owner o db h = h
  stores-Stays none none none o db h = h
  stores-Stays none none (some m) o db h = find-append_found order_key k x db.merchant_orders _ h

  insert_order-Stays : (o : OrderRow) (db : Db) → Stays db → Stays (insert_order o db).1
  insert_order-Stays o db h = stores-Stays _ _ _ o db h

  insert_refund-Stays : (r : RefundRow) (db : Db) → Stays db → Stays (insert_refund r db).1
  insert_refund-Stays r db h =
      stored (first (same_refund r.id) db.refunds)
        (first (same_order r.order_id) db.merchant_orders)
    where
      stored :
          (taken : Option RefundRow) (order : Option OrderRow)
          → Stays (stores_refund taken order r db).1
      stored (some e) order = h
      stored none none = h
      stored none (some o) = h

  mark_refunded-Stays :
      (order_id : Text) → order_id ≢ k → (db : Db) → Stays db → Stays (mark_refunded order_id db)
  mark_refunded-Stays order_id other db h =
      find-update_where order_key (same_order order_id) refund_order (λ y. refl) k
        db.merchant_orders
      ∙ ap (map_row (λ y. if same_order order_id y then refund_order y else y)) h
      ∙ ap some (kept (key_of_find order_key k x db.merchant_orders h))
    where
      kept : x.id ≡ k → (if same_order order_id x then refund_order x else x) ≡ x
      kept is_k = elim (Bool-cases (x.id == order_id)) [
        | inl e ↦ absurd (other (sym ((==_iff x.id order_id).0 e) ∙ is_k))
        | inr e ↦ rw e refl
      ]

  -- the order that a merchant's id and another id find is not this one
  has_id-ne :
      (merchant_id order_id : Text) (r : OrderRow) (os : List OrderRow)
      → x.merchant_id ≢ merchant_id
      → IsUnique order_key os
      → find order_key k os ≡ some x
      → first (has_id order_id merchant_id) os ≡ some r
      → order_id ≢ k
  unfolding has_id
  has_id-ne merchant_id order_id r os other unique there found same =
      let passes = first_passes (has_id order_id merchant_id) r os found in
      let names : (y : OrderRow) → has_id order_id merchant_id y ≡ true → y.id ≡ k =
        λ y e. (==_iff y.id order_id).0 (ground arith) ∙ same in
      let row = find_of_first order_key (has_id order_id merchant_id) k r names os unique found in
      let owner : r.merchant_id ≡ merchant_id =
        (==_iff r.merchant_id merchant_id).0 (ground arith) in
      absurd (other (cc (row, there, owner)))

  module _ (o : Outside) (others_keep : (db : Db) → Stays db → Stays (o.others db)) where
    refund-Stays :
        (merchant_id order_id amount_hex reason : Text) (w : World)
        → x.merchant_id ≢ merchant_id
        → IsUnique order_key w.db.merchant_orders
        → Stays w.db
        → Stays
            (refund o.lib o.pgx o.rfc3339 o.others merchant_id order_id amount_hex reason w).1.db
    unfolding refund get_order ◌>>=◌
    refund-Stays merchant_id order_id amount_hex reason w other unique h =
        let (rest, looks) =
          scan_order_cases o.lib o.pgx o.rfc3339
            (λ db. first (has_id order_id merchant_id) db.merchant_orders) w in
        elim looks [
          | inl e ↦
              rw e (found rest (first (has_id order_id merchant_id) w.db.merchant_orders) refl)
          | inr (m, e) ↦ rw e h
        ]
      where
        found :
            (rest : List (Option Text)) (row : Option OrderRow)
            → first (has_id order_id merchant_id) w.db.merchant_orders ≡ row
            → Stays
                (continue
                  (looked_up o.lib o.pgx o.rfc3339 row, record w { faults = rest })
                  (refund_paid o.lib o.pgx o.rfc3339 o.others order_id amount_hex reason)).1.db
        found rest none e = h
        found rest (some r) e =
            (refund_paid-Preserves Stays o.lib o.pgx o.rfc3339 o.others others_keep order_id
                insert_refund-Stays
                (mark_refunded-Stays order_id
                  (has_id-ne merchant_id order_id r w.db.merchant_orders other unique h e))
                amount_hex reason (order_of o.lib o.pgx o.rfc3339 r)).at
              (record w { faults = rest }) h

    -- No request with the key of one merchant touches an order of another: whatever the route, the
    -- request and the faults, the order is in the table as it was, where the ids of the orders are
    -- unique and other processes leave the order alone while the node answers.
    pub serve-Stays :
        (route : Route) (merchant_id : Text) (r : Request) (w : World)
        → key_owner o r w.db ≡ some merchant_id
        → x.merchant_id ≢ merchant_id
        → IsUnique order_key w.db.merchant_orders
        → Stays w.db
        → Stays (serve o route r w).1.db
    unfolding serve
    serve-Stays route merchant_id r w owner other unique h =
        elim (auth_cases o (λ m. handle o route m r) r w) [
          | inl (lacks, e) ↦ rw e h
          | inr (has, (rest, inl e)) ↦
              rw (e, owner)
                (handle_keeps Stays o others_keep insert_order-Stays (λ s db k. k) (λ s db k. k)
                  route merchant_id r (record w { faults = rest })
                  (λ order_id amount_hex reason.
                    refund-Stays merchant_id order_id amount_hex reason (record w { faults = rest })
                      other unique)
                  h)
          | inr (has, (rest, inr (m, e))) ↦ rw e h
        ]
