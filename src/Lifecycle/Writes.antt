-- ===== src/Lifecycle/Writes.antt =====
-- The statements that write merchant_orders, one by one.
use padma.Base.{
  subst, ◌≡◌, refl, sym, ap, ◌∙◌, inl, inr, Bool, true, Option, none, some, List, [], ◌∷◌, Text,
  ==_iff, first, update_where, update_where-IsUnique, find-update_where, find-append_found,
  append-IsUnique, first-find, key_of_find, map_row, arith, Bool-cases, if◌then◌else◌,
}
use padma.Database.{Db}
use padma.Database.Rows.{
  OrderRow, OrderStatus, MerchantRow, RefundRow, pending, paid, expired, refunded,
}
use padma.Indexer.Events.{InvoicePaidData}
use padma.Indexer.Projections.{awaits, pay_order, pay_orders}
use padma.Merchant.Orders.{insert_order, stores, same_order}
use padma.Merchant.Refunds.{insert_refund, stores_refund, same_refund, mark_refunded, refund_order}
use padma.Lifecycle.{order_key, Grows, Grown, Lives}

awaits-pending : (hash : Text) (x : OrderRow) → awaits hash x ≡ true → x.status ≡ pending
unfolding awaits
awaits-pending hash x h = ground arith

Grows-paid : (s : OrderStatus) → Grows s pending → Grows s paid
Grows-paid pending g = tt
Grows-paid paid g = absurd g
Grows-paid expired g = absurd g
Grows-paid refunded g = absurd g

-- an order that may have become paid may become refunded
Grows-refunded : (s : OrderStatus) → Grows s paid → Grows s refunded
Grows-refunded pending g = tt
Grows-refunded paid g = tt
Grows-refunded expired g = absurd g
Grows-refunded refunded g = absurd g

module _ (k : Text) (o : OrderRow) where
  update-Lives :
      (test : OrderRow → Bool) (f : OrderRow → OrderRow)
      → ((x : OrderRow) → (f x).id ≡ x.id)
      → ((x : OrderRow) → x.id ≡ k → test x ≡ true → Grown o x → Grown o (f x))
      → (os : List OrderRow) → Lives k o os
      → Lives k o (update_where test f os)
  update-Lives test f keeps grows os (unique, (x, there, grown)) =
      let found =
        find-update_where order_key test f keeps k os
        ∙ ap (map_row (λ y. if test y then f y else y)) there in
      (
        update_where-IsUnique order_key test f keeps os unique,
        elim (Bool-cases (test x)) [
          | inl e ↦ (f x, found ∙ rw e refl, grows x (key_of_find order_key k x os there) e grown)
          | inr e ↦ (x, found ∙ rw e refl, grown)
        ],
      )

  pub pay_orders-Lives :
      (d : InvoicePaidData) (db : Db)
      → Lives k o db.merchant_orders
      → Lives k o (pay_orders d db).merchant_orders
  pay_orders-Lives d db h =
      update-Lives (awaits d.payment_hash) (pay_order d.settled_at) (λ x. refl)
        (λ x is_k e (g : Grown o x). (
          ap (λ (y : OrderRow). pay_order d.settled_at y) g.0,
          Grows-paid o.status (subst (Grows o.status) (awaits-pending d.payment_hash x e) g.1),
        ))
        db.merchant_orders h

  stored-Lives :
      (existing taken : Option OrderRow) (owner : Option MerchantRow) (r : OrderRow) (db : Db)
      → first (same_order r.id) db.merchant_orders ≡ taken
      → Lives k o db.merchant_orders
      → Lives k o (stores existing taken owner r db).1.merchant_orders
  stored-Lives (some e) taken owner r db new h = h
  stored-Lives none (some e) owner r db new h = h
  stored-Lives none none none r db new h = h
  stored-Lives none none (some m) r db new (unique, (x, there, grown)) = (
    append-IsUnique order_key r db.merchant_orders
        (sym (first-find order_key r.id db.merchant_orders) ∙ new) unique,
    (x, find-append_found order_key k x db.merchant_orders (r ∷ []) there, grown),
  )

  pub insert_order-Lives :
      (r : OrderRow) (db : Db)
      → Lives k o db.merchant_orders
      → Lives k o (insert_order r db).1.merchant_orders
  insert_order-Lives r db h = stored-Lives _ _ _ r db refl h

  pub insert_refund-Lives :
      (r : RefundRow) (db : Db)
      → Lives k o db.merchant_orders
      → Lives k o (insert_refund r db).1.merchant_orders
  insert_refund-Lives r db h =
      stored (first (same_refund r.id) db.refunds)
        (first (same_order r.order_id) db.merchant_orders)
    where
      stored :
          (taken : Option RefundRow) (order : Option OrderRow)
          → Lives k o (stores_refund taken order r db).1.merchant_orders
      stored (some e) order = h
      stored none none = h
      stored none (some order) = h

  -- the mark of a refund, on another order or on one that may have become paid
  pub mark_refunded-Lives :
      (order_id : Text)
      → (order_id ≡ k → Grows o.status paid)
      → (db : Db) → Lives k o db.merchant_orders
      → Lives k o (mark_refunded order_id db).merchant_orders
  mark_refunded-Lives order_id payable db h =
      update-Lives (same_order order_id) refund_order (λ x. refl)
        (λ x is_k e (g : Grown o x). (
          ap (λ (y : OrderRow). refund_order y) g.0,
          Grows-refunded o.status (payable (sym ((==_iff x.id order_id).0 e) ∙ is_k)),
        ))
        db.merchant_orders h
