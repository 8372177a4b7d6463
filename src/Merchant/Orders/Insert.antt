-- ===== src/Merchant/Orders/Insert.antt =====
-- The insert of an order, and the two looks that may follow it.
use padma.Base.{
  ◌≡◌, refl, ◌∙◌, true, Option, none, some, List, Text, first, first-append, first-none, arith,
  ==_self,
}
use padma.Errors.{ok}
use padma.Database.{Db}
use padma.Database.Rows.{OrderRow, MerchantRow}
use padma.Merchant.Orders.{
  has_external, has_id, same_order, same_merchant, conflicting, insert_order, stores,
}

-- the orders hold `row` for the external id, and no other order of this id and merchant
abbrev pub Settled : Text → Text → Text → List OrderRow → OrderRow → Type 0
Settled merchant_id ext_id order_id os row =
    (first (has_external merchant_id ext_id) os ≡ some row)
    × ((x : OrderRow) → first (has_id order_id merchant_id) os ≡ some x → x ≡ row)

has_id_same :
    (order_id merchant_id : Text) (x : OrderRow)
    → has_id order_id merchant_id x ≡ true
    → same_order order_id x ≡ true
unfolding has_id
has_id_same order_id merchant_id x h = ground arith

has_id_self : (o : OrderRow) → has_id o.id o.merchant_id o ≡ true
unfolding has_id
has_id_self o = rw (==_self o.id, ==_self o.merchant_id) refl

has_external_self :
    (o : OrderRow) (x : Text) → o.external_order_id ≡ some x → has_external o.merchant_id x o ≡ true
unfolding has_external
has_external_self o x h = rw (h, ==_self o.merchant_id, ==_self x) refl

-- the insert of an order with a fresh id that returned
pub stores-Settled :
    (o : OrderRow) (ext_id : Text) (db : Db) (owner : Option MerchantRow)
    (found taken : Option OrderRow)
    → o.external_order_id ≡ some ext_id
    → first (has_external o.merchant_id ext_id) db.merchant_orders ≡ found
    → first (same_order o.id) db.merchant_orders ≡ taken
    → taken ≡ none
    → (stores found taken owner o db).0 ≡ ok tt
    → (row : OrderRow) × Settled o.merchant_id ext_id o.id
        (stores found taken owner o db).1.merchant_orders
        row
stores-Settled o ext_id db owner found (some x) named e t fresh h = cc
stores-Settled o ext_id db owner (some row) none named e t fresh h = (
  row,
  (
    e,
    λ x there. cc (
      there,
      first-none (same_order o.id) (has_id o.id o.merchant_id) (has_id_same o.id o.merchant_id)
          db.merchant_orders t,
    ),
  ),
)
stores-Settled o ext_id db none none none named e t fresh h = cc
stores-Settled o ext_id db (some m) none none named e t fresh h = (
  o,
  (
    first-append (has_external o.merchant_id ext_id) o db.merchant_orders e
        ∙ rw (has_external_self o ext_id named) refl,
    λ x there. cc (
      there,
      has_id_self o,
      first-append (has_id o.id o.merchant_id) o db.merchant_orders (
          first-none (same_order o.id) (has_id o.id o.merchant_id) (has_id_same o.id o.merchant_id)
            db.merchant_orders t),
    ),
  ),
)

conflicting-some :
    (o : OrderRow) (ext_id : Text) (os : List OrderRow)
    → o.external_order_id ≡ some ext_id
    → first (has_external o.merchant_id ext_id) os ≡ conflicting o os
conflicting-some o ext_id os h = rw h refl

pub insert_order-Settled :
    (o : OrderRow) (ext_id : Text) (db : Db)
    → o.external_order_id ≡ some ext_id
    → first (same_order o.id) db.merchant_orders ≡ none
    → (insert_order o db).0 ≡ ok tt
    → (row : OrderRow) × Settled o.merchant_id ext_id o.id (insert_order o db).1.merchant_orders row
insert_order-Settled o ext_id db external fresh done =
    stores-Settled o ext_id db (first (same_merchant o.merchant_id) db.merchants)
      (conflicting o db.merchant_orders) (first (same_order o.id) db.merchant_orders) external
      (conflicting-some o ext_id db.merchant_orders external) refl fresh done
