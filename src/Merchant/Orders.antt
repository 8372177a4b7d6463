-- ===== src/Merchant/Orders.antt =====
-- internal/merchant/orders.go: an order and its invoice, once for each external order id.
pub mod Repeat
pub mod Insert
pub mod Winner
pub mod Stored
use padma.Base.{
  ℕ, Bool, true, false, ◌&&◌, Option, none, some, List, [], ◌∷◌, ◌++◌, Text, codes, ◌==◌, is_empty,
  first, map_row, if◌then◌else◌,
}
use padma.Errors.{
  Error, Result, ok, err, sentinel, reported, wrapped, or_wrap, error_text, is, no_rows, not_found,
  invalid_state,
}
use padma.Database.{
  Db, World, Action, Amount, Invoice, pure, raise, lift, statement, query_row, wrap, try, new_id,
  ◌>>=◌, ◌>>◌, read_now,
}
use padma.Database.Rows.{Time, MerchantRow, OrderRow, OrderStatus}
use padma.Platform.Fibertypes.{Fibertypes}
use padma.Platform.Numeric.{amount_to_numeric, numeric_column, numeric_to_amount}
use padma.Platform.Columns.{Pgx, scan_numeric, hex_or_nothing}
use padma.Merchant.Node.{new_invoice}

-- Order
pub record Order : Type 0 where
  pub id : Text
  pub merchant_id : Text
  pub external_order_id : Text
  pub invoice_payment_hash : Text
  pub amount : Text
  pub asset : Text
  pub status : OrderStatus
  pub created_at : Text
  pub paid_at : Option Text

-- COALESCE(column, '')
abbrev pub or_empty : Option Text → Text
or_empty none = []
or_empty (some s) = s

abbrev pub holds_text : Option Text → Text → Bool
holds_text none s = false
holds_text (some x) s = x == s

-- WHERE merchant_id = $1 AND external_order_id = $2
unfoldable pub has_external : Text → Text → OrderRow → Bool
has_external merchant_id ext_id o =
    o.merchant_id == merchant_id && holds_text o.external_order_id ext_id

-- WHERE id = $1 AND merchant_id = $2
unfoldable pub has_id : Text → Text → OrderRow → Bool
has_id order_id merchant_id o = o.id == order_id && o.merchant_id == merchant_id

abbrev pub same_merchant : Text → MerchantRow → Bool
same_merchant id m = m.id == id

abbrev pub same_order : Text → OrderRow → Bool
same_order id o = o.id == id

abbrev pub stores :
    Option OrderRow → Option OrderRow → Option MerchantRow → OrderRow → Db → Result (Unit {0}) × Db
stores (some x) taken owner o db = (ok tt, db)
stores none (some x) owner o db =
    (err (reported (codes "duplicate key value violates unique constraint")), db)
stores none none none o db = (err (reported (codes "insert violates foreign key constraint")), db)
stores none none (some m) o db =
    (ok tt, record db { merchant_orders = db.merchant_orders ++ o ∷ [] })

-- a NULL external id conflicts with nothing
abbrev pub conflicting : OrderRow → List OrderRow → Option OrderRow
conflicting o os = against o.external_order_id
  where
    against : Option Text → Option OrderRow
    against none = none
    against (some ext_id) = first (has_external o.merchant_id ext_id) os

-- INSERT … ON CONFLICT (merchant_id, external_order_id) DO NOTHING, with the primary key and the
-- reference to merchants(id)
abbrev pub insert_order : OrderRow → Db → Result (Unit {0}) × Db
insert_order o db =
    stores (conflicting o db.merchant_orders) (first (same_order o.id) db.merchant_orders)
      (first (same_merchant o.merchant_id) db.merchants) o db

-- if asset == "" { asset = "CKB" }
abbrev pub asset_or_ckb : Text → Text
asset_or_ckb asset = if is_empty asset then codes "CKB" else asset

-- NULLIF(s, '')
abbrev pub null_if_empty : Text → Option Text
null_if_empty s = if is_empty s then none else some s

abbrev pub new_order : Text → Text → Text → Text → Amount → Text → Time → OrderRow
new_order order_id merchant_id ext_id payment_hash amount asset now = record {
  id = order_id;
  merchant_id = merchant_id;
  external_order_id = null_if_empty ext_id;
  invoice_payment_hash = some payment_hash;
  amount = numeric_column (amount_to_numeric amount);
  asset = some asset;
  status = OrderStatus.pending;
  created_at = now;
  paid_at = none;
}

-- "%w: amount: %s"
abbrev pub bad_amount : Error → Error
bad_amount e = wrapped "%w: amount: %s" (error_text e) (sentinel invalid_state)

module _ (lib : Fibertypes) (pgx : Pgx) (rfc3339 : Time → Text) where
  open lib use {parse_amount}

  -- the rest of scanOrder, once the row is scanned
  unfoldable pub order_of : OrderRow → Order
  order_of r = record {
    id = r.id;
    merchant_id = r.merchant_id;
    external_order_id = or_empty r.external_order_id;
    invoice_payment_hash = or_empty r.invoice_payment_hash;
    amount = shown (scan_numeric pgx r.amount).valid;
    asset = or_empty r.asset;
    status = r.status;
    created_at = rfc3339 r.created_at;
    paid_at = map_row rfc3339 r.paid_at;
  }
    where
      shown : Bool → Text
      shown false = []
      shown true = hex_or_nothing lib (numeric_to_amount lib (scan_numeric pgx r.amount))

  abbrev pub scanned : Result OrderRow × World → Result Order × World
  scanned (ok r, w) = (ok (order_of r), w)
  scanned (err e, w) =
      if is e no_rows
      then (err (sentinel not_found), w)
      else (err (wrapped "merchant: scan order: %w" [] e), w)

  -- scanOrder
  unfoldable pub scan_order : (Db → Option OrderRow) → Action Order
  unfolding order_of
  scan_order row w = scanned (query_row row w)

  -- GetOrder
  unfoldable pub get_order : Text → Text → Action Order
  unfolding scan_order
  get_order merchant_id order_id =
      scan_order (λ db. first (has_id order_id merchant_id) db.merchant_orders)

  -- orderByExternalID
  unfoldable pub order_by_external_id : Text → Text → Action Order
  unfolding scan_order
  order_by_external_id merchant_id ext_id =
      scan_order (λ db. first (has_external merchant_id ext_id) db.merchant_orders)

  -- the last return
  unfoldable pub finish : Text → Text → Invoice → Action (Order × Invoice)
  unfolding get_order
  finish merchant_id order_id inv = do order ← get_order merchant_id order_id; pure (order, inv)

  -- the winner of the race, if one is found
  abbrev pub winner : Text → Text → Invoice → Result Order → Action (Order × Invoice)
  winner merchant_id order_id inv (ok existing) = pure (existing, inv)
  winner merchant_id order_id inv (err e) = finish merchant_id order_id inv

  -- what follows the answer of NewInvoice
  unfoldable pub place : Text → Text → Amount → Text → Invoice → Action (Order × Invoice)
  unfolding order_by_external_id finish
  place merchant_id ext_id amount asset inv = do
    order_id ← new_id
    now ← read_now
    wrap (wrapped "merchant: insert order: %w" []) (
        statement
          (insert_order (new_order order_id merchant_id ext_id inv.payment_hash amount asset now)))
    if is_empty ext_id
        then finish merchant_id order_id inv
        else try (order_by_external_id merchant_id ext_id) >>= winner merchant_id order_id inv

  -- from NewInvoice on
  unfoldable pub mint : (Db → Db) → Text → Text → Amount → Text → Action (Order × Invoice)
  mint others merchant_id ext_id amount asset = do
    inv ←
        wrap (wrapped "merchant: new invoice: %w" [])
          (new_invoice others (record { amount = amount; description = codes "order " ++ ext_id }))
    place merchant_id ext_id amount asset inv

  -- the first look for an order with the external id
  abbrev pub reuse :
      (Db → Db) → Text → Text → Amount → Text → Result Order → Action (Order × Invoice)
  reuse others merchant_id ext_id amount asset (ok existing) =
      pure (existing, record { payment_hash = existing.invoice_payment_hash; address = [] })
  reuse others merchant_id ext_id amount asset (err e) =
      if is e not_found then mint others merchant_id ext_id amount asset else raise e

  -- CreateOrder
  unfoldable pub create_order : (Db → Db) → Text → Text → Text → Text → Action (Order × Invoice)
  unfolding mint order_by_external_id
  create_order others merchant_id ext_id amount_hex asset = do
    amount ← lift (or_wrap bad_amount (parse_amount amount_hex))
    if is_empty ext_id
        then mint others merchant_id ext_id amount (asset_or_ckb asset)
        else try (order_by_external_id merchant_id ext_id)
          >>= reuse others merchant_id ext_id amount (asset_or_ckb asset)
