-- ===== src/Merchant/Handlers.antt =====
-- internal/merchant/handlers.go and provision.go: the endpoints behind the API-key check, and how a
-- merchant gets its key. `Route` is what the router has matched.
pub mod Guard
pub mod Keeping
pub mod Keys
pub mod Tenants
use padma.Base.{
  ℕ, Bool, true, false, ◌||◌, not, Option, none, some, List, [], ◌∷◌, ◌++◌, Text, codes, ◌==◌,
  is_empty, length, take, drop, leb, first, map_row, if◌then◌else◌,
}
use padma.Errors.{
  Error, Result, ok, err, reported, wrapped, error_text, is, no_rows, not_found, invalid_state,
}
use padma.Database.{
  Db, World, Action, Invoice, pure, statement, query_row, wrap, new_id, ◌>>=◌, ◌>>◌,
}
use padma.Database.Rows.{Time, MerchantRow}
use padma.Platform.Auth.{hash_api_key, new_api_key}
use padma.Platform.Http.{Request, Response, json_response, error_response, bytes}
use padma.Platform.Fibertypes.{Fibertypes}
use padma.Platform.Columns.{Pgx}
use padma.Merchant.Orders.{Order, create_order, get_order, same_merchant}
use padma.Merchant.Refunds.{Refund, refund}
use padma.Merchant.Settlement.{SettlementRow, Reconciliation, settlement}
use padma.Merchant.Reconcile.{reconciliation}
use padma.Merchant.Export.{Exported, Excelize, export}

-- createOrderReq
pub record CreateOrderReq : Type 0 where
  pub external_order_id : Text
  pub amount : Text
  pub asset : Text

-- refundReq
pub record RefundReq : Type 0 where
  pub amount : Text
  pub reason : Text

-- what is written as JSON
pub data Reply : Type 0 where
  placed_order : Order → Text → Text → Reply
  stored_order : Order → Reply
  refunded : Refund → Reply
  settlements : Text → List SettlementRow → Reply
  reconciled : Reconciliation → Reply

-- what stands outside the handlers: libraries, clock formats, the JSON decoder of the bodies, and
-- what other processes do to the database while the node answers
pub record Outside : Type 1 where
  pub lib : Fibertypes
  pub pgx : Pgx
  pub rfc3339 : Time → Text
  pub utc_text : Time → Text
  pub period_of : Time → Text
  pub excelize : Excelize
  pub sha_256 : Text → Text
  pub decode_order : Text → Result CreateOrderReq
  pub decode_refund : Text → Result RefundReq
  pub others : Db → Db

-- writeErr
unfoldable pub write_err : Error → Response Reply
write_err e =
    if is e not_found
    then error_response 404 (error_text e)
    else if is e invalid_state
    then error_response 400 (error_text e)
    else error_response 500 (error_text e)

-- `if err != nil { writeErr(w, err); return }`, and the answer otherwise
abbrev pub answered :
    {A : Type 0} → (A → Response Reply) → Result A × World → Response Reply × World
answered answer (ok a, w) = (answer a, w)
answered answer (err e, w) = (write_err e, w)

abbrev pub period_required : Response Reply
period_required = error_response 400 (codes "period (YYYY-MM) is required")

abbrev pub invalid_body : Error → Response Reply
invalid_body e = error_response 400 (codes "invalid body: " ++ error_text e)

abbrev pub placed_response : Order × Invoice → Response Reply
placed_response (order, inv) = json_response 201 (placed_order order inv.payment_hash inv.address)

abbrev pub file_response : Exported → Response Reply
file_response e = record {
  status = 200;
  content_type = e.content_type;
  content_disposition = codes "attachment; filename=" ++ (b'"' ∷ (e.filename ++ b'"' ∷ []));
  content = bytes e.bytes;
}

pub data Route : Type 0 where
  create_order_route get_order_route refund_route settlements_route reconciliation_route
        export_route :
      Route

-- `Bearer <api-key>`
abbrev pub bearer : Text
bearer = codes "Bearer "

abbrev pub has_hash : Text → MerchantRow → Bool
has_hash hash m = m.api_key_hash == hash

abbrev pub merchant_id_of : MerchantRow → Text
merchant_id_of m = m.id

module _ (o : Outside) where
  abbrev pub decoded_order : Text → Result CreateOrderReq → World → Response Reply × World
  decoded_order merchant_id (err e) w = (invalid_body e, w)
  decoded_order merchant_id (ok req) w = answered placed_response (
      create_order o.lib o.pgx o.rfc3339 o.others merchant_id req.external_order_id req.amount
        req.asset w)

  abbrev pub decoded_refund : Text → Text → Result RefundReq → World → Response Reply × World
  decoded_refund merchant_id order_id (err e) w = (invalid_body e, w)
  decoded_refund merchant_id order_id (ok req) w =
      answered (λ r. json_response 200 (refunded r))
        (refund o.lib o.pgx o.rfc3339 o.others merchant_id order_id req.amount req.reason w)

  -- createOrder, getOrder, refund, settlements, reconciliation and export
  unfoldable pub handle : Route → Text → Request → World → Response Reply × World
  handle create_order_route merchant_id r w = decoded_order merchant_id (o.decode_order r.body) w
  handle get_order_route merchant_id r w =
      answered (λ order. json_response 200 (stored_order order))
        (get_order o.lib o.pgx o.rfc3339 merchant_id (r.url_param (codes "id")) w)
  handle refund_route merchant_id r w =
      decoded_refund merchant_id (r.url_param (codes "id")) (o.decode_refund r.body) w
  handle settlements_route merchant_id r w =
      let period = r.query_param (codes "period") in
      if is_empty period
      then (period_required, w)
      else answered (λ rows. json_response 200 (settlements period rows))
          (settlement o.lib o.pgx o.period_of merchant_id period w)
  handle reconciliation_route merchant_id r w =
      let period = r.query_param (codes "period") in
      if is_empty period
      then (period_required, w)
      else answered (λ rec. json_response 200 (reconciled rec))
          (reconciliation o.lib o.pgx o.period_of merchant_id period w)
  handle export_route merchant_id r w =
      let period = r.query_param (codes "period") in
      if is_empty period
      then (period_required, w)
      else answered file_response (
          export o.lib o.pgx o.utc_text o.period_of o.excelize merchant_id period
            (r.query_param (codes "format")) w)

  abbrev pub identified :
      (Text → World → Response Reply × World) → Result Text × World → Response Reply × World
  identified next (ok merchant_id, w) = next merchant_id w
  identified next (err e, w) =
      if is e no_rows
      then (error_response 401 (codes "invalid api key"), w)
      else (error_response 500 (error_text e), w)

  abbrev pub merchant_with : Text → Db → Option Text
  merchant_with hash db = map_row merchant_id_of (first (has_hash hash) db.merchants)

  -- whether the header has no token
  abbrev pub lacks_token : Text → Bool
  lacks_token hdr = leb (length hdr) (length bearer) || not (take (length bearer) hdr == bearer)

  -- authMerchant
  unfoldable pub auth_merchant :
      (Text → World → Response Reply × World) → Request → World → Response Reply × World
  auth_merchant next r w =
      if lacks_token r.authorization
      then (error_response 401 (codes "missing bearer token"), w)
      else identified next (
          query_row (merchant_with (hash_api_key o.sha_256 (drop (length bearer) r.authorization)))
            w)

  -- the routes behind authMerchant
  unfoldable pub serve : Route → Request → World → Response Reply × World
  unfolding auth_merchant handle
  serve route r w = auth_merchant (λ merchant_id. handle route merchant_id r) r w

-- if settlementAsset == "" { settlementAsset = "CKB" }
abbrev pub settlement_asset_or_ckb : Text → Text
settlement_asset_or_ckb asset = if is_empty asset then codes "CKB" else asset

abbrev pub stores_merchant : Option MerchantRow → MerchantRow → Db → Result (Unit {0}) × Db
stores_merchant (some x) m db =
    (err (reported (codes "duplicate key value violates unique constraint")), db)
stores_merchant none m db = (ok tt, record db { merchants = db.merchants ++ m ∷ [] })

-- INSERT INTO merchants, with the primary key
abbrev pub insert_merchant : MerchantRow → Db → Result (Unit {0}) × Db
insert_merchant m db = stores_merchant (first (same_merchant m.id) db.merchants) m db

-- Provision: the id and the key
unfoldable pub provision : (Text → Text) → Text → Text → Action (Text × Text)
provision sha_256 name settlement_asset = do
  merchant_id ← new_id
  (api_key, hash) ← new_api_key sha_256
  wrap (wrapped "merchant: provision: %w" []) (
      statement (
        insert_merchant (record {
          id = merchant_id;
          name = name;
          api_key_hash = hash;
          settlement_asset = settlement_asset_or_ckb settlement_asset;
        })))
  pure (merchant_id, api_key)
