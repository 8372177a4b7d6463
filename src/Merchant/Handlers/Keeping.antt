-- ===== src/Merchant/Handlers/Keeping.antt =====
-- The routes keep what the operations behind them keep.
use padma.Base.{Bool, true, false, [], ◌∷◌, ◌++◌, Text, codes, is_empty, if◌then◌else◌}
use padma.Errors.{Result, ok, err}
use padma.Database.{Db, World}
use padma.Database.Rows.{OrderRow, SettlementRecord, RunRow}
use padma.Platform.Http.{Request, Response}
use padma.Merchant.Orders.{insert_order}
use padma.Merchant.Refunds.{refund}
use padma.Merchant.Writes.{create_order-Preserves, get_order-Preserves}
use padma.Merchant.Writes.Accounts.{
  settlement-Preserves, reconciliation-Preserves, export-Preserves,
}
use padma.Merchant.Handlers.{
  Outside, Reply, Route, create_order_route, get_order_route, refund_route, settlements_route,
  reconciliation_route, export_route, answered, handle, CreateOrderReq, RefundReq, decoded_order,
  decoded_refund,
}

module _ {κ} (P : Db → Type κ) where
  pub answered_keeps :
      {A : Type 0} (answer : A → Response Reply) (r : Result A × World)
      → P r.1.db
      → P (answered answer r).1.db
  answered_keeps answer (ok a, w) h = h
  answered_keeps answer (err e, w) h = h

  pub period_keeps :
      (b : Bool) (r r' : Response Reply × World)
      → P r.1.db
      → P r'.1.db
      → P (if b then r else r').1.db
  period_keeps true r r' h h' = h
  period_keeps false r r' h h' = h'

  module _ (o : Outside) (others_keep : (db : Db) → P db → P (o.others db))
      (inserts_keep : (x : OrderRow) (db : Db) → P db → P (insert_order x db).1)
      (settlements_keep : (s : SettlementRecord) (db : Db)
        → P db
        → P (record db { settlements = db.settlements ++ s ∷ [] }))
      (runs_keep : (r : RunRow) (db : Db)
        → P db
        → P (record db { reconciliation_runs = db.reconciliation_runs ++ r ∷ [] })) where
    pub handle_keeps :
        (route : Route) (merchant_id : Text) (r : Request) (w : World)
        → ((order_id amount_hex reason : Text)
            → P w.db
            → P
                (refund o.lib o.pgx o.rfc3339 o.others merchant_id order_id amount_hex reason
                  w).1.db)
        → P w.db
        → P (handle o route merchant_id r w).1.db
    unfolding handle
    handle_keeps create_order_route merchant_id r w refunds h = decoded (o.decode_order r.body)
      where
        decoded : (q : Result CreateOrderReq) → P (decoded_order o merchant_id q w).1.db
        decoded (err e) = h
        decoded (ok q) = answered_keeps _ _ (
            (create_order-Preserves P o.lib o.pgx o.rfc3339 o.others others_keep inserts_keep
                merchant_id q.external_order_id q.amount q.asset).at
              w h)
    handle_keeps get_order_route merchant_id r w refunds h = answered_keeps _ _ (
        (get_order-Preserves P o.lib o.pgx o.rfc3339 merchant_id (r.url_param (codes "id"))).at w h)
    handle_keeps refund_route merchant_id r w refunds h = decoded (o.decode_refund r.body)
      where
        decoded :
            (q : Result RefundReq)
            → P (decoded_refund o merchant_id (r.url_param (codes "id")) q w).1.db
        decoded (err e) = h
        decoded (ok q) = answered_keeps _ _ (refunds (r.url_param (codes "id")) q.amount q.reason h)
    handle_keeps settlements_route merchant_id r w refunds h =
        period_keeps (is_empty (r.query_param (codes "period"))) _ _ h (
          answered_keeps _ _ (
            (settlement-Preserves P o.lib o.pgx settlements_keep o.period_of merchant_id
                (r.query_param (codes "period"))).at
              w h))
    handle_keeps reconciliation_route merchant_id r w refunds h =
        period_keeps (is_empty (r.query_param (codes "period"))) _ _ h (
          answered_keeps _ _ (
            (reconciliation-Preserves P o.lib o.pgx runs_keep o.period_of merchant_id
                (r.query_param (codes "period"))).at
              w h))
    handle_keeps export_route merchant_id r w refunds h =
        period_keeps (is_empty (r.query_param (codes "period"))) _ _ h (
          answered_keeps _ _ (
            (export-Preserves P o.lib o.pgx o.utc_text o.period_of o.excelize merchant_id
                (r.query_param (codes "period")) (r.query_param (codes "format"))).at
              w h))
