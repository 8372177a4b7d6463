-- ===== src/Api/Reads.antt =====
-- What the GET requests of the API write.
use padma.Base.{
  ◌≡◌, refl, sym, ap, ap₂, ◌∙◌, subst, List, append-nil, append_assoc, Bool, true, false, inl, inr,
  [], ◌∷◌, ◌++◌, Text, codes, is_empty,
}
use padma.Errors.{Result, ok, err, is, no_rows}
use padma.Database.{Db, World, row_or_none}
use padma.Database.Rows.{SettlementRecord, RunRow}
use padma.Database.Preserves.{Preserves, preserves_rules}
use padma.Platform.Http.{Request, Response}
use padma.Query.Handlers.BadRequests.{serve-Rejects}
use padma.Webhook.Endpoints.{Answer, list, listing, settled}
use padma.Merchant.Handlers.{
  Outside, identified, create_order_route, get_order_route, refund_route, settlements_route,
  reconciliation_route, export_route, handle, serve as serve_merchant,
}
use padma.Merchant.Handlers as Merchant
use padma.Merchant.Handlers.Guard.{auth_cases, key_owner}
use padma.Merchant.Handlers.Keeping.{answered_keeps, period_keeps}
use padma.Merchant.Writes.{get_order-Preserves}
use padma.Merchant.Writes.Accounts.{
  settlement-Preserves, reconciliation-Preserves, export-Preserves,
}
use padma.Api.{
  Route, healthz, on_query, create_webhook, list_webhooks, remove_webhook, test_webhook,
  replay_webhook, on_merchant, Libraries, serve,
}

-- the routes that Get mounts
abbrev pub gets : Merchant.Route → Bool
gets create_order_route = false
gets refund_route = false
gets _ = true

abbrev pub is_get : Route → Bool
is_get healthz = true
is_get (on_query route) = true
is_get list_webhooks = true
is_get (on_merchant route) = gets route
is_get _ = false

-- nothing has changed but that rows were added behind the settlements and the reconciliation runs
pub record OnlyReports (before after : Db) : Type 0 where
  pub new_settlements : List SettlementRecord
  pub new_runs : List RunRow
  pub same : after ≡ record before {
    settlements = before.settlements ++ new_settlements;
    reconciliation_runs = before.reconciliation_runs ++ new_runs;
  }

OnlyReports-same : {before after : Db} → after ≡ before → OnlyReports before after
OnlyReports-same {before} e = subst (OnlyReports before) (sym e) (record {
  new_settlements = [];
  new_runs = [];
  same =
      ap₂ (λ ss rs. record before { settlements = ss; reconciliation_runs = rs })
        (sym (append-nil before.settlements)) (sym (append-nil before.reconciliation_runs));
})

module _ (before : Db) where
  settlements_keep :
      (s : SettlementRecord) (db : Db)
      → OnlyReports before db
      → OnlyReports before (record db { settlements = db.settlements ++ s ∷ [] })
  settlements_keep s db h = record {
    new_settlements = h.new_settlements ++ s ∷ [];
    new_runs = h.new_runs;
    same =
        ap (λ (x : Db). record x { settlements = x.settlements ++ s ∷ [] }) h.same
        ∙ ap
            (λ ss. record before {
              settlements = ss;
              reconciliation_runs = before.reconciliation_runs ++ h.new_runs;
            })
            (append_assoc before.settlements h.new_settlements (s ∷ []));
  }

  runs_keep :
      (r : RunRow) (db : Db)
      → OnlyReports before db
      → OnlyReports before (record db { reconciliation_runs = db.reconciliation_runs ++ r ∷ [] })
  runs_keep r db h = record {
    new_settlements = h.new_settlements;
    new_runs = h.new_runs ++ r ∷ [];
    same =
        ap (λ (x : Db). record x { reconciliation_runs = x.reconciliation_runs ++ r ∷ [] }) h.same
        ∙ ap
            (λ rs. record before {
              settlements = before.settlements ++ h.new_settlements;
              reconciliation_runs = rs;
            })
            (append_assoc before.reconciliation_runs h.new_runs (r ∷ []));
  }

  settled_keeps :
      (r : Result Answer × World) → OnlyReports before r.1.db → OnlyReports before (settled r).1.db
  settled_keeps (ok a, w) h = h
  settled_keeps (err e, w) h = h

  handle-OnlyReports :
      (o : Outside) (route : Merchant.Route) (merchant_id : Text) (r : Request) (w : World)
      → gets route ≡ true
      → OnlyReports before w.db
      → OnlyReports before (handle o route merchant_id r w).1.db
  unfolding handle
  handle-OnlyReports o create_order_route merchant_id r w g h = absurd (cc)
  handle-OnlyReports o refund_route merchant_id r w g h = absurd (cc)
  handle-OnlyReports o get_order_route merchant_id r w g h =
      answered_keeps (OnlyReports before) _ _ (
        (get_order-Preserves (OnlyReports before) o.lib o.pgx o.rfc3339 merchant_id
            (r.url_param (codes "id"))).at
          w h)
  handle-OnlyReports o settlements_route merchant_id r w g h =
      period_keeps (OnlyReports before) (is_empty (r.query_param (codes "period"))) _ _ h (
        answered_keeps (OnlyReports before) _ _ (
          (settlement-Preserves (OnlyReports before) o.lib o.pgx settlements_keep o.period_of
              merchant_id (r.query_param (codes "period"))).at
            w h))
  handle-OnlyReports o reconciliation_route merchant_id r w g h =
      period_keeps (OnlyReports before) (is_empty (r.query_param (codes "period"))) _ _ h (
        answered_keeps (OnlyReports before) _ _ (
          (reconciliation-Preserves (OnlyReports before) o.lib o.pgx runs_keep o.period_of
              merchant_id (r.query_param (codes "period"))).at
            w h))
  handle-OnlyReports o export_route merchant_id r w g h =
      period_keeps (OnlyReports before) (is_empty (r.query_param (codes "period"))) _ _ h (
        answered_keeps (OnlyReports before) _ _ (
          (export-Preserves (OnlyReports before) o.lib o.pgx o.utc_text o.period_of o.excelize
              merchant_id (r.query_param (codes "period")) (r.query_param (codes "format"))).at
            w h))

  identified-OnlyReports :
      (o : Outside) (next : Text → World → Response Merchant.Reply × World) (q : Result Text)
      (v : World)
      → OnlyReports before v.db
      → ((merchant_id : Text) → OnlyReports before (next merchant_id v).1.db)
      → OnlyReports before (identified o next (q, v)).1.db
  identified-OnlyReports o next (ok merchant_id) v h k = k merchant_id
  identified-OnlyReports o next (err e) v h k =
      period_keeps (OnlyReports before) (is e no_rows) _ _ h h

  serve_merchant-OnlyReports :
      (o : Outside) (route : Merchant.Route) (r : Request) (w : World)
      → gets route ≡ true
      → OnlyReports before w.db
      → OnlyReports before (serve_merchant o route r w).1.db
  unfolding serve_merchant
  serve_merchant-OnlyReports o route r w g h =
      let next = (λ (merchant_id : Text). handle o route merchant_id r) in
      elim (auth_cases o next r w) [
        | inl (_, e) ↦ rw e h
        | inr (_, (rest, inl e)) ↦ rw e (
            identified-OnlyReports o next (row_or_none (key_owner o r w.db))
              (record w { faults = rest }) h
              (λ merchant_id.
                handle-OnlyReports o route merchant_id r (record w { faults = rest }) g h))
        | inr (_, (rest, inr (m, e))) ↦ rw e h
      ]

list-OnlyReports : (w : World) → OnlyReports w.db (list w).1.db
unfolding list
list-OnlyReports w =
    let keeps : Preserves (OnlyReports w.db) listing = search preserves_rules in
    settled_keeps w.db _ (keeps.at w (OnlyReports-same refl))

-- A GET request only adds rows behind those of the settlements and of the reconciliation runs, and
-- changes no other table, whatever the route, the request and the faults.
pub get-OnlyReports :
    (libs : Libraries) (route : Route) (r : Request) (w : World)
    → is_get route ≡ true
    → OnlyReports w.db (serve libs route r w).1.db
unfolding serve
get-OnlyReports libs healthz r w g = OnlyReports-same refl
get-OnlyReports libs (on_query route) r w g = OnlyReports-same (
    (serve-Rejects libs.merchant.lib libs.merchant.pgx libs.clock w libs.parse_rfc3339 route
      r).same_db)
get-OnlyReports libs list_webhooks r w g = list-OnlyReports w
get-OnlyReports libs (on_merchant route) r w g =
    serve_merchant-OnlyReports w.db libs.merchant route r w g (OnlyReports-same refl)
get-OnlyReports libs create_webhook r w g = absurd (cc)
get-OnlyReports libs remove_webhook r w g = absurd (cc)
get-OnlyReports libs test_webhook r w g = absurd (cc)
get-OnlyReports libs replay_webhook r w g = absurd (cc)
