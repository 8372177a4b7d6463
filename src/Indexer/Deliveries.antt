-- ===== src/Indexer/Deliveries.antt =====
-- internal/indexer/deliveries.go: the fan-out of an event to the webhook subscriptions.
use padma.Base.{
  Bool, false, ◌&&◌, ◌||◌, none, List, [], ◌∷◌, map, Text, codes, ◌==◌, select, insert_new,
  if◌then◌else◌,
}
use padma.Errors.{wrapped, or_wrap}
use padma.Database.{Db, Action, pure, lift, query, exec, wrap, read_now, ◌>>=◌, ◌>>◌}
use padma.Database.Rows.{Time, EndpointRow, DeliveryRow, DeliveryStatus}
use padma.Platform.Ids.{derive_with_prefix}
use padma.Indexer.Events.{Event, Codec}

pub record EndpointSnapshot : Type 0 where
  pub id : Text
  pub url : Text
  pub secret : Text

-- $1 = ANY(event_types)
unfoldable pub any_equal : Text → List Text → Bool
any_equal t [] = false
any_equal t (x ∷ xs) = x == t || any_equal t xs

-- WHERE active AND $1 = ANY(event_types)
unfoldable pub matches : Text → EndpointRow → Bool
unfolding any_equal
matches event_type ep = ep.active && any_equal event_type ep.event_types

-- the columns that are scanned
abbrev pub snapshot : EndpointRow → EndpointSnapshot
snapshot ep = record { id = ep.id; url = ep.url; secret = ep.secret }

unfoldable pub matching_endpoints : Text → Action (List EndpointSnapshot)
matching_endpoints event_type = do
  exists ←
      wrap (wrapped "indexer: probe webhook_endpoints: %w" []) (query (λ db. db.has_webhook_tables))
  if exists
      then wrap (wrapped "indexer: select endpoints: %w" [])
          (query (λ db. map snapshot (select (matches event_type) db.webhook_endpoints)))
      else pure []

abbrev pub insert_delivery : DeliveryRow → Db → Db
insert_delivery d db = record db {
  webhook_deliveries = insert_new (λ (r : DeliveryRow). r.id) d db.webhook_deliveries;
}

module _ (codec : Codec) (digest : Text → Text) where
  open codec use {marshal}

  -- id.DeriveWithPrefix("dlv_", "delivery", e.ID, ep.id)
  unfoldable pub delivery_id : Event → EndpointSnapshot → Text
  delivery_id e ep = derive_with_prefix digest (codes "dlv_") (codes "delivery") (e.id ∷ ep.id ∷ [])

  -- the VALUES of the insert; `attempts` and `last_error` have their defaults
  unfoldable pub new_delivery : Event → Text → Time → EndpointSnapshot → DeliveryRow
  unfolding delivery_id
  new_delivery e payload now ep = record {
    id = delivery_id e ep;
    endpoint_id = ep.id;
    event_id = e.id;
    url = ep.url;
    secret = ep.secret;
    payload = payload;
    status = DeliveryStatus.pending;
    attempts = 0;
    next_attempt_at = now;
    last_error = none;
  }

  unfoldable pub insert_deliveries : Event → Text → List EndpointSnapshot → Action (Unit {0})
  unfolding new_delivery
  insert_deliveries e payload [] = pure tt
  insert_deliveries e payload (ep ∷ eps) = do
    now ← read_now
    wrap (wrapped "indexer: enqueue delivery: %w" [])
        (exec (insert_delivery (new_delivery e payload now ep)))
    insert_deliveries e payload eps

  -- `if len(eps) == 0 { return nil }`, and the rest of the function
  unfoldable pub enqueue : Event → List EndpointSnapshot → Action (Unit {0})
  enqueue e [] = pure tt
  enqueue e (ep ∷ eps) = do
    payload ← lift (or_wrap (wrapped "indexer: marshal delivery payload: %w" []) (marshal e))
    insert_deliveries e payload (ep ∷ eps)

  unfoldable pub enqueue_deliveries : Event → Action (Unit {0})
  unfolding matching_endpoints enqueue
  enqueue_deliveries e = do eps ← matching_endpoints e.event_type; enqueue e eps
