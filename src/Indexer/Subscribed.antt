-- ===== src/Indexer/Subscribed.antt =====
-- Which endpoints an event is for, and what a new delivery of it holds.
use padma.Base.{
  ◌≡◌, refl, ap, ap₂, Bool, ◌&&◌, none, List, [], ◌∷◌, Text, codes, ◌==◌, length, ltb, map, select,
  inl, inr, Bool-cases, arith, if◌then◌else◌,
}
use padma.Errors.{ok}
use padma.Database.{Db}
use padma.Database.Rows.{Time, EndpointRow, DeliveryRow, DeliveryStatus}
use padma.Platform.Ids.{derive_with_prefix}
use padma.Indexer.Events.{Event, Codec}
use padma.Indexer.Deliveries.{any_equal, matches, snapshot, delivery_id, new_delivery}
use padma.Indexer.Effect.{subscribers, projected}
use padma.Indexer.Idempotent.{projected_frame}

-- the endpoint is active, and the event's type is among its types
abbrev pub wants : Event → EndpointRow → Bool
wants e ep = ep.active && ltb 0 (length (select (λ (t : Text). t == e.event_type) ep.event_types))

abbrev pub subscribed : Event → Db → List EndpointRow
subscribed e db = if db.has_webhook_tables then select (wants e) db.webhook_endpoints else []

any_equal_lem :
    (t : Text) (ts : List Text) → any_equal t ts ≡ ltb 0 (length (select (λ (x : Text). x == t) ts))
unfolding any_equal
any_equal_lem t [] = refl
any_equal_lem t (x ∷ ts) = ground (arith, any_equal_lem t ts)

select-wants :
    (e : Event) (eps : List EndpointRow) → select (matches e.event_type) eps ≡ select (wants e) eps
unfolding matches
select-wants e [] = refl
select-wants e (ep ∷ eps) = rw (any_equal_lem e.event_type ep.event_types, select-wants e eps) refl

pub subscribers_lem : (e : Event) (db : Db) → subscribers e db ≡ map snapshot (subscribed e db)
unfolding subscribers
subscribers_lem e db = elim (Bool-cases db.has_webhook_tables) [
  | inl there ↦ rw there (ap (map snapshot) (select-wants e db.webhook_endpoints))
  | inr absent ↦ rw absent refl
]

-- the subscriptions are the same
pub record SameSubscriptions (db d : Db) : Type 0 where
  pub tables : d.has_webhook_tables ≡ db.has_webhook_tables
  pub endpoints : d.webhook_endpoints ≡ db.webhook_endpoints

pub subscribed_same :
    (e : Event) (db d : Db) → SameSubscriptions db d → subscribed e d ≡ subscribed e db
subscribed_same e db d same =
    ap₂ (λ b eps. if b then select (wants e) eps else []) same.tables same.endpoints

-- the id of the event's delivery to the endpoint
abbrev pub id_of : (Text → Text) → Event → EndpointRow → Text
id_of digest e ep = derive_with_prefix digest (codes "dlv_") (codes "delivery") (e.id ∷ ep.id ∷ [])

module _ (codec : Codec) (digest : Text → Text) where
  -- the row is a new delivery of the event to the endpoint
  pub record IsDeliveryOf (now : Time) (e : Event) (ep : EndpointRow) (r : DeliveryRow)
      : Type 0 where
    pub id : r.id ≡ id_of digest e ep
    pub endpoint_id : r.endpoint_id ≡ ep.id
    pub event_id : r.event_id ≡ e.id
    pub url : r.url ≡ ep.url
    pub secret : r.secret ≡ ep.secret
    pub payload : codec.marshal e ≡ ok r.payload
    pub status : r.status ≡ DeliveryStatus.pending
    pub attempts : r.attempts ≡ 0
    pub next_attempt_at : r.next_attempt_at ≡ now
    pub last_error : r.last_error ≡ none

  pub new_delivery-IsDeliveryOf :
      (now : Time) (e : Event) (ep : EndpointRow) (payload : Text)
      → codec.marshal e ≡ ok payload
      → IsDeliveryOf now e ep (new_delivery codec digest e payload now (snapshot ep))
  unfolding new_delivery delivery_id
  new_delivery-IsDeliveryOf now e ep payload marshals = record {
    id = refl;
    endpoint_id = refl;
    event_id = refl;
    url = refl;
    secret = refl;
    payload = marshals;
    status = refl;
    attempts = refl;
    next_attempt_at = refl;
    last_error = refl;
  }

  -- the projections touch neither the subscriptions nor the outbox
  pub projected_keeps :
      (e : Event) (db d : Db)
      → projected codec digest e db ≡ ok d
      → SameSubscriptions db d × (d.webhook_deliveries ≡ db.webhook_deliveries)
  projected_keeps e db d =
      projected_frame codec digest
        (λ y. SameSubscriptions db y × (y.webhook_deliveries ≡ db.webhook_deliveries)) d e db
        (λ x. (record { tables = refl; endpoints = refl }, refl))
        (λ x. (record { tables = refl; endpoints = refl }, refl))
        (λ x. (record { tables = refl; endpoints = refl }, refl))
        (record { tables = refl; endpoints = refl }, refl)
