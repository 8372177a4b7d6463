-- ===== src/Webhook/Endpoints/Subscription.antt =====
-- What the subscription handlers leave behind: secrets, deactivation, and replayed deliveries.
use padma.Base.{
  suc, ◌≡◌, refl, ap, ◌∙◌, ◌⊎◌, inl, inr, Bool-cases, true, false, Option, none, some, List, [],
  ◌∷◌, Text, ==_iff, ==_self, is_empty, length, select, find, find-upsert, update_where, All, arith,
  if◌then◌else◌, ◌≢◌, ◌&&◌, map,
}
use padma.Errors.{ok}
use padma.Database.{Db, World, pure, exec, read_now, ◌>>=◌}
use padma.Database.Cases.{statement_cases}
use padma.Database.Rows.{Time, EndpointRow, DeliveryRow}
use padma.Indexer.Events.{Event}
use padma.Indexer.Deliveries.{EndpointSnapshot, any_equal, matches, snapshot}
use padma.Indexer.Effect.{subscribers}
use padma.Webhook.Store.{is_due, listed}
use padma.Platform.Auth.{drawn_hex, rand_hex, new_webhook_secret}
use padma.Webhook.Endpoints.{
  CreateReq, Answer, endpoint, settled, endpoint_key, merge_endpoint, put_endpoint, has_none,
  url_id, new_endpoint, subscribe, create, same_endpoint, deactivate, remove, belongs, rewind,
  replay_delivery, replay,
}

module _ (digest : Text → Text) where
  -- the answer to a subscription that the database took, and the database that it left
  abbrev pub Subscribed : CreateReq → World → Answer × World → Type 0
  Subscribed req w r =
      (r.0.status ≡ 201)
      × (r.0.body
          ≡ endpoint (record {
            id = url_id digest req.url;
            url = req.url;
            secret = drawn_hex w;
            event_types = req.event_types;
            active = true;
          }))
      × (r.1.db ≡ put_endpoint (new_endpoint digest req (drawn_hex w) w.now) w.db)

  subscribe_cases :
      (req : CreateReq) (w : World)
      → Subscribed req w (settled (subscribe digest req w))
        ⊎ ((settled (subscribe digest req w)).0.status ≡ 500)
          × ((settled (subscribe digest req w)).1.db ≡ w.db)
  unfolding subscribe new_webhook_secret rand_hex read_now ◌>>=◌ exec pure
  subscribe_cases req w =
      let v = record w { drawn = suc w.drawn } in
      let (rest, fared) =
        statement_cases
          (λ db. (ok tt, put_endpoint (new_endpoint digest req (drawn_hex w) w.now) db)) v in
      elim fared [ inl e ↦ rw e (inl (refl, refl, refl)) | inr (m, e) ↦ rw e (inr (refl, refl)) ]

  module _ (req : CreateReq) (w : World) (has_url : is_empty req.url ≡ false)
      (has_types : has_none req.event_types ≡ false) where
    abbrev pub created_again : Answer × World
    created_again = create digest (ok req) w

    created_valid : created_again ≡ settled (subscribe digest req w)
    unfolding create
    created_valid = rw (has_url, has_types) refl

    -- the row that is found under the id of the URL afterwards
    found_after :
        (stored : Option EndpointRow)
        → find endpoint_key (url_id digest req.url) w.db.webhook_endpoints ≡ stored
        → find endpoint_key
            (url_id digest req.url)
            (put_endpoint (new_endpoint digest req (drawn_hex w) w.now) w.db).webhook_endpoints
          ≡ some (elim stored [
            | none ↦ new_endpoint digest req (drawn_hex w) w.now
            | some ep ↦ merge_endpoint (new_endpoint digest req (drawn_hex w) w.now) ep
          ])
    found_after stored h =
        find-upsert endpoint_key (merge_endpoint (new_endpoint digest req (drawn_hex w) w.now))
          (λ x. refl) (url_id digest req.url) (new_endpoint digest req (drawn_hex w) w.now)
          w.db.webhook_endpoints
        ∙ rw (==_self (url_id digest req.url), h) refl

    -- A second subscription of a URL answers with a secret that is not stored: where the id of the
    -- URL has a row, the request fails and leaves the database as it is, or it answers with the
    -- secret that it has just drawn, and the row has the secret that it had.
    pub create_again :
        (ep : EndpointRow)
        → find endpoint_key (url_id digest req.url) w.db.webhook_endpoints ≡ some ep
        → ((created_again.0.status ≡ 500) × (created_again.1.db ≡ w.db))
          ⊎ ((created_again.0.body
                ≡ endpoint (record {
                  id = url_id digest req.url;
                  url = req.url;
                  secret = drawn_hex w;
                  event_types = req.event_types;
                  active = true;
                }))
              × (find endpoint_key (url_id digest req.url) created_again.1.db.webhook_endpoints
                  ≡ some
                      (record ep { url = req.url; event_types = req.event_types; active = true })))
    create_again ep there = rw created_valid (elim (subscribe_cases req w) [
      | inl (_, answer, stored) ↦ inr (
        answer,
        ap (λ (d : Db). find endpoint_key (url_id digest req.url) d.webhook_endpoints) stored
            ∙ found_after (some ep) there,
      )
      | inr failed ↦ inl failed
    ])

All-deactivated :
    (id : Text) (eps : List EndpointRow)
    → All
        (λ (r : EndpointRow). r.id ≡ id → r.active ≡ false)
        (update_where (same_endpoint id) (λ (r : EndpointRow). record r { active = false }) eps)
unfolding update_where
All-deactivated id [] = tt
All-deactivated id (ep ∷ eps) =
    ((λ same. ground (arith, ==_iff ep.id id, same)), All-deactivated id eps)

-- where no row of the id is active, no event goes to the id
none_subscribed :
    (id event_type : Text) (eps : List EndpointRow)
    → All (λ (r : EndpointRow). r.id ≡ id → r.active ≡ false) eps
    → All (λ (ep : EndpointSnapshot). ep.id ≢ id) (map snapshot (select (matches event_type) eps))
unfolding matches
none_subscribed id event_type [] h = tt
none_subscribed id event_type (ep ∷ eps) h =
    elim (Bool-cases (ep.active && any_equal event_type ep.event_types)) [
      | inl e ↦ rw e ((λ same. ground (arith, h.0 same)), none_subscribed id event_type eps h.1)
      | inr e ↦ rw e (none_subscribed id event_type eps h.1)
    ]

none_among :
    (id : Text) (e : Event) (db : Db)
    → All (λ (r : EndpointRow). r.id ≡ id → r.active ≡ false) db.webhook_endpoints
    → All (λ (ep : EndpointSnapshot). ep.id ≢ id) (subscribers e db)
unfolding subscribers
none_among id e db h = elim (Bool-cases db.has_webhook_tables) [
  | inl there ↦ rw there (none_subscribed id e.event_type db.webhook_endpoints h)
  | inr absent ↦ rw absent tt
]

-- A removal deactivates: after the answer 204 no row of the id is active, and on the database that
-- it left no event has a subscriber of the id. Deliveries that are in the outbox already stay.
pub remove_deactivates :
    (id : Text) (w : World)
    → (remove id w).0.status ≡ 204
    → All (λ (r : EndpointRow). r.id ≡ id → r.active ≡ false) (remove id w).1.db.webhook_endpoints
      × ((e : Event)
          → All (λ (ep : EndpointSnapshot). ep.id ≢ id) (subscribers e (remove id w).1.db))
      × ((remove id w).1.db.webhook_deliveries ≡ w.db.webhook_deliveries)
unfolding remove ◌>>=◌ pure
remove_deactivates id w =
    let (rest, fared) =
      statement_cases
        (λ db. (ok (length (select (same_endpoint id) db.webhook_endpoints)), deactivate id db))
        w in
    elim fared [
      | inl e ↦ rw e (λ h.
          let off = All-deactivated id w.db.webhook_endpoints in
          (off, (λ e. none_among id e (deactivate id w.db) off), refl))
      | inr (m, e) ↦ rw e (λ h. absurd (omega (arith, h)))
    ]

due_again :
    (dlv_id ep_id : Text) (now : Time) (d : DeliveryRow)
    → belongs dlv_id ep_id (if belongs dlv_id ep_id d then rewind now d else d) ≡ true
    → is_due now [] (if belongs dlv_id ep_id d then rewind now d else d) ≡ true
unfolding is_due listed
due_again dlv_id ep_id now d = elim (Bool-cases (belongs dlv_id ep_id d)) [
  | inl e ↦ rw e (λ h. ground arith)
  | inr e ↦ rw e (λ h. absurd (cc (e, h)))
]

All-due :
    (dlv_id ep_id : Text) (now : Time) (ds : List DeliveryRow)
    → All
        (λ (r : DeliveryRow). belongs dlv_id ep_id r ≡ true → is_due now [] r ≡ true)
        (update_where (belongs dlv_id ep_id) (rewind now) ds)
unfolding update_where
All-due dlv_id ep_id now [] = tt
All-due dlv_id ep_id now (d ∷ ds) = (due_again dlv_id ep_id now d, All-due dlv_id ep_id now ds)

-- A delivery that was replayed is due: after the answer 202 every row of its id and its endpoint may
-- be claimed at once, whatever its state was.
pub replay_due :
    (ep_id dlv_id : Text) (w : World)
    → (replay ep_id dlv_id w).0.status ≡ 202
    → All
        (λ (r : DeliveryRow). belongs dlv_id ep_id r ≡ true → is_due w.now [] r ≡ true)
        (replay ep_id dlv_id w).1.db.webhook_deliveries
unfolding replay ◌>>=◌ pure read_now
replay_due ep_id dlv_id w =
    let (rest, fared) =
      statement_cases
        (λ db. (
          ok (length (select (belongs dlv_id ep_id) db.webhook_deliveries)),
          replay_delivery dlv_id ep_id w.now db,
        ))
        w in
    elim fared [
      | inl e ↦ rw e (λ h. All-due dlv_id ep_id w.now w.db.webhook_deliveries)
      | inr (m, e) ↦ rw e (λ h. absurd (omega (arith, h)))
    ]
