-- ===== src/Webhook/Endpoints.antt =====
-- internal/webhook/endpoints.go: the subscriptions, over HTTP.
pub mod Subscription
pub mod Trial
use padma.Base.{
  ℕ, suc, Bool, true, false, ◌&&◌, ◌||◌, Option, none, some, List, [], ◌∷◌, ◌++◌, map, Text, codes,
  ◌==◌, is_empty, eqb, leb, length, select, first, find, update_where, upsert, map_row,
  if◌then◌else◌,
}
use padma.Errors.{Error, Result, ok, err, reported, error_text, is, no_rows}
use padma.Database.{
  Db, World, Action, pure, query, query_row, statement, exec, try, read_now, new_id, ◌>>=◌, ◌>>◌,
}
use padma.Database.Rows.{Time, EndpointRow, EventRow, DeliveryRow, DeliveryStatus}
use padma.Platform.Auth.{new_webhook_secret}
use padma.Platform.Ids.{derive_with_prefix}

-- createReq
pub record CreateReq : Type 0 where
  pub url : Text
  pub event_types : List Text

-- endpointResp
pub record EndpointResp : Type 0 where
  pub id : Text
  pub url : Text
  pub secret : Text
  pub event_types : List Text
  pub active : Bool

-- what the handlers write
pub data Body : Type 0 where
  problem : Text → Body
  endpoint : EndpointResp → Body
  items : List EndpointResp → Body
  delivery : Text → Text → Body
  no_body : Body

pub record Answer : Type 0 where
  pub status : ℕ
  pub body : Body

-- httpx.Error
abbrev pub error_answer : ℕ → Text → Answer
error_answer status message = record { status = status; body = problem message }

-- an error is an internal server error
abbrev pub settled : Result Answer × World → Answer × World
settled (ok a, w) = (a, w)
settled (err e, w) = (error_answer 500 (error_text e), w)

abbrev pub endpoint_key : EndpointRow → Text
endpoint_key r = r.id

-- ON CONFLICT (id) DO UPDATE SET url, event_types, active = true
abbrev pub merge_endpoint : EndpointRow → EndpointRow → EndpointRow
merge_endpoint new old = record old { url = new.url; event_types = new.event_types; active = true }

abbrev pub put_endpoint : EndpointRow → Db → Db
put_endpoint r db = record db {
  webhook_endpoints = upsert endpoint_key (merge_endpoint r) r db.webhook_endpoints;
}

abbrev pub has_none : List Text → Bool
has_none [] = true
has_none (x ∷ xs) = false

module _ (digest : Text → Text) where
  -- id.DeriveWithPrefix("whk_", "endpoint", req.URL)
  abbrev pub url_id : Text → Text
  url_id url = derive_with_prefix digest (codes "whk_") (codes "endpoint") (url ∷ [])

  abbrev pub new_endpoint : CreateReq → Text → Time → EndpointRow
  new_endpoint req secret now = record {
    id = url_id req.url;
    url = req.url;
    secret = secret;
    event_types = req.event_types;
    active = true;
    created_at = now;
  }

  -- from the id on
  unfoldable pub subscribe : CreateReq → Action Answer
  subscribe req = do
    secret ← new_webhook_secret
    now ← read_now
    exec (put_endpoint (new_endpoint req secret now))
    pure (record {
      status = 201;
      body = endpoint (record {
        id = url_id req.url;
        url = req.url;
        secret = secret;
        event_types = req.event_types;
        active = true;
      });
    })

  -- create, of the decoded body
  unfoldable pub create : Result CreateReq → World → Answer × World
  create (err e) w = (error_answer 400 (codes "invalid body: " ++ error_text e), w)
  create (ok req) w =
      if is_empty req.url || has_none req.event_types
      then (error_answer 400 (codes "url and event_types are required"), w)
      else settled (subscribe req w)

-- ORDER BY created_at DESC
abbrev pub insert_by_age : EndpointRow → List EndpointRow → List EndpointRow
insert_by_age r [] = r ∷ []
insert_by_age r (x ∷ xs) =
    let rest = insert_by_age r xs in if leb x.created_at r.created_at then r ∷ x ∷ xs else x ∷ rest

abbrev pub sort_by_age : List EndpointRow → List EndpointRow
sort_by_age [] = []
sort_by_age (r ∷ rs) = insert_by_age r (sort_by_age rs)

-- the columns that list scans; the secret is left out
abbrev pub listed_endpoint : EndpointRow → EndpointResp
listed_endpoint r = record {
  id = r.id;
  url = r.url;
  secret = [];
  event_types = r.event_types;
  active = r.active;
}

-- list
abbrev pub listing : Action Answer
listing = query (λ db. map listed_endpoint (sort_by_age db.webhook_endpoints)) >>= λ out.
    pure (record { status = 200; body = items out })

unfoldable pub list : World → Answer × World
list w = settled (listing w)

abbrev pub same_endpoint : Text → EndpointRow → Bool
same_endpoint id r = r.id == id

-- an UPDATE with the number of rows that it changed
abbrev pub changing : {R : Type 0} → (Db → List R) → (R → Bool) → (Db → Db) → Action ℕ
changing table test f = statement (λ db. (ok (length (select test (table db))), f db))

-- 404 where no row was changed
abbrev pub unless_none : Text → Answer → ℕ → Answer
unless_none message done n = if eqb n 0 then error_answer 404 message else done

abbrev pub deactivate : Text → Db → Db
deactivate id db = record db {
  webhook_endpoints =
      update_where (same_endpoint id) (λ (r : EndpointRow). record r { active = false })
        db.webhook_endpoints;
}

-- remove
unfoldable pub remove : Text → World → Answer × World
remove id w = settled (
    (changing (λ db. db.webhook_endpoints) (same_endpoint id) (deactivate id) >>= λ n.
    pure (unless_none (codes "endpoint not found") (record { status = 204; body = no_body }) n))
      w)

abbrev pub belongs : Text → Text → DeliveryRow → Bool
belongs dlv_id ep_id r = r.id == dlv_id && r.endpoint_id == ep_id

-- SET status = 'pending', attempts = 0, next_attempt_at = now(), last_error = NULL
abbrev pub rewind : Time → DeliveryRow → DeliveryRow
rewind now r = record r {
  status = DeliveryStatus.pending;
  attempts = 0;
  next_attempt_at = now;
  last_error = none;
}

abbrev pub replay_delivery : Text → Text → Time → Db → Db
replay_delivery dlv_id ep_id now db = record db {
  webhook_deliveries = update_where (belongs dlv_id ep_id) (rewind now) db.webhook_deliveries;
}

-- replay
unfoldable pub replay : Text → Text → World → Answer × World
replay ep_id dlv_id w = settled (
    (read_now >>= λ now.
    changing (λ db. db.webhook_deliveries) (belongs dlv_id ep_id) (replay_delivery dlv_id ep_id now)
    >>= λ n. pure (
        unless_none (codes "delivery not found for endpoint")
          (record { status = 202; body = delivery dlv_id (codes "requeued") }) n))
      w)
