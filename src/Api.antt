-- ===== src/Api.antt =====
-- internal/apiserver/server.go: the HTTP API of all features. `Route` is what the router has matched,
-- with the parameters of the path in the request.
use padma.Base.{Bool, true, false, Text, codes}
use padma.Errors.{Result}
use padma.Database.{World}
use padma.Database.Rows.{Time}
use padma.Platform.Http.{Request, Response}
use padma.Query.Cursor.{TimeFormat}
use padma.Query.Handlers as Query
use padma.Webhook.Endpoints.{CreateReq, Answer, create, list, remove, replay}
use padma.Webhook.Endpoints.Trial.{test}
use padma.Merchant.Handlers as Merchant
pub mod Reads

pub data Route : Type 0 where
  healthz : Route
  on_query : Query.Route → Route
  -- the Routes of EndpointHandler
  create_webhook list_webhooks remove_webhook test_webhook replay_webhook : Route
  on_merchant : Merchant.Route → Route

pub data Reply : Type 0 where
  healthy : Reply
  from_query : Response Query.Reply → Reply
  from_webhook : Answer → Reply
  from_merchant : Response Merchant.Reply → Reply

-- the libraries and formats of every feature
pub record Libraries : Type 1 where
  pub merchant : Merchant.Outside
  pub clock : TimeFormat
  pub parse_rfc3339 : Text → Result Time
  pub digest : Text → Text
  pub decode_webhook : Text → Result CreateReq
  pub marshal_ping : Text → Text

abbrev pub replied : {A : Type 0} → (A → Reply) → A × World → Reply × World
replied reply (a, w) = (reply a, w)

-- Router
unfoldable pub serve : Libraries → Route → Request → World → Reply × World
serve libs healthz r w = (healthy, w)
serve libs (on_query route) r w =
    replied from_query
      (Query.serve libs.merchant.lib libs.merchant.pgx libs.clock libs.parse_rfc3339 route r w)
serve libs create_webhook r w =
    replied from_webhook (create libs.digest (libs.decode_webhook r.body) w)
serve libs list_webhooks r w = replied from_webhook (list w)
serve libs remove_webhook r w = replied from_webhook (remove (r.url_param (codes "id")) w)
serve libs test_webhook r w =
    replied from_webhook (test libs.marshal_ping (r.url_param (codes "id")) w)
serve libs replay_webhook r w =
    replied from_webhook (replay (r.url_param (codes "id")) (r.url_param (codes "delivery_id")) w)
serve libs (on_merchant route) r w = replied from_merchant (Merchant.serve libs.merchant route r w)
