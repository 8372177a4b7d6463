-- ===== src/Query/Handlers.antt =====
-- internal/query/handlers.go: the parameters of a request, the call of the repository, the answer.
-- `Route` is what the router has matched.
pub mod Answers
pub mod BadRequests
use padma.Base.{
  ℕ, Bool, true, false, Option, none, some, List, [], ◌∷◌, ◌++◌, Text, codes, if◌then◌else◌,
}
use padma.Base.Int.{ℤ, pos}
use padma.Errors.{Error, Result, ok, err, error_text, is, query_not_found}
use padma.Database.{World}
use padma.Database.Rows.{Time}
use padma.Platform.Http.{Request, Response, json_response, error_response, query_int, query_time}
use padma.Platform.Fibertypes.{Fibertypes}
use padma.Platform.Columns.{Pgx}
use padma.Query.Cursor.{Cursor, TimeFormat, decode_cursor}
use padma.Query.Repo.{
  Page, Payment, Channel, Event, StatRow, PaymentFilter, ChannelFilter, EventFilter,
}
use padma.Query.Lists.{payments, payment_by_hash, channels, channel_by_id, events, stats_payments}

-- what is written as JSON
pub data Reply : Type 0 where
  payment_page : Page Payment → Reply
  one_payment : Payment → Reply
  channel_page : Page Channel → Reply
  one_channel : Channel → Reply
  event_page : Page Event → Reply
  buckets_by : Text → List StatRow → Reply

pub data Route : Type 0 where
  list_payments get_payment list_channels get_channel list_events payment_stats : Route

-- `if err != nil { httpx.Error(w, http.StatusBadRequest, …); return }`
unfoldable pub or_bad_request :
    {A : Type 0}
    → Text
    → Result A
    → (A → World → Response Reply × World)
    → World
    → Response Reply × World
or_bad_request label (ok a) go_on w = go_on a w
or_bad_request label (err e) go_on w = (error_response 400 (label ++ error_text e), w)

-- the answer to what the repository returns
unfoldable pub answered : {A : Type 0} → (A → Reply) → Result A × World → Response Reply × World
answered reply (ok a, w) = (json_response 200 (reply a), w)
answered reply (err e, w) = (error_response 500 (error_text e), w)

-- the same of a single row
unfoldable pub answered_one :
    {A : Type 0} → Text → (A → Reply) → Result A × World → Response Reply × World
answered_one missing reply (ok a, w) = (json_response 200 (reply a), w)
answered_one missing reply (err e, w) =
    if is e query_not_found
    then (error_response 404 missing, w)
    else (error_response 500 (error_text e), w)

-- `parse_rfc3339` is time.Parse with time.RFC3339
module _ (lib : Fibertypes) (pgx : Pgx) (clock : TimeFormat)
    (parse_rfc3339 : Text → Result Time) where
  abbrev pub limit_of : Request → ℤ
  limit_of r = query_int r (codes "limit") (pos 50)

  abbrev pub payment_filter : Request → Option Time → Option Time → PaymentFilter
  payment_filter r from to = record {
    direction = r.query_param (codes "direction");
    status = r.query_param (codes "status");
    asset = r.query_param (codes "asset");
    peer = r.query_param (codes "peer");
    from = from;
    to = to;
  }

  abbrev pub channel_filter : Request → ChannelFilter
  channel_filter r = record {
    state = r.query_param (codes "state");
    peer = r.query_param (codes "peer");
  }

  abbrev pub event_filter : Request → Option Time → Option Time → EventFilter
  event_filter r from to = record {
    event_type = r.query_param (codes "type");
    from = from;
    to = to;
  }

  abbrev pub with_cursor :
      Request → (Cursor → World → Response Reply × World) → World → Response Reply × World
  with_cursor r go_on =
      or_bad_request [] (decode_cursor clock (r.query_param (codes "cursor"))) go_on

  -- `from` and `to`
  abbrev pub with_times :
      Request
      → (Option Time → Option Time → World → Response Reply × World)
      → World
      → Response Reply × World
  with_times r go_on =
      or_bad_request (codes "invalid from: ") (query_time parse_rfc3339 r (codes "from")) λ from.
        or_bad_request (codes "invalid to: ") (query_time parse_rfc3339 r (codes "to"))
          λ to. go_on from to

  -- listPayments, getPayment, listChannels, getChannel, listEvents and statsPayments
  unfoldable pub serve : Route → Request → World → Response Reply × World
  serve list_payments r w =
      with_cursor r
        (λ cur. with_times r λ from to w'.
          answered payment_page
            (payments lib pgx clock (payment_filter r from to) cur (limit_of r) w'))
        w
  serve get_payment r w =
      answered_one (codes "payment not found") one_payment
        (payment_by_hash lib pgx (r.url_param (codes "payment_hash")) w)
  serve list_channels r w =
      with_cursor r
        (λ cur w'.
          answered channel_page (channels lib pgx clock (channel_filter r) cur (limit_of r) w'))
        w
  serve get_channel r w =
      answered_one (codes "channel not found") one_channel
        (channel_by_id lib pgx (r.url_param (codes "channel_id")) w)
  serve list_events r w =
      with_cursor r
        (λ cur. with_times r λ from to w'.
          answered event_page (events lib pgx clock (event_filter r from to) cur (limit_of r) w'))
        w
  serve payment_stats r w =
      with_times r
        (λ from to w'. answered (buckets_by (codes "asset")) (stats_payments lib pgx from to w')) w
