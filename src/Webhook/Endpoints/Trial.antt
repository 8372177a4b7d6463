-- ===== src/Webhook/Endpoints/Trial.antt =====
-- internal/webhook/endpoints.go: the delivery of a test event.
use padma.Base.{
  Bool, ◌&&◌, Option, none, some, [], ◌∷◌, ◌++◌, Text, codes, ◌==◌, first, if◌then◌else◌,
}
use padma.Errors.{Result, ok, err, reported, error_text, is, no_rows}
use padma.Database.{
  Db, World, Action, pure, query_row, statement, try, read_now, new_id, ◌>>=◌, ◌>>◌,
}
use padma.Database.Rows.{Time, EndpointRow, EventRow, DeliveryRow, DeliveryStatus}
use padma.Webhook.Endpoints.{Answer, delivery, error_answer, settled}

-- WHERE id = $1 AND active
abbrev pub is_active : Text → EndpointRow → Bool
is_active id r = r.id == id && r.active

abbrev pub same_event : Text → EventRow → Bool
same_event id r = r.id == id

abbrev pub same_delivery : Text → DeliveryRow → Bool
same_delivery id r = r.id == id

-- an INSERT with a primary key, of a row whose references are there
abbrev pub inserts : {R : Type 0} → Option R → Db → Db → Result (Unit {0}) × Db
inserts none added db = (ok tt, added)
inserts (some x) added db =
    (err (reported (codes "duplicate key value violates unique constraint")), db)

abbrev pub insert_test_event : EventRow → Db → Result (Unit {0}) × Db
insert_test_event e db =
    inserts (first (same_event e.id) db.events) (record db { events = db.events ++ e ∷ [] }) db

abbrev pub insert_test_delivery : DeliveryRow → Db → Result (Unit {0}) × Db
insert_test_delivery d db =
    inserts (first (same_delivery d.id) db.webhook_deliveries)
      (record db { webhook_deliveries = db.webhook_deliveries ++ d ∷ [] }) db

abbrev pub test_event : Text → Text → Text → Time → EventRow
test_event evt_id ep_id ping now = record {
  id = evt_id;
  event_type = codes "webhook.test";
  fiber_ref = some ep_id;
  asset = none;
  amount = none;
  payload = ping;
  occurred_at = now;
  checkpoint = 0;
}

abbrev pub test_delivery : Text → Text → Text → Text → EndpointRow → Time → DeliveryRow
test_delivery dlv_id ep_id evt_id ping ep now = record {
  id = dlv_id;
  endpoint_id = ep_id;
  event_id = evt_id;
  url = ep.url;
  secret = ep.secret;
  payload = ping;
  status = DeliveryStatus.pending;
  attempts = 0;
  next_attempt_at = now;
  last_error = none;
}

-- `marshal_ping` is json.Marshal of the type and the endpoint's id
module _ (marshal_ping : Text → Text) where
  -- from the synthetic event on
  unfoldable pub send_test : Text → EndpointRow → Action Answer
  send_test ep_id ep = do
    evt_id ← new_id
    now ← read_now
    statement (insert_test_event (test_event evt_id ep_id (marshal_ping ep_id) now))
    dlv_id ← new_id
    statement (insert_test_delivery (test_delivery dlv_id ep_id evt_id (marshal_ping ep_id) ep now))
    pure (record { status = 202; body = delivery dlv_id (codes "queued") })

  abbrev pub tested : Text → Result EndpointRow → Action Answer
  tested ep_id (ok ep) = send_test ep_id ep
  tested ep_id (err e) =
      if is e no_rows
      then pure (error_answer 404 (codes "endpoint not found"))
      else pure (error_answer 500 (error_text e))

  -- test
  unfoldable pub test : Text → World → Answer × World
  unfolding send_test
  test ep_id w =
      settled
        ((try (query_row (λ db. first (is_active ep_id) db.webhook_endpoints)) >>= tested ep_id) w)
