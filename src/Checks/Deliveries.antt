-- ===== src/Checks/Deliveries.antt =====
-- The outbox of internal/webhook/store.go on concrete rows.
use padma.Base.{
  ◌≢◌, IsUnique, length, ◌≤◌, some, none, find, All, ◌⊎◌, false, ◌≡◌, refl, true, false, List, [],
  ◌∷◌, codes, map, ◌==◌, update_where, arith,
}
use padma.Errors.{ok}
use padma.Database.Rows.{DeliveryRow, EventRow, delivering, EndpointRow}
use padma.Webhook.Store.{
  Delivery, claim_due, requeue, is_due, claimable, lease, listed, is_stuck, rearm_row, claim,
  row_id,
}
use padma.Webhook.Recovery.{stranded_claimed}
use padma.Indexer.Events.{Event}
use padma.Indexer.Deliveries.{EndpointSnapshot}
use padma.Indexer.Effect.{subscribers}
use padma.Webhook.Due.{Handed, claim-Handed}
use padma.Webhook.Claims.{claims, requeues, stop, next, claimed_once}
use padma.Base.Int.{pos}
use padma.Database.{World, pure, read_now, statement, attempt, ◌>>=◌}
use padma.Webhook.Backoff.{exp_jitter, Jitters, target, exp_jitter-Jitters, double, at_least}
use padma.Platform.Auth.{encode_to_string}
use padma.Webhook.Endpoints.{
  CreateReq, create, endpoint, endpoint_key, url_id, remove, replay, belongs,
}
use padma.Webhook.Endpoints.Subscription.{create_again, remove_deactivates, replay_due}
use padma.Platform.Ids.{derive_with_prefix, derive, derive_input}
use padma.Checks.Samples.{
  due_delivery, later_delivery, endpoint as shop_endpoint, database, world, digest,
}

abbrev outbox : List DeliveryRow
outbox = later_delivery ∷ due_delivery ∷ []

claimable_test : claimable 10 50 [] outbox ≡ codes "dlv_1" ∷ []
unfolding claimable listed ◌==◌
claimable_test = refl

claimable_limit_test : claimable 1 1000 [] outbox ≡ codes "dlv_1" ∷ []
unfolding claimable listed ◌==◌
claimable_limit_test = refl

abbrev leased : List DeliveryRow
leased = lease 50 (claimable 10 50 [] outbox) outbox

got_test : listed (codes "dlv_1") (claimable 10 50 [] outbox) ≡ true
unfolding claimable listed ◌==◌
got_test = refl

-- the sweeper, and another worker that claims the second delivery meanwhile
abbrev swept : List DeliveryRow
swept = update_where (is_stuck 60) (rearm_row 60) leased

abbrev shared : List DeliveryRow
shared = lease 1000 (claimable 10 1000 [] swept) swept

claimed_once_example : listed (codes "dlv_1") (claimable 10 2000 [] shared) ≡ false
claimed_once_example =
    claimed_once (codes "dlv_1") 10 10 50 2000 [] [] outbox shared got_test
      (next (next stop (requeues 60 leased (omega arith))) (claims 10 1000 [] swept (omega arith)))

backoff_test : exp_jitter (pos 1000) (pos 60000) 7 4 ≡ pos 4007
unfolding exp_jitter double at_least
backoff_test = refl

backoff_cap_test : exp_jitter (pos 1000) (pos 60000) 0 70 ≡ pos 30000
unfolding exp_jitter double at_least
backoff_cap_test = refl

exp_jitter-Jitters_example : Jitters (target 1000 60000 3) (exp_jitter (pos 1000) (pos 60000) 7 4)
exp_jitter-Jitters_example = exp_jitter-Jitters 1000 60000 7 4 (omega arith) (omega arith)

abbrev request : CreateReq
request = record { url = codes "http://shop"; event_types = codes "invoice.paid" ∷ [] }

-- the endpoint is there, under the id of its URL
abbrev known : EndpointRow
known = record shop_endpoint { id = url_id digest (codes "http://shop") }

abbrev subscribed : World
subscribed = record world { db = record database { webhook_endpoints = known ∷ [] } }

known_test :
    find endpoint_key (url_id digest (codes "http://shop")) subscribed.db.webhook_endpoints
    ≡ some known
unfolding find ◌==◌ derive_with_prefix derive derive_input
known_test = refl

create_again_example :
    (((create digest (ok request) subscribed).0.status ≡ 500)
      × ((create digest (ok request) subscribed).1.db ≡ subscribed.db))
    ⊎ (((create digest (ok request) subscribed).0.body
          ≡ endpoint (record {
            id = url_id digest (codes "http://shop");
            url = codes "http://shop";
            secret = codes "6b00";
            event_types = codes "invoice.paid" ∷ [];
            active = true;
          }))
        × (find endpoint_key
              (url_id digest (codes "http://shop"))
              (create digest (ok request) subscribed).1.db.webhook_endpoints
            ≡ some (record known { event_types = codes "invoice.paid" ∷ [] })))
create_again_example =
    unfold encode_to_string in create_again digest request subscribed refl refl known known_test

removed_test : (remove (codes "whk_1") world).0.status ≡ 204
unfolding remove ◌>>=◌ statement pure ◌==◌ attempt
removed_test = refl

remove_deactivates_example :
    All
      (λ (r : EndpointRow). r.id ≡ codes "whk_1" → r.active ≡ false)
      (remove (codes "whk_1") world).1.db.webhook_endpoints
    × ((e : Event)
        → All
            (λ (ep : EndpointSnapshot). ep.id ≢ codes "whk_1")
            (subscribers e (remove (codes "whk_1") world).1.db))
    × ((remove (codes "whk_1") world).1.db.webhook_deliveries ≡ world.db.webhook_deliveries)
remove_deactivates_example = remove_deactivates (codes "whk_1") world removed_test

replayed_test : (replay (codes "whk_1") (codes "dlv_2") world).0.status ≡ 202
unfolding replay ◌>>=◌ statement pure ◌==◌ read_now attempt
replayed_test = refl

replay_due_example :
    All
      (λ (r : DeliveryRow).
        belongs (codes "dlv_2") (codes "whk_1") r ≡ true → is_due 50 [] r ≡ true)
      (replay (codes "whk_1") (codes "dlv_2") world).1.db.webhook_deliveries
replay_due_example = replay_due (codes "whk_1") (codes "dlv_2") world replayed_test

abbrev paid_row : EventRow
paid_row = record {
  id = codes "e1";
  event_type = codes "invoice.paid";
  fiber_ref = some (codes "0x01");
  asset = none;
  amount = none;
  payload = codes "{}";
  occurred_at = 41;
  checkpoint = 3;
}

-- a worker has stopped with the delivery in its hands, and the lease is up
abbrev stranded : World
stranded = record world {
  db = record database {
    events = paid_row ∷ [];
    webhook_deliveries = record due_delivery { status = delivering } ∷ [];
  };
}

stranded_claimed_example :
    (out : List Delivery) × ((claim_due [] 10
        (record (requeue (record stranded { faults = [] })).1 { now = 80 })).0
      ≡ ok out)
    × (listed (codes "dlv_1") (map (λ (d : Delivery). d.id) out) ≡ true)
unfolding find ◌==◌ is_stuck
stranded_claimed_example =
    stranded_claimed (codes "dlv_1") 10 80 (record due_delivery { status = delivering }) stranded
      ((paid_row, refl), tt) (omega arith) refl refl (omega arith)

-- the database refuses the first tick
abbrev refusing : World
refusing = record stranded { faults = some (codes "timeout") ∷ [] }

database-IsUnique : IsUnique row_id database.webhook_deliveries
unfolding find ◌==◌
database-IsUnique = (refl, (refl, tt))

claim-Handed_example :
    (length (claim 10 50 [] database).0 ≤ 10)
    × All (Handed 50 [] database.webhook_deliveries) (claim 10 50 [] database).0
claim-Handed_example = claim-Handed 10 50 [] database database-IsUnique
