-- ===== src/Webhook/Store.antt =====
-- internal/webhook/store.go: the outbox behind kanaka's dispatcher.
use padma.Base.{
  ℕ, ◌+◌, ◌*◌, Bool, true, false, not, ◌&&◌, ◌||◌, Option, none, some, List, [], ◌∷◌, ◌++◌, map,
  Text, codes, ◌==◌, take, select, length, find, update_where, leb, if◌then◌else◌,
}
use padma.Errors.{Result, ok, err, wrapped, reported, or_wrap, ◌>>=◌ as ◌>=>◌}
use padma.Database.{Db, Action, lift, statement, exec, wrap, read_now, ◌>>=◌}
use padma.Database.Rows.{
  Time, EventRow, DeliveryRow, DeliveryLogRow, DeliveryStatus, pending, delivering, succeeded,
  failed, dead,
}

-- defaultLeaseTTL, in nanoseconds
abbrev pub lease_ttl : ℕ
lease_ttl = 5 * 60 * 1000000000

-- kanaka's webhook.Delivery
pub record Delivery : Type 0 where
  pub id : Text
  pub endpoint_id : Text
  pub event_id : Text
  pub url : Text
  pub secret : Text
  pub payload : Text
  pub attempts : ℕ
  pub next_attempt_at : Time
  pub event_type : Text

-- id in a list of ids
unfoldable pub listed : Text → List Text → Bool
listed k [] = false
listed k (x ∷ xs) = x == k || listed k xs

-- status IN ('pending', 'failed')
abbrev pub is_waiting : DeliveryStatus → Bool
is_waiting pending = true
is_waiting failed = true
is_waiting _ = false

-- … AND next_attempt_at <= now(), less the rows that FOR UPDATE SKIP LOCKED finds locked
unfoldable pub is_due : Time → List Text → DeliveryRow → Bool
is_due now locked r = is_waiting r.status && leb r.next_attempt_at now && not (listed r.id locked)

-- ORDER BY next_attempt_at
unfoldable pub insert_by_time : DeliveryRow → List DeliveryRow → List DeliveryRow
insert_by_time r [] = r ∷ []
insert_by_time r (x ∷ xs) =
    if leb r.next_attempt_at x.next_attempt_at then r ∷ x ∷ xs else x ∷ insert_by_time r xs

unfoldable pub sort_by_time : List DeliveryRow → List DeliveryRow
unfolding insert_by_time
sort_by_time [] = []
sort_by_time (r ∷ rs) = insert_by_time r (sort_by_time rs)

abbrev pub row_id : DeliveryRow → Text
row_id r = r.id

-- the subquery `c`
unfoldable pub claimable : ℕ → Time → List Text → List DeliveryRow → List Text
unfolding sort_by_time is_due
claimable limit now locked ds =
    map row_id (take limit (sort_by_time (select (is_due now locked) ds)))

-- SET status = 'delivering', next_attempt_at = now() + $2::interval
abbrev pub lease_row : Time → DeliveryRow → DeliveryRow
lease_row now r = record r { status = delivering; next_attempt_at = now + lease_ttl }

unfoldable pub lease : Time → List Text → List DeliveryRow → List DeliveryRow
lease now ids ds = update_where (λ (r : DeliveryRow). listed r.id ids) (lease_row now) ds

-- rows.Scan; the type of the event is a subquery, and NULL does not scan into a string
unfoldable pub scan_delivery : List EventRow → DeliveryRow → Result Delivery
scan_delivery events r = typed (find (λ (e : EventRow). e.id) r.event_id events)
  where
    typed : Option EventRow → Result Delivery
    typed none = err (reported (codes "cannot scan NULL into *string"))
    typed (some e) = ok (record {
      id = r.id;
      endpoint_id = r.endpoint_id;
      event_id = r.event_id;
      url = r.url;
      secret = r.secret;
      payload = r.payload;
      attempts = r.attempts;
      next_attempt_at = r.next_attempt_at;
      event_type = e.event_type;
    })

unfoldable pub scan_deliveries : List EventRow → List DeliveryRow → Result (List Delivery)
scan_deliveries events [] = ok []
scan_deliveries events (r ∷ rs) =
    or_wrap (wrapped "webhook: scan delivery: %w" []) (scan_delivery events r) >=> λ d.
    scan_deliveries events rs >=> λ out. ok (d ∷ out)

-- the UPDATE … RETURNING: the new table and the rows that were updated
unfoldable pub claim : ℕ → Time → List Text → Db → List DeliveryRow × Db
unfolding claimable lease
claim limit now locked db =
    let ids = claimable limit now locked db.webhook_deliveries in
    let ds = lease now ids db.webhook_deliveries in
    (select (λ (r : DeliveryRow). listed r.id ids) ds, record db { webhook_deliveries = ds })

-- ClaimDue. `locked` are the rows that concurrent claims hold at this moment.
unfoldable pub claim_due : List Text → ℕ → Action (List Delivery)
unfolding claim
claim_due locked limit = do
  now ← read_now
  (rows, events) ← wrap (wrapped "webhook: claim due: %w" []) (
      statement
        λ db. (ok ((claim limit now locked db).0, db.events), (claim limit now locked db).1))
  lift (scan_deliveries events rows)

abbrev pub same_id : Text → DeliveryRow → Bool
same_id id r = r.id == id

-- WITH upd AS (UPDATE … WHERE id = $1 RETURNING …) INSERT INTO webhook_delivery_log …
abbrev pub mark : Text → (DeliveryRow → DeliveryRow) → (DeliveryRow → ℕ) → Option Text → Db → Db
mark id f attempt_no error db =
    let ds = update_where (same_id id) f db.webhook_deliveries in
    record db {
      webhook_deliveries = ds;
      webhook_delivery_log =
          db.webhook_delivery_log ++ map (log_row id attempt_no error) (select (same_id id) ds);
    }
  where
    log_row : Text → (DeliveryRow → ℕ) → Option Text → DeliveryRow → DeliveryLogRow
    log_row id attempt_no error r = record {
      delivery_id = id;
      attempt_no = attempt_no r;
      error = error;
    }

abbrev pub succeed_row : DeliveryRow → DeliveryRow
succeed_row r = record r { status = succeeded }

abbrev pub fail_row : Time → Text → DeliveryRow → DeliveryRow
fail_row next_attempt message r = record r {
  attempts = r.attempts + 1;
  status = failed;
  next_attempt_at = next_attempt;
  last_error = some message;
}

abbrev pub bury_row : DeliveryRow → DeliveryRow
bury_row r = record r { attempts = r.attempts + 1; status = dead }

unfoldable pub mark_succeeded : Text → Action (Unit {0})
mark_succeeded id =
    wrap (wrapped "webhook: mark succeeded: %w" [])
      (exec (mark id succeed_row (λ r. r.attempts + 1) none))

unfoldable pub mark_failed : Text → Time → Text → Action (Unit {0})
mark_failed id next_attempt message =
    wrap (wrapped "webhook: mark failed: %w" [])
      (exec (mark id (fail_row next_attempt message) (λ r. r.attempts) (some message)))

unfoldable pub mark_dead : Text → Action (Unit {0})
mark_dead id =
    wrap (wrapped "webhook: mark dead: %w" [])
      (exec (mark id bury_row (λ r. r.attempts) (some (codes "max attempts exceeded"))))

-- status = 'delivering' AND next_attempt_at <= now()
abbrev pub is_delivering : DeliveryStatus → Bool
is_delivering delivering = true
is_delivering _ = false

unfoldable pub is_stuck : Time → DeliveryRow → Bool
is_stuck now r = is_delivering r.status && leb r.next_attempt_at now

abbrev pub rearm_row : Time → DeliveryRow → DeliveryRow
rearm_row now r = record r { status = pending; next_attempt_at = now }

-- Requeue, with the number of rows that it re-armed
unfoldable pub requeue : Action ℕ
unfolding is_stuck
requeue = do
  now ← read_now
  wrap (wrapped "webhook: requeue stuck: %w" []) (
      statement λ db. (
        ok (length (select (is_stuck now) db.webhook_deliveries)),
        record db {
          webhook_deliveries = update_where (is_stuck now) (rearm_row now) db.webhook_deliveries;
        },
      ))
