-- ===== src/Webhook/Recovery.antt =====
-- No delivery is lost with its worker: the sweep re-arms it, and a claim takes it.
use padma.Base.{
  length-select-le, length-update_where, ℕ, ◌≤◌, ◌+◌, ◌≡◌, refl, ap, ◌∙◌, Bool, true, ◌||◌, some,
  List, [], ◌∷◌, map, Text, ◌==◌, ==_iff, length, take_all, select, find, find-update_where,
  key_of_find, update_where, map_row, arith, if◌then◌else◌, All, All-imp, All-select,
  All-update_where,
}
use padma.Errors.{ok}
use padma.Database.{World, ◌>>=◌, wrap, statement, attempt, read_now, lift}
use padma.Database.Rows.{Time, EventRow, DeliveryRow}
use padma.Webhook.Store.{
  Delivery, listed, is_due, is_stuck, insert_by_time, sort_by_time, claimable, claim, claim_due,
  lease, lease_row, rearm_row, requeue, row_id, scan_delivery, scan_deliveries,
}

module _ (k : Text) where
  -- the delivery is among the rows
  abbrev among : List DeliveryRow → Bool
  among rs = listed k (map row_id rs)

  select-among :
      (test : DeliveryRow → Bool) (r : DeliveryRow) (ds : List DeliveryRow)
      → find row_id k ds ≡ some r
      → test r ≡ true
      → among (select test ds) ≡ true
  unfolding find listed
  select-among test r [] there h = absurd (cc)
  select-among test r (y ∷ ds) there h = ground (arith, select-among test r ds, ==_iff y.id k)

  insert_by_time-among :
      (r : DeliveryRow) (rs : List DeliveryRow)
      → among (insert_by_time r rs) ≡ (r.id == k || among rs)
  unfolding insert_by_time listed
  insert_by_time-among r [] = ground arith
  insert_by_time-among r (y ∷ rs) = ground (arith, insert_by_time-among r rs)

  sort_by_time-among : (rs : List DeliveryRow) → among (sort_by_time rs) ≡ among rs
  unfolding sort_by_time listed
  sort_by_time-among [] = refl
  sort_by_time-among (r ∷ rs) =
      ground (arith, insert_by_time-among r (sort_by_time rs), sort_by_time-among rs)

length-insert_by_time :
    (r : DeliveryRow) (rs : List DeliveryRow) → length (insert_by_time r rs) ≡ length rs + 1
unfolding insert_by_time
length-insert_by_time r [] = omega arith
length-insert_by_time r (y ∷ rs) = ground (arith, length-insert_by_time r rs)

length-sort_by_time : (rs : List DeliveryRow) → length (sort_by_time rs) ≡ length rs
unfolding sort_by_time
length-sort_by_time [] = refl
length-sort_by_time (r ∷ rs) =
    omega (arith, length-insert_by_time r (sort_by_time rs), length-sort_by_time rs)

-- A due delivery that nobody has locked is claimed, where the limit is not below the outbox.
due_claimable :
    (k : Text) (limit : ℕ) (now : Time) (r : DeliveryRow) (ds : List DeliveryRow)
    → find row_id k ds ≡ some r
    → is_due now [] r ≡ true
    → length ds ≤ limit
    → listed k (claimable limit now [] ds) ≡ true
unfolding claimable
due_claimable k limit now r ds there due fits =
    let rs = select (is_due now []) ds in
    ap (λ (l : List DeliveryRow). listed k (map row_id l))
      (take_all limit (sort_by_time rs)
        (omega (arith, length-sort_by_time rs, length-select-le (is_due now []) ds)))
    ∙ sort_by_time-among k rs
    ∙ select-among k (is_due now []) r ds there due

-- the event of a delivery is in the table of events (a foreign key of the schema)
abbrev HasEvent : List EventRow → DeliveryRow → Type 0
HasEvent events r = (e : EventRow) × (find (λ (x : EventRow). x.id) r.event_id events ≡ some e)

-- the ids of the deliveries that were read
abbrev Scanned : List EventRow → List DeliveryRow → Type 0
Scanned events rs =
    (out : List Delivery) × (scan_deliveries events rs ≡ ok out)
    × (map (λ (d : Delivery). d.id) out ≡ map row_id rs)

scan_deliveries-Scanned :
    (events : List EventRow) (rs : List DeliveryRow) → All (HasEvent events) rs → Scanned events rs
unfolding scan_deliveries scan_delivery
scan_deliveries-Scanned events [] h = ([], refl, refl)
scan_deliveries-Scanned events (r ∷ rs) ((e, there), h) =
    let (out, scans, ids) = scan_deliveries-Scanned events rs h in
    rw (there, scans) (_ ∷ out, refl, ap (λ (l : List Text). r.id ∷ l) ids)

module _ (k : Text) (r : DeliveryRow) (ds : List DeliveryRow)
    (there : find row_id k ds ≡ some r) where
  -- what the sweep re-armed is due from then on
  rearmed_due :
      (now later : Time)
      → is_stuck now r ≡ true
      → now ≤ later
      → is_due later [] (if is_stuck now r then rearm_row now r else r) ≡ true
  unfolding is_due listed
  rearmed_due now later stuck h = rw stuck (ground arith)

  rearmed_there :
      (now : Time)
      → find row_id k (update_where (is_stuck now) (rearm_row now) ds)
        ≡ some (if is_stuck now r then rearm_row now r else r)
  rearmed_there now =
      find-update_where row_id (is_stuck now) (rearm_row now) (λ x. refl) k ds
      ∙ ap (map_row (λ x. if is_stuck now x then rearm_row now x else x)) there

-- a lease keeps the ids, so that what was named is among the rows that come back
claim-among :
    (k : Text) (now : Time) (ids : List Text) (r : DeliveryRow) (ds : List DeliveryRow)
    → find row_id k ds ≡ some r
    → listed k ids ≡ true
    → among k (select (λ (x : DeliveryRow). listed x.id ids) (lease now ids ds)) ≡ true
unfolding lease
claim-among k now ids r ds there named =
    let leased = (if listed r.id ids then lease_row now r else r) in
    select-among k (λ (x : DeliveryRow). listed x.id ids) leased (lease now ids ds)
      (find-update_where row_id (λ (x : DeliveryRow). listed x.id ids) (lease_row now) (λ x. refl) k
          ds
        ∙ ap (map_row (λ (x : DeliveryRow). if listed x.id ids then lease_row now x else x)) there)
      (ground (arith, named, key_of_find row_id k r ds there))

-- neither the sweep nor a lease changes whose event a delivery carries
claim-HasEvent :
    (events : List EventRow) (now later : Time) (ids : List Text) (ds : List DeliveryRow)
    → All (HasEvent events) ds
    → All (HasEvent events) (
        select
          (λ (x : DeliveryRow). listed x.id ids)
          (lease later ids (update_where (is_stuck now) (rearm_row now) ds)))
unfolding lease
claim-HasEvent events now later ids ds h =
    All-imp (λ (r : DeliveryRow). HasEvent events r × (listed r.id ids ≡ true)) (HasEvent events)
      (λ r g. g.0) _
      (All-select (HasEvent events) (λ (x : DeliveryRow). listed x.id ids) _
        (All-update_where (λ (x : DeliveryRow). listed x.id ids) (lease_row later) (HasEvent events)
          (λ r e g. g) _
          (All-update_where (is_stuck now) (rearm_row now) (HasEvent events) (λ r e g. g) ds h)))

-- Where an outbox of at most `limit` deliveries has one whose lease is up, and each delivery has its
-- event, then after a Requeue a later ClaimDue returns that delivery, where no statement fails and
-- no row is locked meanwhile.
pub stranded_claimed :
    (k : Text) (limit : ℕ) (later : Time) (r : DeliveryRow) (w : World)
    → All (HasEvent w.db.events) w.db.webhook_deliveries
    → length w.db.webhook_deliveries ≤ limit
    → find row_id k w.db.webhook_deliveries ≡ some r
    → is_stuck w.now r ≡ true
    → w.now ≤ later
    → (out : List Delivery) × ((claim_due [] limit
          (record (requeue (record w { faults = [] })).1 { now = later })).0
        ≡ ok out)
      × (listed k (map (λ (d : Delivery). d.id) out) ≡ true)
unfolding claim_due requeue ◌>>=◌ wrap statement attempt read_now lift claim
stranded_claimed k limit later r w events fits there stuck waited =
    let ds = update_where (is_stuck w.now) (rearm_row w.now) w.db.webhook_deliveries in
    let rearmed = (if is_stuck w.now r then rearm_row w.now r else r) in
    let found = rearmed_there k r w.db.webhook_deliveries there w.now in
    let due = rearmed_due k r w.db.webhook_deliveries there w.now later stuck waited in
    let ids = claimable limit later [] ds in
    let named = due_claimable k limit later rearmed ds found due (
      omega
        (arith, length-update_where (is_stuck w.now) (rearm_row w.now) w.db.webhook_deliveries)) in
    let claimed = claim-among k later ids rearmed ds found named in
    let (out, scans, same) =
      scan_deliveries-Scanned w.db.events _
        (claim-HasEvent w.db.events w.now later ids w.db.webhook_deliveries events) in
    (out, scans, ap (listed k) same ∙ claimed)
