-- ===== src/Webhook/Due.antt =====
-- What a claim hands out: rows that were due, each leased.
use padma.Base.{
  length-map, length-take, ℕ, ◌+◌, ◌≤◌, ◌||◌, length, update_where-IsUnique, ◌≡◌, refl, sym, ap,
  ◌∙◌, true, none, some, List, [], ◌∷◌, map, Text, ◌==◌, ==_iff, ==_self, All, All-imp, inl, inr,
  Bool-cases, IsUnique, find, take, select, update_where, if◌then◌else◌, arith, ◌⊎◌, ◌≢◌, false,
}
use padma.Database.{Db}
use padma.Database.Rows.{Time, DeliveryRow, DeliveryStatus}
use padma.Webhook.Store.{
  listed, is_waiting, is_due, sort_by_time, claimable, claim, lease, lease_row, row_id,
}
use padma.Webhook.Claims.{All-chosen, chosen}

module _ (now : Time) (locked : List Text) (ds : List DeliveryRow) where
  -- the row in the table is due
  abbrev Due : DeliveryRow → Type 0
  Due x = (find row_id x.id ds ≡ some x) × (is_due now locked x ≡ true)

  -- an id that was chosen belongs to a row that is due
  listed-Due :
      (k : Text) (rs : List DeliveryRow)
      → All Due rs
      → listed k (map row_id rs) ≡ true
      → (x : DeliveryRow) × (find row_id k ds ≡ some x) × (is_due now locked x ≡ true)
  unfolding listed
  listed-Due k [] h e = absurd (cc)
  listed-Due k (r ∷ rs) h e = elim (Bool-cases (r.id == k)) [
    | inl is_k ↦
        (r, ap (λ (i : Text). find row_id i ds) (sym ((==_iff r.id k).0 is_k)) ∙ h.0.0, h.0.1)
    | inr other ↦ listed-Due k rs h.1 (rw other at e)
  ]

-- a row of a table with unique keys is the one that its key finds
All-found :
    (ds : List DeliveryRow)
    → IsUnique row_id ds
    → All (λ (x : DeliveryRow). find row_id x.id ds ≡ some x) ds
unfolding find
All-found [] u = tt
All-found (r ∷ ds) u = (rw (==_self r.id) refl, All-imp _ _ further ds (All-found ds u.1))
  where
    further :
        (x : DeliveryRow)
        → find row_id x.id ds ≡ some x
        → (if r.id == x.id then some r else find row_id x.id ds) ≡ some x
    further x there = elim (Bool-cases (r.id == x.id)) [
      | inl same ↦
          absurd (cc (ap (λ (i : Text). find row_id i ds) ((==_iff r.id x.id).0 same), u.0, there))
      | inr other ↦ rw other there
    ]

module _ (now : Time) (locked : List Text) (limit : ℕ) (ds : List DeliveryRow)
    (unique : IsUnique row_id ds) where
  chosen-Due : All (Due now locked ds) (chosen limit now locked ds)
  chosen-Due = All-chosen _ limit now locked ds (All-found ds unique)

  -- a row that is there, and is named, is due
  named-due :
      (x : DeliveryRow)
      → find row_id x.id ds ≡ some x
      → listed x.id (claimable limit now locked ds) ≡ true
      → is_due now locked x ≡ true
  unfolding claimable
  named-due x there named =
      let (y, found, due) =
        listed-Due now locked ds x.id (chosen limit now locked ds) chosen-Due named in
      cc (there, found, due)

-- the row was there, waited for a time that has come, and is in no concurrent claim; it comes back
-- as being delivered, and not to be tried again for five minutes
abbrev pub Handed : Time → List Text → List DeliveryRow → DeliveryRow → Type 0
Handed now locked ds r =
    (x : DeliveryRow) × (find row_id r.id ds ≡ some x)
    × ((x.status ≡ DeliveryStatus.pending) ⊎ (x.status ≡ DeliveryStatus.failed))
    × (x.next_attempt_at ≤ now)
    × All (λ (i : Text). i ≢ x.id) locked
    × (r ≡ record x { status = DeliveryStatus.delivering; next_attempt_at = now + 300000000000 })

waiting_cases :
    (s : DeliveryStatus)
    → is_waiting s ≡ true
    → (s ≡ DeliveryStatus.pending) ⊎ (s ≡ DeliveryStatus.failed)
waiting_cases DeliveryStatus.pending h = inl refl
waiting_cases DeliveryStatus.failed h = inr refl
waiting_cases DeliveryStatus.delivering h = absurd (cc)
waiting_cases DeliveryStatus.succeeded h = absurd (cc)
waiting_cases DeliveryStatus.dead h = absurd (cc)

listed-All : (k : Text) (ids : List Text) → listed k ids ≡ false → All (λ (i : Text). i ≢ k) ids
unfolding listed
listed-All k [] h = tt
listed-All k (i ∷ ids) h = elim (Bool-cases (i == k)) [
  | inl same ↦ absurd (cc (rw same at h))
  | inr other ↦ (λ same. cc (other, (==_iff i k).1 same), listed-All k ids (rw other at h))
]

due_parts :
    (now : Time) (locked : List Text) (x : DeliveryRow)
    → is_due now locked x ≡ true
    → (is_waiting x.status ≡ true) × (x.next_attempt_at ≤ now) × (listed x.id locked ≡ false)
unfolding is_due
due_parts now locked x h = (ground arith, ground arith, ground arith)

due-Handed :
    (now : Time) (locked : List Text) (ds : List DeliveryRow) (x : DeliveryRow)
    → find row_id x.id ds ≡ some x
    → is_due now locked x ≡ true
    → Handed now locked ds (lease_row now x)
due-Handed now locked ds x there due =
    let (waits, come, free) = due_parts now locked x due in
    (x, there, waiting_cases x.status waits, come, listed-All x.id locked free, refl)

module _ (now : Time) (locked ids : List Text) (ds : List DeliveryRow)
    (due : (x : DeliveryRow)
      → find row_id x.id ds ≡ some x
      → listed x.id ids ≡ true
      → is_due now locked x ≡ true) where
  -- the rows of a part of the table that come back
  leased-Handed :
      (es : List DeliveryRow)
      → All (λ (x : DeliveryRow). find row_id x.id ds ≡ some x) es
      → All
          (Handed now locked ds)
          (select (λ (r : DeliveryRow). listed r.id ids) (lease now ids es))
  unfolding lease update_where
  leased-Handed [] h = tt
  leased-Handed (x ∷ es) h = elim (Bool-cases (listed x.id ids)) [
    | inl e ↦ rw (e, e) (due-Handed now locked ds x h.0 (due x h.0 e), leased-Handed es h.1)
    | inr e ↦ rw (e, e) (leased-Handed es h.1)
  ]

module _ (i : Text) where
  none_named :
      (ds : List DeliveryRow)
      → find row_id i ds ≡ none
      → length (select (λ (r : DeliveryRow). i == r.id) ds) ≡ 0
  unfolding find
  none_named [] h = refl
  none_named (r ∷ ds) h = ground (arith, none_named ds, ==_iff r.id i, ==_iff i r.id)

  one_named :
      (ds : List DeliveryRow)
      → IsUnique row_id ds
      → length (select (λ (r : DeliveryRow). i == r.id) ds) ≤ 1
  one_named [] u = omega arith
  one_named (r ∷ ds) u = elim (Bool-cases (i == r.id)) [
    | inl same ↦ rw same (
        omega (
          arith,
          none_named ds (ap (λ (k : Text). find row_id k ds) ((==_iff i r.id).0 same) ∙ u.0),
        ))
    | inr other ↦ rw other (one_named ds u.1)
  ]

  one_more :
      (ids : List Text) (ds : List DeliveryRow)
      → length (select (λ (r : DeliveryRow). i == r.id || listed r.id ids) ds)
        ≤ length (select (λ (r : DeliveryRow). i == r.id) ds)
          + length (select (λ (r : DeliveryRow). listed r.id ids) ds)
  one_more ids [] = omega arith
  one_more ids (r ∷ ds) = ground (arith, one_more ids ds)

-- unique rows whose ids are in a list are at most as many as the list is long
named_few :
    (ids : List Text) (ds : List DeliveryRow)
    → IsUnique row_id ds
    → length (select (λ (r : DeliveryRow). listed r.id ids) ds) ≤ length ids
unfolding listed
named_few [] [] u = omega arith
named_few [] (r ∷ ds) u = named_few [] ds u.1
named_few (i ∷ ids) ds u = omega (arith, one_more i ids ds, one_named i ds u, named_few ids ds u)

length-claimable :
    (limit : ℕ) (now : Time) (locked : List Text) (ds : List DeliveryRow)
    → length (claimable limit now locked ds) ≤ limit
unfolding claimable
length-claimable limit now locked ds =
    let rs = sort_by_time (select (is_due now locked) ds) in
    omega (arith, length-map row_id (take limit rs), length-take limit rs)

-- Where the ids of the deliveries are unique, a claim hands out at most `limit` rows. Each was in the
-- table, pending or failed, with a next attempt that is not later than now, and not among the rows
-- that others lock; it comes back as delivering, with a lease of five minutes from now, and is
-- otherwise as it was.
pub claim-Handed :
    (limit : ℕ) (now : Time) (locked : List Text) (db : Db)
    → IsUnique row_id db.webhook_deliveries
    → (length (claim limit now locked db).0 ≤ limit)
      × All (Handed now locked db.webhook_deliveries) (claim limit now locked db).0
unfolding claim lease
claim-Handed limit now locked db unique =
    let ds = db.webhook_deliveries in
    let ids = claimable limit now locked ds in
    let kept =
      update_where-IsUnique row_id (λ (r : DeliveryRow). listed r.id ids) (lease_row now)
        (λ x. refl) ds unique in
    (
      omega (arith, named_few ids _ kept, length-claimable limit now locked ds),
      leased-Handed now locked ids ds (named-due now locked limit ds unique) ds
          (All-found ds unique),
    )
