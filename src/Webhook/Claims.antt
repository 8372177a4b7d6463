-- ===== src/Webhook/Claims.antt =====
-- What ClaimDue claims: due rows, at most `limit`, and none that somebody else holds.
use padma.Base.{
  ℕ, ◌+◌, ◌≤◌, ◌<◌, ◌≡◌, ◌≢◌, refl, sym, ◌∙◌, true, false, List, [], ◌∷◌, map, Text, ◌==◌, ==_iff,
  All, All-take, All-select, All-imp, take, select, update_where, All-update_where, insert_new,
  arith, leb, if◌then◌else◌, Bool-cases, inl, inr,
}
use padma.Database.Rows.{Time, DeliveryRow}
use padma.Webhook.Store.{
  listed, is_due, insert_by_time, sort_by_time, claimable, lease, lease_row, lease_ttl, row_id,
  is_stuck, rearm_row, is_delivering, same_id,
}

module _ {κ} (P : DeliveryRow → Type κ) where
  All-insert_by_time :
      (r : DeliveryRow) (xs : List DeliveryRow) → P r → All P xs → All P (insert_by_time r xs)
  unfolding insert_by_time
  All-insert_by_time r [] hr h = (hr, tt)
  All-insert_by_time r (x ∷ xs) hr h = elim (Bool-cases (leb r.next_attempt_at x.next_attempt_at)) [
    | inl e ↦ rw e (hr, h)
    | inr e ↦ rw e (h.0, All-insert_by_time r xs hr h.1)
  ]

  All-sort_by_time : (xs : List DeliveryRow) → All P xs → All P (sort_by_time xs)
  unfolding sort_by_time
  All-sort_by_time [] h = tt
  All-sort_by_time (x ∷ xs) h = All-insert_by_time x _ h.0 (All-sort_by_time xs h.1)

-- the rows that the subquery names have what every row has, and are due
abbrev pub chosen : ℕ → Time → List Text → List DeliveryRow → List DeliveryRow
chosen limit now locked ds = take limit (sort_by_time (select (is_due now locked) ds))

pub All-chosen {κ} :
    (P : DeliveryRow → Type κ) (limit : ℕ) (now : Time) (locked : List Text) (ds : List DeliveryRow)
    → All P ds
    → All (λ r. P r × (is_due now locked r ≡ true)) (chosen limit now locked ds)
All-chosen P limit now locked ds h =
    All-take _ limit _ (All-sort_by_time _ _ (All-select P (is_due now locked) ds h))

listed_ids :
    (k : Text) (rs : List DeliveryRow)
    → All (λ (r : DeliveryRow). r.id ≢ k) rs
    → listed k (map row_id rs) ≡ false
unfolding listed
listed_ids k [] h = refl
listed_ids k (r ∷ rs) h = ground (arith, ==_iff r.id k, listed_ids k rs)

-- a row of the delivery `k` is leased until then
abbrev pub Held : Text → Time → DeliveryRow → Type 0
Held k until r = r.id ≡ k → (is_delivering r.status ≡ true) × (until ≤ r.next_attempt_at)

not_due_of_Held :
    (k : Text) (until now : Time) (locked : List Text) (r : DeliveryRow)
    → Held k until r
    → is_due now locked r ≡ true
    → r.id ≢ k
unfolding is_due
not_due_of_Held k until now locked r held due same = ground (arith, held same)

-- What is held is not claimed.
pub Held-unclaimed :
    (k : Text) (until now : Time) (limit : ℕ) (locked : List Text) (ds : List DeliveryRow)
    → All (Held k until) ds
    → listed k (claimable limit now locked ds) ≡ false
unfolding claimable
Held-unclaimed k until now limit locked ds h = listed_ids k _ (
    All-imp _ _
      (λ r (g : Held k until r × (is_due now locked r ≡ true)).
        not_due_of_Held k until now locked r g.0 g.1)
      _ (All-chosen (Held k until) limit now locked ds h))

leased_row :
    (k : Text) (now : Time) (ids : List Text) (r : DeliveryRow)
    → listed k ids ≡ true
    → Held k (now + lease_ttl) (if listed r.id ids then lease_row now r else r)
leased_row k now ids r h = elim (Bool-cases (listed r.id ids)) [
  | inl e ↦ rw e (λ _. (refl, omega arith))
  | inr e ↦ rw e (λ same. absurd (cc (e, h, same)))
]

-- A claim leases what it claims.
pub lease-Held :
    (k : Text) (now : Time) (ids : List Text) (ds : List DeliveryRow)
    → listed k ids ≡ true
    → All (Held k (now + lease_ttl)) (lease now ids ds)
unfolding lease update_where
lease-Held k now ids [] h = tt
lease-Held k now ids (r ∷ ds) h = (leased_row k now ids r h, lease-Held k now ids ds h)

-- What other workers, the sweeper and the indexer do to the outbox before some time, as long as
-- nobody reports on the delivery `k` or replays it.
pub data Turn (k : Text) (until : Time) : List DeliveryRow → List DeliveryRow → Type 0 where
  claims :
      (limit : ℕ) (now : Time) (locked : List Text) (ds : List DeliveryRow)
      → now < until
      → Turn k until ds (lease now (claimable limit now locked ds) ds)
  requeues :
      (now : Time) (ds : List DeliveryRow)
      → now < until
      → Turn k until ds (update_where (is_stuck now) (rearm_row now) ds)
  -- MarkSucceeded, MarkFailed, MarkDead and the replay of another delivery
  writes :
      (id : Text) (f : DeliveryRow → DeliveryRow) (ds : List DeliveryRow)
      → id ≢ k
      → ((r : DeliveryRow) → (f r).id ≡ r.id)
      → Turn k until ds (update_where (same_id id) f ds)
  enqueues :
      (r : DeliveryRow) (ds : List DeliveryRow)
      → r.id ≢ k
      → Turn k until ds (insert_new row_id r ds)

pub data Turns (k : Text) (until : Time) (ds : List DeliveryRow) : List DeliveryRow → Type 0 where
  stop : Turns k until ds ds
  next : {es fs : List DeliveryRow} → Turns k until ds es → Turn k until es fs → Turns k until ds fs

claims-Held :
    (k : Text) (until now : Time) (ids : List Text) (ds : List DeliveryRow)
    → listed k ids ≡ false
    → All (Held k until) ds
    → All (Held k until) (lease now ids ds)
unfolding lease
claims-Held k until now ids ds h =
    All-update_where (λ (r : DeliveryRow). listed r.id ids) (lease_row now) (Held k until)
      (λ r e held same. absurd (cc (e, h, same))) ds

requeues-Held :
    (k : Text) (until now : Time) (ds : List DeliveryRow)
    → now < until
    → All (Held k until) ds
    → All (Held k until) (update_where (is_stuck now) (rearm_row now) ds)
unfolding is_stuck
requeues-Held k until now ds h =
    All-update_where (is_stuck now) (rearm_row now) (Held k until)
      (λ r e held same. absurd (ground (arith, held same))) ds

insert_new-Held :
    (k : Text) (until : Time) (r : DeliveryRow) (ds : List DeliveryRow)
    → r.id ≢ k
    → All (Held k until) ds
    → All (Held k until) (insert_new row_id r ds)
unfolding insert_new
insert_new-Held k until r [] h held = (λ same. absurd (h same), tt)
insert_new-Held k until r (x ∷ ds) h held = elim (Bool-cases (x.id == r.id)) [
  | inl e ↦ rw e held
  | inr e ↦ rw e (held.0, insert_new-Held k until r ds h held.1)
]

Turn-Held :
    {k : Text} {until : Time} {ds es : List DeliveryRow}
    → Turn k until ds es
    → All (Held k until) ds
    → All (Held k until) es
Turn-Held {k} {until} (claims limit now locked ds h) held =
    claims-Held k until now (claimable limit now locked ds) ds
      (Held-unclaimed k until now limit locked ds held) held
Turn-Held {k} {until} (requeues now ds h) held = requeues-Held k until now ds h held
Turn-Held {k} {until} (writes id f ds other keeps) held =
    All-update_where (same_id id) f (Held k until)
      (λ r e held_row same. absurd (other (sym ((==_iff r.id id).0 e) ∙ sym (keeps r) ∙ same))) ds
      held
Turn-Held {k} {until} (enqueues r ds other) held = insert_new-Held k until r ds other held

Turns-Held :
    {k : Text} {until : Time} {ds es : List DeliveryRow}
    → All (Held k until) ds
    → Turns k until ds es
    → All (Held k until) es
Turns-Held held stop = held
Turns-Held held (next ts t) = Turn-Held t (Turns-Held held ts)

-- No double send: once a claim has a delivery, then whatever claims, requeues, marks of other
-- deliveries and enqueues happen before the lease is up, no further claim has it, at any time.
pub claimed_once :
    (k : Text) (limit limit' : ℕ) (now now' : Time) (locked locked' : List Text)
    (ds es : List DeliveryRow)
    → listed k (claimable limit now locked ds) ≡ true
    → Turns k (now + lease_ttl) (lease now (claimable limit now locked ds) ds) es
    → listed k (claimable limit' now' locked' es) ≡ false
claimed_once k limit limit' now now' locked locked' ds es got turns =
    Held-unclaimed k (now + lease_ttl) now' limit' locked' es
      (Turns-Held (lease-Held k now (claimable limit now locked ds) ds got) turns)
