-- ===== src/Base/Tables.antt =====
-- Tables with a primary key, as lists of rows: the SQL statements that the code uses.
use Prim.Native.Nat.{suc}
use mathlib.Core.Path.{◌≡◌, refl, ap, ◌∙◌}
use mathlib.Core.Bool.{Bool, true, false}
use mathlib.Core.Option.{Option, none, some}
use mathlib.Core.List.{List, [], ◌∷◌}
use native.Mathlib.Omega.{arith}
use mathlib.Core.Logic.{inl, inr}
use padma.Base.Tests.{if◌then◌else◌, Option-cases, Bool-cases}
use padma.Base.Lists.{length, All}
use padma.Base.Texts.{Text, ◌==◌, ==_iff, ==_self}

module _ {R : Type 0} where
  -- UPDATE … SET … WHERE test
  unfoldable pub update_where : (R → Bool) → (R → R) → List R → List R
  update_where test f [] = []
  update_where test f (x ∷ xs) = (if test x then f x else x) ∷ update_where test f xs

  -- SELECT … WHERE test, read by QueryRow
  unfoldable pub first : (R → Bool) → List R → Option R
  first test [] = none
  first test (x ∷ xs) = if test x then some x else first test xs

  pub length-update_where :
      (test : R → Bool) (f : R → R) (t : List R) → length (update_where test f t) ≡ length t
  unfolding update_where
  length-update_where test f [] = refl
  length-update_where test f (x ∷ t) = ap suc (length-update_where test f t)

module _ {R : Type 0} (key : R → Text) where
  -- SELECT … WHERE key = $1
  unfoldable pub find : Text → List R → Option R
  find k [] = none
  find k (r ∷ rs) = if key r == k then some r else find k rs

  -- INSERT … ON CONFLICT (key) DO NOTHING
  unfoldable pub insert_new : R → List R → List R
  insert_new r [] = r ∷ []
  insert_new r (x ∷ xs) = if key x == key r then x ∷ xs else x ∷ insert_new r xs

  -- INSERT … ON CONFLICT (key) DO UPDATE SET …: `merge` makes the row from the stored one
  unfoldable pub upsert : (R → R) → R → List R → List R
  upsert merge r [] = r ∷ []
  upsert merge r (x ∷ xs) = if key x == key r then merge x ∷ xs else x ∷ upsert merge r xs

  -- no two rows share their key
  abbrev pub IsUnique : List R → Type 0
  IsUnique [] = Unit {0}
  IsUnique (x ∷ xs) = (find (key x) xs ≡ none) × IsUnique xs

abbrev pub or_else {ℓ} : {A : Type ℓ} → Option A → Option A → Option A
or_else (some a) d = some a
or_else none d = d

abbrev pub map_row {ℓ κ} : {A : Type ℓ} {B : Type κ} → (A → B) → Option A → Option B
map_row f none = none
map_row f (some a) = some (f a)

module _ {R : Type 0} (key : R → Text) where
  pub find-insert_new :
      (k : Text) (r : R) (t : List R)
      → find key k (insert_new key r t)
        ≡ or_else (find key k t) (if key r == k then some r else none)
  unfolding find insert_new
  find-insert_new k r [] = refl
  find-insert_new k r (x ∷ xs) =
      ground
        (arith, find-insert_new k r xs, ==_iff (key x) (key r), ==_iff (key x) k, ==_iff (key r) k)

  -- an insert of a key that is there changes nothing
  pub insert_new_present :
      (r x : R) (t : List R) → find key (key r) t ≡ some x → insert_new key r t ≡ t
  unfolding find insert_new
  insert_new_present r x [] h = cc
  insert_new_present r x (y ∷ ys) h = ground (arith, insert_new_present r x ys)

  -- after an insert there is a row of its key
  pub insert_new_found :
      (r : R) (t : List R) → (x : R) × (find key (key r) (insert_new key r t) ≡ some x)
  insert_new_found r t = elim (Option-cases (find key (key r) t)) [
    | inl e ↦ (r, find-insert_new (key r) r t ∙ rw (e, ==_self (key r)))
    | inr (x, e) ↦ (x, find-insert_new (key r) r t ∙ rw e)
  ]

  pub insert_new_idem :
      (r : R) (t : List R) → insert_new key r (insert_new key r t) ≡ insert_new key r t
  unfolding insert_new
  insert_new_idem r [] = ground (arith, ==_self (key r))
  insert_new_idem r (x ∷ xs) = ground (arith, insert_new_idem r xs)

  pub insert_new-IsUnique :
      (r : R) (t : List R) → IsUnique key t → IsUnique key (insert_new key r t)
  unfolding find insert_new
  insert_new-IsUnique r [] u = (refl, tt)
  insert_new-IsUnique r (x ∷ xs) u = ground (
    arith,
    insert_new-IsUnique r xs,
    find-insert_new (key x) r xs,
    ==_iff (key x) (key r),
    ==_iff (key r) (key x),
  )

  module _ (merge : R → R) (keeps_key : (x : R) → key (merge x) ≡ key x) where
    pub find-upsert :
        (k : Text) (r : R) (t : List R)
        → find key k (upsert key merge r t) ≡ (
            if key r == k
            then some (elim (find key (key r) t) [ none ↦ r | some x ↦ merge x ])
            else find key k t)
    unfolding find upsert
    find-upsert k r [] = ground arith
    find-upsert k r (x ∷ xs) = ground (
      arith,
      keeps_key x,
      find-upsert k r xs,
      ==_iff (key x) (key r),
      ==_iff (key x) k,
      ==_iff (key r) k,
    )

    pub upsert-IsUnique :
        (r : R) (t : List R) → IsUnique key t → IsUnique key (upsert key merge r t)
    unfolding find upsert
    upsert-IsUnique r [] u = (refl, tt)
    upsert-IsUnique r (x ∷ xs) u = ground (
      arith,
      keeps_key x,
      upsert-IsUnique r xs,
      find-upsert (key x) r xs,
      ==_iff (key x) (key r),
      ==_iff (key r) (key x),
    )

    -- an upsert whose merge settles is done once
    pub upsert_idem :
        (r : R) (t : List R)
        → merge r ≡ r
        → ((x : R) → merge (merge x) ≡ merge x)
        → upsert key merge r (upsert key merge r t) ≡ upsert key merge r t
    unfolding upsert
    upsert_idem r [] hr hm = ground (arith, ==_self (key r))
    upsert_idem r (x ∷ xs) hr hm = ground (arith, keeps_key x, hm x, upsert_idem r xs hr hm)

  module _ (test : R → Bool) (f : R → R) where
    pub find-update_where :
        ((x : R) → key (f x) ≡ key x)
        → (k : Text) (t : List R)
        → find key k (update_where test f t)
          ≡ map_row (λ x. if test x then f x else x) (find key k t)
    unfolding find update_where
    find-update_where keeps k [] = refl
    find-update_where keeps k (x ∷ xs) = ground (arith, keeps x, find-update_where keeps k xs)

    pub update_where-IsUnique :
        ((x : R) → key (f x) ≡ key x)
        → (t : List R) → IsUnique key t
        → IsUnique key (update_where test f t)
    unfolding find update_where
    update_where-IsUnique keeps [] u = tt
    update_where-IsUnique keeps (x ∷ xs) u =
        ground (arith, keeps x, update_where-IsUnique keeps xs, find-update_where keeps (key x) xs)

module _ {R : Type 0} (test : R → Bool) (f : R → R) where
  -- an update after which no row passes the test any more is done once
  pub update_where_idem :
      ((x : R) → test x ≡ true → test (f x) ≡ false)
      → (t : List R) → update_where test f (update_where test f t) ≡ update_where test f t
  unfolding update_where
  update_where_idem once [] = refl
  update_where_idem once (x ∷ xs) = ground (arith, once x, update_where_idem once xs)

  -- an update keeps what holds of every row, if it keeps it on the rows that it writes
  pub All-update_where {κ} :
      (P : R → Type κ)
      → ((x : R) → test x ≡ true → P x → P (f x))
      → (t : List R) → All P t
      → All P (update_where test f t)
  unfolding update_where
  All-update_where P keeps [] h = tt
  All-update_where P keeps (x ∷ xs) h = elim (Bool-cases (test x)) [
    | inl e ↦ rw e (keeps x e h.0, All-update_where P keeps xs h.1)
    | inr e ↦ rw e (h.0, All-update_where P keeps xs h.1)
  ]
