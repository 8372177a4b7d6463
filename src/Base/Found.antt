-- ===== src/Base/Found.antt =====
-- The rows that a look at a table finds, and what is found after the table has grown.
use mathlib.Core.Path.{◌≡◌, refl}
use mathlib.Core.Bool.{Bool, true}
use mathlib.Core.Option.{none, some}
use mathlib.Core.List.{List, [], ◌∷◌, ◌++◌}
use native.Mathlib.Omega.{arith}
use padma.Base.Tests.{if◌then◌else◌}
use padma.Base.Texts.{Text, ◌==◌, ==_iff}
use padma.Base.Tables.{first, find, IsUnique}

module _ {R : Type 0} where
  pub first_passes : (test : R → Bool) (x : R) (t : List R) → first test t ≡ some x → test x ≡ true
  unfolding first
  first_passes test x [] h = absurd (cc)
  first_passes test x (y ∷ t) h = ground (arith, first_passes test x t)

  -- the first row of a table that had none, once a row is added
  pub first-append :
      (test : R → Bool) (r : R) (t : List R)
      → first test t ≡ none
      → first test (t ++ r ∷ []) ≡ (if test r then some r else none)
  unfolding first
  first-append test r [] h = refl
  first-append test r (x ∷ xs) h = ground (arith, first-append test r xs)

  -- a test that another implies finds nothing where the other finds nothing
  pub first-none :
      (weak strong : R → Bool)
      → ((x : R) → strong x ≡ true → weak x ≡ true)
      → (t : List R) → first weak t ≡ none
      → first strong t ≡ none
  unfolding first
  first-none weak strong implies [] h = refl
  first-none weak strong implies (x ∷ xs) h =
      ground (arith, implies x, first-none weak strong implies xs)

  -- a row that is found is found in a longer table
  pub first-append_found :
      (test : R → Bool) (x : R) (s t : List R)
      → first test s ≡ some x
      → first test (s ++ t) ≡ some x
  unfolding first
  first-append_found test x [] t h = absurd (cc)
  first-append_found test x (y ∷ s) t h = ground (arith, first-append_found test x s t)

module _ {R : Type 0} (key : R → Text) where
  pub find-append_found :
      (k : Text) (x : R) (s t : List R) → find key k s ≡ some x → find key k (s ++ t) ≡ some x
  unfolding find
  find-append_found k x [] t h = absurd (cc)
  find-append_found k x (y ∷ s) t h = ground (arith, find-append_found k x s t)

  pub key_of_find : (k : Text) (x : R) (t : List R) → find key k t ≡ some x → key x ≡ k
  unfolding find
  key_of_find k x [] h = absurd (cc)
  key_of_find k x (y ∷ t) h = ground (arith, key_of_find k x t, ==_iff (key y) k)

  -- a test that asks for a key finds the row of that key, where keys are unique
  pub find_of_first :
      (test : R → Bool) (k : Text) (x : R)
      → ((y : R) → test y ≡ true → key y ≡ k)
      → (t : List R) → IsUnique key t
      → first test t ≡ some x
      → find key k t ≡ some x
  unfolding find first
  find_of_first test k x asks [] u h = absurd (cc)
  find_of_first test k x asks (y ∷ t) u h =
      ground (arith, asks y, find_of_first test k x asks t, ==_iff (key y) k)

  pub first-find : (k : Text) (t : List R) → first (λ (r : R). key r == k) t ≡ find key k t
  unfolding first find
  first-find k [] = refl
  first-find k (y ∷ t) = ground (arith, first-find k t)

  find-append_none :
      (k : Text) (r : R) (t : List R)
      → find key k t ≡ none
      → find key k (t ++ r ∷ []) ≡ (if key r == k then some r else none)
  unfolding find
  find-append_none k r [] h = refl
  find-append_none k r (y ∷ t) h = ground (arith, find-append_none k r t)

  -- a row whose key is new
  pub append-IsUnique :
      (r : R) (t : List R) → find key (key r) t ≡ none → IsUnique key t → IsUnique key (t ++ r ∷ [])
  unfolding find
  append-IsUnique r [] h u = (refl, tt)
  append-IsUnique r (y ∷ t) h u = ground (
    arith,
    append-IsUnique r t,
    find-append_none (key y) r t,
    ==_iff (key r) (key y),
    ==_iff (key y) (key r),
  )
