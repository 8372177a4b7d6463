-- ===== src/Base/Texts.antt =====
-- A Go string is a sequence of bytes: `Text`. Its equality test, and a literal's bytes.
use Prim.Native.Nat.{ℕ}
use Prim.Native.Char.{code}
use Prim.Native.String.{String}
use mathlib.Core.Path.{◌≡◌, refl}
use mathlib.Core.Logic.{◌≢◌, ◌↔◌, ◌⊎◌, inl, inr}
use mathlib.Core.Bool.{Bool, true, false, ◌&&◌, ◌||◌}
use mathlib.Core.List.{List, [], ◌∷◌}
use native.Mathlib.Omega.{arith}
use padma.Base.Tests.{eqb, ltb, Bool-cases}

abbrev pub Text : Type 0
Text = List ℕ

-- the bytes of an ASCII literal
abbrev pub codes : String → Text
codes String.[] = []
codes (String.◌∷◌ c s) = code c ∷ codes s

infix 50 ◌==◌
unfoldable pub ◌==◌ : Text → Text → Bool
[] == [] = true
[] == (y ∷ ys) = false
(x ∷ xs) == [] = false
(x ∷ xs) == (y ∷ ys) = eqb x y && xs == ys

pub eq_of_== : (s t : Text) → (s == t) ≡ true → s ≡ t
unfolding ◌==◌
eq_of_== [] [] h = refl
eq_of_== [] (y ∷ ys) h = cc
eq_of_== (x ∷ xs) [] h = cc
eq_of_== (x ∷ xs) (y ∷ ys) h = ground (arith, eq_of_== xs ys)

pub ==_self : (s : Text) → (s == s) ≡ true
unfolding ◌==◌
==_self [] = refl
==_self (x ∷ xs) = ground (arith, ==_self xs)

pub ==_iff : (s t : Text) → ((s == t) ≡ true) ↔ (s ≡ t)
==_iff s t = (eq_of_== s t, λ e. rw e (==_self t))

-- s == ""
abbrev pub is_empty : Text → Bool
is_empty [] = true
is_empty (c ∷ s) = false

pub empty_cases : (s : Text) → ((is_empty s ≡ true) × (s ≡ [])) ⊎ ((is_empty s ≡ false) × (s ≢ []))
empty_cases [] = inl (refl, refl)
empty_cases (c ∷ s) = inr (refl, λ e. cc)

-- the order of texts by their bytes, as in the C collation
unfoldable pub lt_text : Text → Text → Bool
lt_text [] [] = false
lt_text [] (y ∷ t) = true
lt_text (x ∷ s) [] = false
lt_text (x ∷ s) (y ∷ t) = let rest = lt_text s t in ltb x y || (eqb x y && rest)

pub lt_text_irreflexive : (s : Text) → lt_text s s ≡ false
unfolding lt_text
lt_text_irreflexive [] = refl
lt_text_irreflexive (x ∷ s) = ground (arith, lt_text_irreflexive s)

pub lt_text_trans : (s t u : Text) → lt_text s t ≡ true → lt_text t u ≡ true → lt_text s u ≡ true
unfolding lt_text
lt_text_trans [] [] u h k = cc
lt_text_trans [] (y ∷ t) [] h k = cc
lt_text_trans [] (y ∷ t) (z ∷ u) h k = refl
lt_text_trans (x ∷ s) [] u h k = cc
lt_text_trans (x ∷ s) (y ∷ t) [] h k = cc
lt_text_trans (x ∷ s) (y ∷ t) (z ∷ u) h k = ground (arith, lt_text_trans s t u)

-- texts of which neither is below the other are the same
pub lt_text_antisym : (s t : Text) → lt_text s t ≡ false → lt_text t s ≡ false → s ≡ t
unfolding lt_text
lt_text_antisym [] [] h k = refl
lt_text_antisym [] (y ∷ t) h k = cc
lt_text_antisym (x ∷ s) [] h k = cc
lt_text_antisym (x ∷ s) (y ∷ t) h k = ground (arith, lt_text_antisym s t)

pub comes_before : (b c : Text) → (b == c) ≡ false → lt_text b c ≡ false → lt_text c b ≡ true
comes_before b c other not_later = elim (Bool-cases (lt_text c b)) [
  | inl e ↦ e
  | inr e ↦ absurd (cc (other, (==_iff b c).1 (lt_text_antisym b c not_later e)))
]
