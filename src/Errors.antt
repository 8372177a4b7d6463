-- ===== src/Errors.antt =====
-- Go errors as values: the sentinels that `errors.Is` looks for, driver failures, and the wrapping
-- of `fmt.Errorf`. The texts of the formats are kept, and their arguments beside them.
use padma.Base.{
  ◌≡◌, ◌⊎◌, inl, inr, refl, ap, Bool, true, false, Text, String, codes, [], ◌∷◌, ◌++◌, eqb,
  if◌then◌else◌,
}

-- pgx.ErrNoRows, query.ErrNotFound, merchant.ErrNotFound, merchant.ErrInvalidState,
-- context.Canceled, http.ErrServerClosed
pub data Sentinel : Type 0 where
  no_rows query_not_found not_found invalid_state canceled server_closed : Sentinel

pub data Error : Type 0 where
  sentinel : Sentinel → Error
  -- an error of the driver, the node or a library
  reported : Text → Error
  -- fmt.Errorf without %w
  message : String → Text → Error
  -- fmt.Errorf with %w
  wrapped : String → Text → Error → Error

same_sentinel : Sentinel → Sentinel → Bool
same_sentinel no_rows no_rows = true
same_sentinel query_not_found query_not_found = true
same_sentinel not_found not_found = true
same_sentinel invalid_state invalid_state = true
same_sentinel canceled canceled = true
same_sentinel server_closed server_closed = true
same_sentinel _ _ = false

-- errors.Is, along the chain of wrapped errors
unfoldable pub is : Error → Sentinel → Bool
unfolding same_sentinel
is (sentinel s) t = same_sentinel s t
is (reported m) t = false
is (message m a) t = false
is (wrapped m a e) t = is e t

-- the verbs of a format, filled in: %w with the text of the wrapped error, another with the argument
fill : Text → Text → Text → Text
fill argument inner [] = []
fill argument inner (c ∷ []) = c ∷ []
fill argument inner (c ∷ d ∷ cs) =
    let rest = fill argument inner cs in
    let others = fill argument inner (d ∷ cs) in
    if eqb c b'%' then (if eqb d b'w' then inner else argument) ++ rest else c ∷ others

sentinel_text : Sentinel → Text
sentinel_text no_rows = codes "no rows in result set"
sentinel_text query_not_found = codes "query: not found"
sentinel_text not_found = codes "merchant: not found"
sentinel_text invalid_state = codes "merchant: invalid state for operation"
sentinel_text canceled = codes "context canceled"
sentinel_text server_closed = codes "http: Server closed"

-- err.Error()
unfoldable pub error_text : Error → Text
unfolding fill sentinel_text
error_text (sentinel s) = sentinel_text s
error_text (reported m) = m
error_text (message m a) = fill a [] (codes m)
error_text (wrapped m a e) = fill a (error_text e) (codes m)

-- a value and a nil error, or an error
pub data Result {ℓ} (A : Type ℓ) : Type ℓ where
  ok : A → Result A
  err : Error → Result A

-- `if err != nil { return fmt.Errorf(…) }`
abbrev pub or_wrap {ℓ} : {A : Type ℓ} → (Error → Error) → Result A → Result A
or_wrap f (ok a) = ok a
or_wrap f (err e) = err (f e)

pub Result-cases {ℓ} :
    {A : Type ℓ} (r : Result A) → ((a : A) × (r ≡ ok a)) ⊎ ((e : Error) × (r ≡ err e))
Result-cases (ok a) = inl (a, refl)
Result-cases (err e) = inr (e, refl)

pub or_wrap_returned {ℓ} :
    {A : Type ℓ} (f : Error → Error) (r : Result A) {a : A} → or_wrap f r ≡ ok a → r ≡ ok a
or_wrap_returned f (ok b) h = h
or_wrap_returned f (err e) h = absurd (cc)

module _ {ℓ κ} {A : Type ℓ} {B : Type κ} where
  -- `if err != nil { return …, err }` in front of the code that goes on
  infixl 5 ◌>>=◌
  abbrev pub ◌>>=◌ : Result A → (A → Result B) → Result B
  ◌>>=◌ (ok value) go_on = go_on value
  ◌>>=◌ (err problem) go_on = err problem

abbrev value_or {ℓ} : {A : Type ℓ} → A → Result A → A
value_or d (ok a) = a
value_or d (err e) = d

pub ok_injective {ℓ} : {A : Type ℓ} {a b : A} → ok a ≡ ok b → a ≡ b
ok_injective {A} {a} {b} h = ap (value_or a) h

module _ {ℓ κ} {A : Type ℓ} {B : Type κ} where
  -- Inversion of a bind that returned.
  pub bind-eq-ok :
      (first : Result A) (go_on : A → Result B) {last : B}
      → (first >>= go_on) ≡ ok last
      → (value : A) × (first ≡ ok value) × (go_on value ≡ ok last)
  bind-eq-ok (ok value) go_on h = (value, refl, h)
  bind-eq-ok (err problem) go_on h = absurd (cc)

-- %q of a text without characters that it escapes
abbrev pub quoted : Text → Text
quoted s = b'"' ∷ (s ++ b'"' ∷ [])
