-- ===== src/Platform/Numeric.antt =====
-- internal/platform/db/numeric.go: the bridge between amounts and NUMERIC columns.
pub mod Exact
use padma.Base.{
  Option, none, some, ℕ, suc, ◌*◌, ◌^◌, Bool, true, false, not, ◌||◌, ◌++◌, Option, none, some,
  codes, [], eqb, if◌then◌else◌,
}
use padma.Base.Int.{ℤ, pos, negsuc, is_negative, mul, quo, rem_size}
use padma.Errors.{Error, Result, ok, err, message, ◌>>=◌}
use padma.Database.{Amount}
use padma.Platform.Hex.{text_16}
use padma.Platform.Fibertypes.{Fibertypes}

pub data InfinityModifier : Type 0 where
  finite infinity negative_infinity : InfinityModifier

-- pgtype.Numeric of pgx: the value Int * 10 ^ Exp, if it is valid and finite
pub record Numeric : Type 0 where
  pub int : ℤ
  pub exp : ℤ
  pub nan : Bool
  pub infinity_modifier : InfinityModifier
  pub valid : Bool

abbrev pub is_finite : InfinityModifier → Bool
is_finite finite = true
is_finite _ = false

-- AmountToNumeric
unfoldable pub amount_to_numeric : Amount → Numeric
amount_to_numeric a = record {
  int = pos a.big_int;
  exp = pos 0;
  nan = false;
  infinity_modifier = finite;
  valid = true;
}

-- what a NUMERIC column holds of it. `AmountToNumeric` is the only writer, so no fraction and no
-- negative number is stored.
abbrev pub numeric_column : Numeric → Option ℕ
numeric_column n = if n.valid then natural n.int n.exp else none
  where
    natural : ℤ → ℤ → Option ℕ
    natural (pos m) (pos e) = some (m * 10 ^ e)
    natural _ _ = none

abbrev pub pow_10 : ℕ → ℕ
pow_10 exp = 10 ^ exp

-- the switch on n.Exp: Int * 10 ^ Exp as an integer. Exp is an int32 there, and -n.Exp does not
-- wrap but at -2^31, which Postgres does not yield.
unfoldable pub whole : ℤ → ℤ → Result ℤ
whole v (pos exp) = ok (mul v (pow_10 exp))
whole v (negsuc exp) =
    if eqb (rem_size v (pow_10 (suc exp))) 0
    then ok (quo v (pow_10 (suc exp)))
    else err (message "db: NUMERIC has a fractional part, not a whole amount" [])

module _ (lib : Fibertypes) where
  open lib use {parse_amount}

  as_amount : ℤ → Result Amount
  as_amount v =
      if is_negative v
      then err (message "db: NUMERIC is negative" [])
      else parse_amount (codes "0x" ++ text_16 v)

  -- NumericToAmount
  unfoldable pub numeric_to_amount : Numeric → Result Amount
  unfolding as_amount
  numeric_to_amount n =
      if not n.valid || n.nan
      then err (message "db: NUMERIC is not a valid finite number" [])
      else if not (is_finite n.infinity_modifier)
      then err (message "db: NUMERIC is infinite" [])
      else do v ← whole n.int n.exp; as_amount v
