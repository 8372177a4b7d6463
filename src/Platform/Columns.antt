-- ===== src/Platform/Columns.antt =====
-- NUMERIC columns as pgx scans them: any Int and Exp that stand for the stored number.
use padma.Base.{ℕ, ◌≡◌, ◌≤◌, Option, none, some, [], Text, false}
use padma.Base.Int.{pos}
use padma.Errors.{Result, ok, err}
use padma.Database.{Amount}
use padma.Platform.Fibertypes.{Fibertypes}
use padma.Platform.Numeric.{Numeric, finite, numeric_to_amount}
use padma.Platform.Numeric.Exact.{Holds, numeric_to_amount_iff}

-- what the code relies on of the pgx driver
pub record Pgx : Type 0 where
  pub numeric : ℕ → Numeric
  pub numeric-Holds : (n : ℕ) → Holds (numeric n) n

module _ (pgx : Pgx) where
  -- the pgtype.Numeric of a column
  unfoldable pub scan_numeric : Option ℕ → Numeric
  scan_numeric none = record {
    int = pos 0;
    exp = pos 0;
    nan = false;
    infinity_modifier = finite;
    valid = false;
  }
  scan_numeric (some n) = pgx.numeric n

-- the "0x…" of an amount, or nothing where it does not convert
abbrev pub hex_or_nothing : Fibertypes → Result Amount → Text
hex_or_nothing lib (ok a) = lib.hex a
hex_or_nothing lib (err e) = []

module _ (lib : Fibertypes) (pgx : Pgx) where
  -- A stored number that fits is read as that number.
  pub numeric_to_amount-scan_numeric :
      (n : ℕ)
      → n ≤ lib.max_amount
      → numeric_to_amount lib (scan_numeric pgx (some n)) ≡ ok (record { big_int = n })
  unfolding scan_numeric
  numeric_to_amount-scan_numeric n h =
      (numeric_to_amount_iff lib (pgx.numeric n) n).1 (pgx.numeric-Holds n, h)
