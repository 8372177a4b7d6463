-- ===== src/Platform/Fibertypes.antt =====
-- The fibertypes package of the kanaka library, which is not in this repository: what the code
-- relies on. `ParseAmount` reads the 0x-hex of a non-negative integer up to some largest amount, and
-- `Hex` writes it.
use padma.Base.{ℕ, ◌≡◌, ◌++◌, Text, codes, leb, if◌then◌else◌}
use padma.Base.Int.{pos}
use padma.Errors.{Error, Result, ok, err}
use padma.Database.{Amount}
use padma.Platform.Hex.{text_16}

abbrev pub hex_of : ℕ → Text
hex_of n = codes "0x" ++ text_16 (pos n)

pub record Fibertypes : Type 0 where
  pub max_amount : ℕ
  pub too_large : Error
  pub parse_amount : Text → Result Amount
  pub hex : Amount → Text
  pub parse_hex :
      (n : ℕ)
      → parse_amount (hex_of n)
        ≡ (if leb n max_amount then ok (record { big_int = n }) else err too_large)
  pub hex_lem : (a : Amount) → hex a ≡ hex_of a.big_int
