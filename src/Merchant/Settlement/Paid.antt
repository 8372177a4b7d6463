-- ===== src/Merchant/Settlement/Paid.antt =====
-- The orders that the reports of a period are about.
use padma.Base.{
  ◌≡◌, refl, ap, fun_ext, Bool, false, ◌&&◌, Option, none, some, List, Text, ◌==◌, select,
}
use padma.Database.Rows.{Time, OrderRow}
use padma.Merchant.Settlement.{in_period, paid_in}

module _ (period_of : Time → Text) (merchant_id period : Text) where
  -- the order is the merchant's, and was paid at a time of the period
  abbrev pub was_paid : OrderRow → Bool
  was_paid o =
      o.merchant_id == merchant_id
      && elim o.paid_at [ none ↦ false | some t ↦ period_of t == period ]

  paid_cases :
      (at : Option Time)
      → paid_in period_of period at ≡ elim at [ none ↦ false | some t ↦ period_of t == period ]
  paid_cases none = refl
  paid_cases (some t) = refl

  pub select-was_paid :
      (os : List OrderRow) → select (in_period period_of merchant_id period) os ≡ select was_paid os
  select-was_paid os =
      ap (λ (p : OrderRow → Bool). select p os)
        (fun_ext λ o. ap (λ (b : Bool). (o.merchant_id == merchant_id) && b) (paid_cases o.paid_at))
