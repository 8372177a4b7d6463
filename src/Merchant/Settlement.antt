-- ===== src/Merchant/Settlement.antt =====
-- internal/merchant/settlement.go: the sums of a period, and its orders against the payments.
pub mod Paid
pub mod Groups
pub mod Sums
use padma.Base.{
  ℕ, ◌+◌, ◌-◌, Bool, true, false, ◌&&◌, Option, none, some, List, [], ◌∷◌, ◌++◌, map, Text, codes,
  ◌==◌, lt_text, ltb, select, if◌then◌else◌,
}
use padma.Base.Int.{ℤ, pos, neg}
use padma.Errors.{Result, ok, err, wrapped}
use padma.Database.{Db, World, Action, Amount, pure, query, exec, wrap, new_id, ◌>>=◌, ◌>>◌}
use padma.Database.Rows.{Time, OrderRow, RefundRow, SettlementRecord}
use padma.Platform.Hex.{text_16}
use padma.Platform.Fibertypes.{Fibertypes}
use padma.Platform.Numeric.{Numeric, amount_to_numeric, numeric_column, numeric_to_amount}
use padma.Platform.Columns.{Pgx, scan_numeric}

-- SettlementRow
pub record SettlementRow : Type 0 where
  pub asset : Text
  pub gross : Text
  pub fees : Text
  pub net : Text
  pub period : Text

-- Reconciliation
pub record Reconciliation : Type 0 where
  pub period : Text
  pub matched : ℕ
  pub unmatched_count : ℕ
  pub discrepancy_total : Text
  pub unmatched_orders : List Text

abbrev pub or_0 : Option ℕ → ℕ
or_0 none = 0
or_0 (some n) = n

-- COALESCE(o.asset, 'CKB')
abbrev pub or_ckb : Option Text → Text
or_ckb none = codes "CKB"
or_ckb (some s) = s

-- the sum of the refunds of an order: the joined subquery `r`
unfoldable pub refunds_of : Text → List RefundRow → ℕ
refunds_of order_id [] = 0
refunds_of order_id (r ∷ rs) =
    let rest = refunds_of order_id rs in
    if r.order_id == order_id then or_0 r.amount + rest else rest

-- a group of the query: the sums are NUMERIC and have no bound
pub record Bucket : Type 0 where
  pub asset : Text
  pub gross : ℕ
  pub fees : ℕ

-- `period_of` is to_char(…, 'YYYY-MM')
abbrev pub paid_in : (Time → Text) → Text → Option Time → Bool
paid_in period_of period none = false
paid_in period_of period (some t) = period_of t == period

-- WHERE merchant_id = $1 AND paid_at IS NOT NULL AND to_char(paid_at, 'YYYY-MM') = $2
abbrev pub in_period : (Time → Text) → Text → Text → OrderRow → Bool
in_period period_of merchant_id period o =
    o.merchant_id == merchant_id && paid_in period_of period o.paid_at

unfoldable pub add_to_bucket : List RefundRow → OrderRow → List Bucket → List Bucket
add_to_bucket rs o [] =
    record { asset = or_ckb o.asset; gross = or_0 o.amount; fees = refunds_of o.id rs } ∷ []
add_to_bucket rs o (b ∷ bs) =
    let rest = add_to_bucket rs o bs in
    if b.asset == or_ckb o.asset
    then record b { gross = b.gross + or_0 o.amount; fees = b.fees + refunds_of o.id rs } ∷ bs
    else if lt_text b.asset (or_ckb o.asset)
    then b ∷ rest
    else record { asset = or_ckb o.asset; gross = or_0 o.amount; fees = refunds_of o.id rs }
      ∷ b
      ∷ bs

-- GROUP BY asset ORDER BY asset
unfoldable pub buckets : List RefundRow → List OrderRow → List Bucket
unfolding add_to_bucket
buckets rs [] = []
buckets rs (o ∷ os) = add_to_bucket rs o (buckets rs os)

-- an amount whose error is dropped: the zero value then
abbrev pub or_zero_value : Result Amount → Amount
or_zero_value (ok a) = a
or_zero_value (err e) = record { big_int = 0 }

-- new(big.Int).Sub(gross, fees), and zero where that is negative
unfoldable pub net_of : ℕ → ℕ → ℤ
net_of gross fees = if ltb gross fees then pos 0 else pos (gross - fees)

-- what the second query scans: the id, whether a payment is joined, and the amount
pub record Checked : Type 0 where
  pub order_id : Text
  pub matched : Bool
  pub amount : ℕ

module _ (lib : Fibertypes) (pgx : Pgx) where
  open lib use {parse_amount, hex}

  -- mustAmount
  unfoldable pub must_amount : Numeric → Amount
  must_amount n = given (numeric_to_amount lib n)
    where
      given : Result Amount → Amount
      given (ok a) = a
      given (err e) = or_zero_value (parse_amount (codes "0x0"))

  -- the body of the first loop
  unfoldable pub settlement_row : Text → Bucket → SettlementRow
  unfolding must_amount net_of
  settlement_row period b =
      let gross = must_amount (scan_numeric pgx (some b.gross)) in
      let fees = must_amount (scan_numeric pgx (some b.fees)) in
      let net =
        or_zero_value (parse_amount (codes "0x" ++ text_16 (net_of gross.big_int fees.big_int))) in
      record { asset = b.asset; gross = hex gross; fees = hex fees; net = hex net; period = period }

  abbrev pub record_of : Text → Text → Text → SettlementRow → SettlementRecord
  record_of id merchant_id period r = record {
    id = id;
    merchant_id = merchant_id;
    period = period;
    gross = numeric_column (amount_to_numeric (or_zero_value (parse_amount r.gross)));
    fees = numeric_column (amount_to_numeric (or_zero_value (parse_amount r.fees)));
    net = numeric_column (amount_to_numeric (or_zero_value (parse_amount r.net)));
    asset = r.asset;
    status = codes "generated";
  }

  -- the second loop
  unfoldable pub persist : Text → Text → List SettlementRow → Action (Unit {0})
  persist merchant_id period [] = pure tt
  persist merchant_id period (r ∷ rs) = do
    id ← new_id
    wrap (wrapped "merchant: persist settlement: %w" []) (
        exec λ db. record db {
          settlements = db.settlements ++ record_of id merchant_id period r ∷ [];
        })
    persist merchant_id period rs

  module _ (period_of : Time → Text) where
    -- Settlement
    unfoldable pub settlement : Text → Text → Action (List SettlementRow)
    unfolding settlement_row persist
    settlement merchant_id period = do
      groups ← wrap (wrapped "merchant: settlement query: %w" []) (
          query λ db.
            buckets db.refunds (select (in_period period_of merchant_id period) db.merchant_orders))
      let out = map (settlement_row period) groups
      persist merchant_id period out
      pure out
