-- ===== src/Merchant/Reconcile.antt =====
-- internal/merchant/settlement.go, Reconciliation: the paid orders of a period against the payments.
pub mod Counts
use padma.Base.{
  ℕ, ◌+◌, ◌≡◌, refl, sym, ap, ◌∙◌, Bool, true, false, not, Bool-cases, inl, inr, Option, none, some,
  List, [], ◌∷◌, ◌++◌, append-nil, append_assoc, map, Text, codes, length, select, find, arith, ltb,
  ◌==◌, length-map, subst, if◌then◌else◌,
}
use padma.Base.Int.{pos}
use padma.Errors.{Result, ok, wrapped, ok_injective}
use padma.Database.{Db, World, Action, Amount, pure, query, exec, wrap, new_id, ◌>>=◌, ◌>>◌}
use padma.Database.Returns.{bind-Passed, wrap_returned, statement_returned}
use padma.Database.Rows.{Time, OrderRow, PaymentRow, RunRow}
use padma.Platform.Hex.{text_16}
use padma.Platform.Fibertypes.{Fibertypes}
use padma.Platform.Numeric.{amount_to_numeric, numeric_column}
use padma.Platform.Columns.{Pgx, scan_numeric}
use padma.Merchant.Settlement.{Reconciliation, Checked, or_0, or_zero_value, must_amount, in_period}

abbrev is_there : {A : Type 0} → Option A → Bool
is_there none = false
is_there (some a) = true

-- p.payment_hash = o.invoice_payment_hash; a NULL hash joins no payment
abbrev pub joined : List PaymentRow → Option Text → Bool
joined ps none = false
joined ps (some hash) = is_there (find (λ (p : PaymentRow). p.payment_hash) hash ps)

-- the rows of the query
abbrev pub check_order : List PaymentRow → OrderRow → Checked
check_order ps o = record {
  order_id = o.id;
  matched = joined ps o.invoice_payment_hash;
  amount = or_0 o.amount;
}

-- rec and discrepancy, before the text of the total
pub record Tally : Type 0 where
  pub matched : ℕ
  pub unmatched_count : ℕ
  pub unmatched_orders : List Text
  pub discrepancy : ℕ

module _ (lib : Fibertypes) (pgx : Pgx) where
  -- the body of the loop
  unfoldable pub tally_order : Tally → Checked → Tally
  tally_order t c = if c.matched then record t { matched = t.matched + 1 } else record t {
    unmatched_count = t.unmatched_count + 1;
    unmatched_orders = t.unmatched_orders ++ c.order_id ∷ [];
    discrepancy = t.discrepancy + (must_amount lib pgx (scan_numeric pgx (some c.amount))).big_int;
  }

  -- the loop over rows.Next()
  unfoldable pub tally_orders : Tally → List Checked → Tally
  tally_orders t [] = t
  tally_orders t (c ∷ cs) = tally_orders (tally_order t c) cs

  abbrev pub no_orders : Tally
  no_orders = record { matched = 0; unmatched_count = 0; unmatched_orders = []; discrepancy = 0 }

  abbrev pub discrepancy_amount : Tally → Amount
  discrepancy_amount t =
      or_zero_value (lib.parse_amount (codes "0x" ++ text_16 (pos t.discrepancy)))

  abbrev pub summary : Text → Tally → Reconciliation
  summary period t = record {
    period = period;
    matched = t.matched;
    unmatched_count = t.unmatched_count;
    discrepancy_total = lib.hex (discrepancy_amount t);
    unmatched_orders = t.unmatched_orders;
  }

  abbrev pub run_row : Text → Text → Text → Tally → RunRow
  run_row id merchant_id period t = record {
    id = id;
    merchant_id = merchant_id;
    period = period;
    matched = t.matched;
    unmatched_count = t.unmatched_count;
    discrepancy_total = numeric_column (amount_to_numeric (discrepancy_amount t));
  }

  module _ (period_of : Time → Text) where
    abbrev pub checked_orders : Text → Text → Db → List Checked
    checked_orders merchant_id period db =
        map (check_order db.payments)
          (select (in_period period_of merchant_id period) db.merchant_orders)

    -- Reconciliation
    unfoldable pub reconciliation : Text → Text → Action Reconciliation
    reconciliation merchant_id period = do
      rows ←
          wrap (wrapped "merchant: reconcile query: %w" [])
            (query (checked_orders merchant_id period))
      let t = tally_orders no_orders rows
      id ← new_id
      wrap (wrapped "merchant: persist reconciliation: %w" []) (
          exec λ db. record db {
            reconciliation_runs = db.reconciliation_runs ++ run_row id merchant_id period t ∷ [];
          })
      pure (summary period t)
