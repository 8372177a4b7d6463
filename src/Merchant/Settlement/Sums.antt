-- ===== src/Merchant/Settlement/Sums.antt =====
-- The amounts of a settlement row.
use padma.Base.{List, select, ◌-◌, ◌≤◌, Text}
use padma.Database.{World}
use padma.Database.Rows.{Time, OrderRow}
use padma.Platform.Fibertypes.{Fibertypes, hex_of}
use padma.Platform.Columns.{Pgx}
use padma.Merchant.Settlement.Paid.{was_paid}
use padma.Merchant.Settlement.{Bucket, SettlementRow}

module _ (lib : Fibertypes) (pgx : Pgx) where
  -- the row of a group whose sums fit
  abbrev pub plain_row : Text → Bucket → SettlementRow
  plain_row period b = record {
    asset = b.asset;
    gross = hex_of b.gross;
    fees = hex_of b.fees;
    net = hex_of (b.gross - b.fees);
    period = period;
  }

  abbrev pub Fits : Bucket → Type 0
  Fits b = (b.gross ≤ lib.max_amount) × (b.fees ≤ lib.max_amount)

  module _ (period_of : Time → Text) (merchant_id period : Text) (rows : List SettlementRow)
      (w w' : World) where
    -- the merchant's orders that were paid in the period
    abbrev pub paid_orders : List OrderRow
    paid_orders = select (was_paid period_of merchant_id period) w.db.merchant_orders
