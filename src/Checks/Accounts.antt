-- ===== src/Checks/Accounts.antt =====
-- The accounts of a period on concrete orders: settlement, reconciliation and export.
use padma.Base.{select, ◌≡◌, refl, some, none, List, [], ◌∷◌, Text, codes, ◌==◌, find}
use padma.Errors.{Result, ok}
use padma.Database.{World, ◌>>=◌, wrap, query, new_id, exec, pure}
use padma.Database.Rows.{Time, OrderStatus, OrderRow}
use padma.Platform.Hex.{read_hex, text_16}
use padma.Platform.Numeric.{numeric_to_amount, whole}
use padma.Platform.Columns.{scan_numeric}
use padma.Merchant.Settlement.{SettlementRow, Reconciliation, settlement, must_amount}
use padma.Merchant.Settlement.Paid.{was_paid}
use padma.Merchant.Settlement.Groups.{Sums}
use padma.Merchant.Settlement.Sums.{paid_orders}
use padma.Merchant.Reconcile.{reconciliation, tally_orders, tally_order}
use padma.Merchant.Reconcile.Counts.{Counted, reconciliation_counts}
use padma.Merchant.Export.{Exported, Excelize, csv_file, selected_rows, export}
use padma.Checks.Samples.{order}
use padma.Checks.Amounts.{fibertypes}
use padma.Checks.Gateway.{pgx, shop}

-- the period of every time
abbrev pub january : Time → Text
january t = codes "2026-01"

abbrev other_payment : OrderRow
other_payment = record order {
  id = codes "o2";
  external_order_id = some (codes "x9");
  invoice_payment_hash = some (codes "0x09");
  amount = some 50;
  status = OrderStatus.paid;
  paid_at = some 42;
}

abbrev pub closed_shop : World
closed_shop = record shop {
  db = record shop.db {
    merchant_orders =
        record order { status = OrderStatus.paid; paid_at = some 41 } ∷ other_payment ∷ [];
    refunds =
        record {
          id = codes "r1";
          order_id = codes "o2";
          amount = some 30;
          asset = none;
          reason = [];
          status = codes "sent";
          fiber_payment_hash = codes "0x0a";
        }
        ∷ [];
  };
}

abbrev reconciled : Result Reconciliation × World
reconciled = reconciliation fibertypes pgx january (codes "m1") (codes "2026-01") closed_shop

abbrev january_run : Reconciliation
january_run = record {
  period = codes "2026-01";
  matched = 1;
  unmatched_count = 1;
  discrepancy_total = codes "0x32";
  unmatched_orders = codes "o2" ∷ [];
}

reconciled_test : reconciled ≡ (ok january_run, reconciled.1)
unfolding reconciliation ◌>>=◌ wrap query new_id exec pure tally_orders text_16 ◌==◌ read_hex
    tally_order find must_amount numeric_to_amount scan_numeric whole
reconciled_test = refl

reconciliation_counts_example :
    Counted closed_shop.db.payments
      (select (was_paid january (codes "m1") (codes "2026-01")) closed_shop.db.merchant_orders)
      january_run
reconciliation_counts_example =
    reconciliation_counts fibertypes pgx january (codes "m1") (codes "2026-01") january_run
      closed_shop reconciled.1 reconciled_test

abbrev settled : Result (List SettlementRow) × World
settled = settlement fibertypes pgx january (codes "m1") (codes "2026-01") closed_shop

abbrev january_rows : List SettlementRow
january_rows =
    record {
      asset = codes "CKB";
      gross = codes "0x96";
      fees = codes "0x1e";
      net = codes "0x78";
      period = codes "2026-01";
    }
    ∷ []

abbrev january_orders : List OrderRow
january_orders =
    paid_orders fibertypes pgx january (codes "m1") (codes "2026-01") january_rows closed_shop
      settled.1

-- workbooks that are the texts of their cells
abbrev pub excelize : Excelize
excelize = record {
  File = List Text;
  new_file = [];
  new_sheet = λ name f. (ok 0, f);
  set_active_sheet = λ idx f. f;
  delete_sheet = λ name f. f;
  coordinates_to_cell_name = λ c r. c ∷ r ∷ [];
  set_cell_value = λ name cell v f. v ∷ f;
  write_to_buffer = λ f. ok [];
}

abbrev pub utc_text : Time → Text
utc_text t = codes "2026-01-02T03:04:05Z"

abbrev exported : Result Exported × World
exported =
    export fibertypes pgx utc_text january excelize (codes "m1") (codes "2026-01") [] closed_shop

abbrev january_csv : Exported
january_csv =
    csv_file (codes "2026-01")
      (selected_rows fibertypes pgx utc_text january (codes "m1") (codes "2026-01") closed_shop.db)
