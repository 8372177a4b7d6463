-- ===== src/Merchant/Export.antt =====
-- internal/merchant/export.go: the accounting rows of a period, as CSV or as a workbook.
pub mod Trip
use padma.Base.{
  ℕ, ◌+◌, Bool, true, false, Option, none, some, List, [], ◌∷◌, ◌++◌, map, Text, codes, ◌==◌, ◌||◌,
  select, leb, if◌then◌else◌,
}
use padma.Errors.{
  Result, ok, err, sentinel, wrapped, or_wrap, quoted, invalid_state, ◌>>=◌ as ◌>=>◌,
}
use padma.Database.{Db, Action, pure, lift, query, wrap, ◌>>=◌}
use padma.Database.Rows.{Time, OrderRow}
use padma.Platform.Csv.{write, write_all}
use padma.Platform.Fibertypes.{Fibertypes}
use padma.Platform.Columns.{Pgx, scan_numeric}
use padma.Merchant.Orders.{or_empty}
use padma.Merchant.Refunds.{status_text}
use padma.Merchant.Settlement.{must_amount, refunds_of, in_period}

-- exportHeader
abbrev pub export_header : List Text
export_header =
    codes "order_id"
    ∷ codes "external_order_id"
    ∷ codes "asset"
    ∷ codes "amount"
    ∷ codes "status"
    ∷ codes "paid_at"
    ∷ codes "refund_amount"
    ∷ []

-- ExportRow
pub record ExportRow : Type 0 where
  pub order_id : Text
  pub external_id : Text
  pub asset : Text
  pub amount : Text
  pub status : Text
  pub paid_at : Text
  pub refund_amount : Text

-- cells
abbrev pub cells : ExportRow → List Text
cells r =
    r.order_id ∷ r.external_id ∷ r.asset ∷ r.amount ∷ r.status ∷ r.paid_at ∷ r.refund_amount ∷ []

-- buildCSV
unfoldable pub build_csv : List ExportRow → Text
build_csv rows = write export_header ++ write_all (map cells rows)

-- the workbooks of the excelize library
pub record Excelize : Type 1 where
  pub File : Type 0
  pub new_file : File
  pub new_sheet : Text → File → Result ℕ × File
  pub set_active_sheet : ℕ → File → File
  pub delete_sheet : Text → File → File
  pub coordinates_to_cell_name : ℕ → ℕ → Text
  pub set_cell_value : Text → Text → Text → File → File
  pub write_to_buffer : File → Result Text

module _ (excelize : Excelize) where
  open excelize use {
    File, new_file, new_sheet, set_active_sheet, delete_sheet, coordinates_to_cell_name,
    set_cell_value, write_to_buffer,
  }

  abbrev pub sheet : Text
  sheet = codes "Orders"

  -- the loop over the cells of a row; `c` is the column and `row` the row, from 1
  unfoldable pub set_cells : ℕ → ℕ → List Text → File → File
  set_cells c row [] f = f
  set_cells c row (v ∷ vs) f =
      set_cells (c + 1) row vs (set_cell_value sheet (coordinates_to_cell_name c row) v f)

  -- the loop over the rows
  unfoldable pub set_rows : ℕ → List ExportRow → File → File
  unfolding set_cells
  set_rows row [] f = f
  set_rows row (r ∷ rs) f = set_rows (row + 1) rs (set_cells 1 row (cells r) f)

  abbrev pub filled : List ExportRow → Result ℕ × File → Result Text
  filled rows (err e, f) = err (wrapped "merchant: xlsx sheet: %w" [] e)
  filled rows (ok idx, f) =
      let f' = delete_sheet (codes "Sheet1") (set_active_sheet idx f) in
      or_wrap (wrapped "merchant: xlsx write: %w" [])
        (write_to_buffer (set_rows 2 rows (set_cells 1 1 export_header f')))

  -- buildXLSX
  unfoldable pub build_xlsx : List ExportRow → Result Text
  unfolding set_rows
  build_xlsx rows = filled rows (new_sheet sheet new_file)

-- ORDER BY paid_at; the rows have one
abbrev pub paid_before : Option Time → Option Time → Bool
paid_before none t = false
paid_before (some t) none = true
paid_before (some t) (some t') = leb t t'

unfoldable pub insert_by_paid : OrderRow → List OrderRow → List OrderRow
insert_by_paid o [] = o ∷ []
insert_by_paid o (x ∷ xs) =
    if paid_before o.paid_at x.paid_at then o ∷ x ∷ xs else x ∷ insert_by_paid o xs

unfoldable pub sort_by_paid : List OrderRow → List OrderRow
unfolding insert_by_paid
sort_by_paid [] = []
sort_by_paid (o ∷ os) = insert_by_paid o (sort_by_paid os)

-- filename, contentType and data
pub record Exported : Type 0 where
  pub filename : Text
  pub content_type : Text
  pub bytes : Text

abbrev pub csv_file : Text → List ExportRow → Exported
csv_file period rows = record {
  filename = codes "settlement-" ++ (period ++ codes ".csv");
  content_type = codes "text/csv";
  bytes = build_csv rows;
}

abbrev pub xlsx_file : Text → Text → Exported
xlsx_file period b = record {
  filename = codes "settlement-" ++ (period ++ codes ".xlsx");
  content_type = codes "application/vnd.openxmlformats-officedocument.spreadsheetml.sheet";
  bytes = b;
}

-- `utc_text` is the format "2006-01-02T15:04:05Z" of the time in UTC
module _ (lib : Fibertypes) (pgx : Pgx) (utc_text : Time → Text) where
  abbrev pub paid_text : Option Time → Text
  paid_text none = []
  paid_text (some t) = utc_text t

  -- the columns of the query, and the body of the loop
  unfoldable pub export_row : Db → OrderRow → ExportRow
  export_row db o = record {
    order_id = o.id;
    external_id = or_empty o.external_order_id;
    asset = or_empty o.asset;
    amount = lib.hex (must_amount lib pgx (scan_numeric pgx o.amount));
    status = status_text o.status;
    paid_at = paid_text o.paid_at;
    refund_amount =
        lib.hex (must_amount lib pgx (scan_numeric pgx (some (refunds_of o.id db.refunds))));
  }

  module _ (period_of : Time → Text) where
    -- the rows of the query
    unfoldable pub selected_rows : Text → Text → Db → List ExportRow
    unfolding sort_by_paid export_row
    selected_rows merchant_id period db =
        map (export_row db)
          (sort_by_paid (select (in_period period_of merchant_id period) db.merchant_orders))

    -- exportRows
    unfoldable pub export_rows : Text → Text → Action (List ExportRow)
    unfolding selected_rows
    export_rows merchant_id period =
        wrap (wrapped "merchant: export query: %w" []) (query (selected_rows merchant_id period))

    module _ (excelize : Excelize) where
      -- the switch on the format
      unfoldable pub render : Text → Text → List ExportRow → Result Exported
      unfolding build_csv build_xlsx
      render period format rows =
          if format == [] || format == codes "csv"
          then ok (csv_file period rows)
          else if format == codes "xlsx"
          then (build_xlsx excelize rows >=> λ b. ok (xlsx_file period b))
          else err
              (wrapped "%w: format %q (want csv|xlsx)" (quoted format) (sentinel invalid_state))

      -- Export
      unfoldable pub export : Text → Text → Text → Action Exported
      unfolding export_rows render
      export merchant_id period format = do
        rows ← export_rows merchant_id period
        lift (render period format rows)
