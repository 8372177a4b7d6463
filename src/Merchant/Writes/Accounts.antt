-- ===== src/Merchant/Writes/Accounts.antt =====
-- The same of the operations on a period: settlement, reconciliation and export.
use padma.Base.{List, [], ◌∷◌, ◌++◌, Text}
use padma.Database.{Db}
use padma.Database.Rows.{Time, SettlementRecord, RunRow}
use padma.Database.Preserves.{Preserves, Preserves-bind, Preserves-new_id, preserves_rules}
use padma.Platform.Fibertypes.{Fibertypes}
use padma.Platform.Columns.{Pgx}
use padma.Merchant.Settlement.{SettlementRow, settlement, persist, record_of}
use padma.Merchant.Reconcile.{reconciliation}
use padma.Merchant.Export.{Excelize, export_rows, export}

module _ {κ} (P : Db → Type κ) (lib : Fibertypes) (pgx : Pgx) where
  module _
      (settlements_keep : (s : SettlementRecord) (db : Db)
        → P db
        → P (record db { settlements = db.settlements ++ s ∷ [] })) where
    persist-Preserves :
        (merchant_id period : Text) (rows : List SettlementRow)
        → Preserves P (persist lib pgx merchant_id period rows)
    unfolding persist
    persist-Preserves merchant_id period [] = search preserves_rules
    persist-Preserves merchant_id period (r ∷ rows) =
        Preserves-bind P _ _ (Preserves-new_id P) λ id.
          Preserves-bind P _ _
            (search (preserves_rules, settlements_keep (record_of lib pgx id merchant_id period r)))
            λ _. persist-Preserves merchant_id period rows

    pub settlement-Preserves :
        (period_of : Time → Text) (merchant_id period : Text)
        → Preserves P (settlement lib pgx period_of merchant_id period)
    unfolding settlement
    settlement-Preserves period_of merchant_id period =
        search (preserves_rules, persist-Preserves) depth 12 fits 2000

  module _
      (runs_keep : (r : RunRow) (db : Db)
        → P db
        → P (record db { reconciliation_runs = db.reconciliation_runs ++ r ∷ [] })) where
    pub reconciliation-Preserves :
        (period_of : Time → Text) (merchant_id period : Text)
        → Preserves P (reconciliation lib pgx period_of merchant_id period)
    unfolding reconciliation
    reconciliation-Preserves period_of merchant_id period =
        search (preserves_rules, runs_keep) depth 12 fits 2000

  pub export-Preserves :
      (utc_text period_of : Time → Text) (excelize : Excelize) (merchant_id period format : Text)
      → Preserves P (export lib pgx utc_text period_of excelize merchant_id period format)
  unfolding export export_rows
  export-Preserves utc_text period_of excelize merchant_id period format =
      search preserves_rules depth 12 fits 2000
