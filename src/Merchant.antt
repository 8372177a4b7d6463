-- ===== src/Merchant.antt =====
-- internal/merchant: orders backed by invoices of the node, refunds, settlement and reconciliation.
pub mod Node
pub mod Orders
pub mod Refunds
pub mod Settlement
pub mod Reconcile
pub mod Export
pub mod Handlers
pub mod Writes
