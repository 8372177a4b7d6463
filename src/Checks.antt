-- ===== src/Checks.antt =====
-- Tests of the definitions on concrete inputs, and for each theorem an input at which it applies.
mod Samples
mod Indexing
mod Deliveries
mod Amounts
mod Gateway
mod Reading
pub mod Accounts
pub mod Access
pub mod Requests
pub mod Running
