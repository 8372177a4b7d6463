-- ===== src/Indexer.antt =====
-- internal/indexer: the projector of semantic events.
pub mod Events
pub mod Deliveries
pub mod Projections
pub mod Projector
pub mod Effect
pub mod Refinement
pub mod Steady
pub mod Save
pub mod Outbox
pub mod Replay
pub mod Idempotent
pub mod Recovery
pub mod Subscribed
pub mod Added
pub mod Queued
pub mod Writes
pub mod Run
