-- ===== src/Query.antt =====
-- internal/query: the read side over the projections.
pub mod Cursor
pub mod Repo
pub mod Lists
pub mod Ordered
pub mod Follow
pub mod Complete
pub mod Handlers
pub mod Stats
