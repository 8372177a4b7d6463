-- ===== src/Platform.antt =====
-- internal/platform: the helpers that every feature shares.
pub mod Hex
pub mod Fibertypes
pub mod Numeric
pub mod Columns
pub mod Base64
pub mod Ids
pub mod Auth
pub mod Http
pub mod Csv
pub mod Config
