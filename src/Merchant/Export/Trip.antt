-- ===== src/Merchant/Export/Trip.antt =====
-- What a CSV export holds.
use padma.Platform.Fibertypes.{Fibertypes}
