-- ===== src/Webhook/Run/Swept.antt =====
-- What the sweeper reaches.
use padma.Base.{◌≡◌, false, List, All}
use padma.Database.Rows.{Time, DeliveryRow}
use padma.Webhook.Store.{is_stuck}

-- no delivery has a lease that is up
abbrev pub NoneStuck : Time → List DeliveryRow → Type 0
NoneStuck now ds = All (λ (r : DeliveryRow). is_stuck now r ≡ false) ds
