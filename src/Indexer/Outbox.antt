-- ===== src/Indexer/Outbox.antt =====
-- The deliveries of an event: one for each subscription, and none that was there is touched.
use padma.Base.{
  ◌≡◌, refl, ◌∙◌, Option, some, List, [], ◌∷◌, Text, All, find, insert_new, find-insert_new,
  insert_new_found, insert_new_present,
}
use padma.Database.Rows.{Time, DeliveryRow}
use padma.Indexer.Events.{Event, Codec}
use padma.Indexer.Deliveries.{EndpointSnapshot, delivery_id, new_delivery}
use padma.Indexer.Effect.{add_deliveries}

abbrev pub delivery_key : DeliveryRow → Text
delivery_key r = r.id

abbrev pub find_delivery : Text → List DeliveryRow → Option DeliveryRow
find_delivery k ds = find delivery_key k ds

module _ (codec : Codec) (digest : Text → Text) where
  -- Rows that are in the outbox stay as they are, whatever was delivered of them since.
  pub find-add_deliveries :
      (e : Event) (payload : Text) (now : Time) (eps : List EndpointSnapshot)
      (ds : List DeliveryRow) (k : Text) (r : DeliveryRow)
      → find_delivery k ds ≡ some r
      → find_delivery k (add_deliveries codec digest e payload now eps ds) ≡ some r
  unfolding add_deliveries
  find-add_deliveries e payload now [] ds k r h = h
  find-add_deliveries e payload now (ep ∷ eps) ds k r h =
      find-add_deliveries e payload now eps _ k r
        (find-insert_new delivery_key k (new_delivery codec digest e payload now ep) ds ∙ rw h refl)

  -- the delivery of the event to the subscription is in the outbox
  abbrev pub IsQueued : Event → List DeliveryRow → EndpointSnapshot → Type 0
  IsQueued e ds ep = (r : DeliveryRow) × (find_delivery (delivery_id codec digest e ep) ds ≡ some r)

  IsQueued-insert_new :
      (e : Event) (payload : Text) (now : Time) (ep : EndpointSnapshot) (ds : List DeliveryRow)
      → IsQueued e (insert_new delivery_key (new_delivery codec digest e payload now ep) ds) ep
  unfolding new_delivery
  IsQueued-insert_new e payload now ep ds =
      insert_new_found delivery_key (new_delivery codec digest e payload now ep) ds

  -- Every subscription has its delivery afterwards.
  pub IsQueued-add_deliveries :
      (e : Event) (payload : Text) (now : Time) (eps : List EndpointSnapshot)
      (ds : List DeliveryRow)
      → All (IsQueued e (add_deliveries codec digest e payload now eps ds)) eps
  unfolding add_deliveries
  IsQueued-add_deliveries e payload now [] ds = tt
  IsQueued-add_deliveries e payload now (ep ∷ eps) ds =
      let (r, h) = IsQueued-insert_new e payload now ep ds in
      (
        (r, find-add_deliveries e payload now eps _ _ r h),
        IsQueued-add_deliveries e payload now eps _,
      )

  -- Where every subscription has its delivery, nothing is added.
  pub add_deliveries_queued :
      (e : Event) (payload : Text) (now : Time) (eps : List EndpointSnapshot)
      (ds : List DeliveryRow)
      → All (IsQueued e ds) eps
      → add_deliveries codec digest e payload now eps ds ≡ ds
  unfolding add_deliveries
  add_deliveries_queued e payload now [] ds q = refl
  add_deliveries_queued e payload now (ep ∷ eps) ds ((r, h), q) =
      rw
        (insert_new_present delivery_key (new_delivery codec digest e payload now ep) r ds
          (unfold new_delivery in h))
        (add_deliveries_queued e payload now eps ds q)
