-- ===== src/Indexer/Queued.antt =====
-- What a Save leaves in the outbox.
use padma.Base.{
  ℕ, ◌≡◌, sym, ap, ap₂, subst, ◌∙◌, some, List, [], ◌∷◌, Text, All, All-imp, All-map, if◌then◌else◌,
  map, select,
}
use padma.Errors.{ok, wrapped, or_wrap, ok_injective, bind-eq-ok}
use padma.Database.{Db, World}
use padma.Database.Rows.{Time, EndpointRow, DeliveryRow}
use padma.Indexer.Events.{Event, Codec}
use padma.Indexer.Deliveries.{EndpointSnapshot, matches, snapshot, delivery_id}
use padma.Indexer.Projector.{Projector, event_row}
use padma.Indexer.Projections.{insert_event, advance}
use padma.Indexer.Effect.{
  add_deliveries, subscribers, fan_out, projected, applied, applied_all, flushed,
}
use padma.Indexer.Outbox.{IsQueued, find_delivery, IsQueued-add_deliveries, find-add_deliveries}
use padma.Indexer.Subscribed.{
  subscribed, subscribers_lem, SameSubscriptions, id_of, projected_keeps,
}
use padma.Indexer.Added.{Added, IsNew, applied_all-Added}
use padma.Indexer.Save.{saved, save_returned}

subscribers_same :
    (e : Event) (db d : Db) → SameSubscriptions db d → subscribers e d ≡ subscribers e db
unfolding subscribers
subscribers_same e db d same =
    ap₂ (λ b eps. if b then map snapshot (select (matches e.event_type) eps) else []) same.tables
      same.endpoints

module _ (codec : Codec) (digest : Text → Text) where
  fan_out_adds :
      (e : Event) (now : Time) (eps : List EndpointSnapshot) (db d : Db)
      → fan_out codec digest e now eps db ≡ ok d
      → SameSubscriptions db d
        × ((payload : Text) × (d.webhook_deliveries
              ≡ add_deliveries codec digest e payload now eps db.webhook_deliveries))
  unfolding fan_out add_deliveries
  fan_out_adds e now [] db d h =
      let same = sym (ok_injective h) in
      (
        record {
          tables = ap (λ (x : Db). x.has_webhook_tables) same;
          endpoints = ap (λ (x : Db). x.webhook_endpoints) same;
        },
        ([], ap (λ (x : Db). x.webhook_deliveries) same),
      )
  fan_out_adds e now (ep ∷ eps) db d h =
      let (payload, encoded, stored) =
        bind-eq-ok (or_wrap (wrapped "indexer: marshal delivery payload: %w" []) (codec.marshal e))
          (λ payload. ok (record db {
            webhook_deliveries =
                add_deliveries codec digest e payload now (ep ∷ eps) db.webhook_deliveries;
          }))
          h in
      let same = sym (ok_injective stored) in
      (
        record {
          tables = ap (λ (x : Db). x.has_webhook_tables) same;
          endpoints = ap (λ (x : Db). x.webhook_endpoints) same;
        },
        (payload, ap (λ (x : Db). x.webhook_deliveries) same),
      )

  -- a row of the outbox stays where it is, as it is
  abbrev KeepsRows : List DeliveryRow → List DeliveryRow → Type 0
  KeepsRows ds ds' =
      (k : Text) (r : DeliveryRow) → find_delivery k ds ≡ some r → find_delivery k ds' ≡ some r

  abbrev Applied : Event → Db → Db → Type 0
  Applied e db d =
      SameSubscriptions db d
      × All (IsQueued codec digest e d.webhook_deliveries) (subscribers e db)
      × KeepsRows db.webhook_deliveries d.webhook_deliveries

  applied_queues :
      (seq : ℕ) (now : Time) (e : Event) (db d : Db)
      → applied codec digest seq now e db ≡ ok d
      → Applied e db d
  unfolding applied
  applied_queues seq now e db d h =
      let (d₁, projects, fans) =
        bind-eq-ok (projected codec digest e (insert_event (event_row codec digest e seq) db)) _
          h in
      let (same, kept) = projected_keeps codec digest e _ d₁ projects in
      let (same', (payload, added)) = fan_out_adds e now (subscribers e d₁) d₁ d fans in
      let eps =
        subscribers_same e db d₁ (record { tables = same.tables; endpoints = same.endpoints }) in
      (
        record {
          tables = same'.tables ∙ same.tables;
          endpoints = same'.endpoints ∙ same.endpoints;
        },
        subst (All (IsQueued codec digest e d.webhook_deliveries)) eps (
            subst (λ (ds : List DeliveryRow). All (IsQueued codec digest e ds) (subscribers e d₁))
              (sym added)
              (IsQueued-add_deliveries codec digest e payload now (subscribers e d₁)
                d₁.webhook_deliveries)),
        λ k r there.
            subst (λ (ds : List DeliveryRow). find_delivery k ds ≡ some r) (sym added)
              (find-add_deliveries codec digest e payload now (subscribers e d₁)
                d₁.webhook_deliveries k r
                (subst (λ (ds : List DeliveryRow). find_delivery k ds ≡ some r) (sym kept) there)),
      )

  -- every event has its deliveries, for the subscriptions of the database `db`
  abbrev AllQueued : List Event → Db → Db → Type 0
  AllQueued es db d =
      All (λ e. All (IsQueued codec digest e d.webhook_deliveries) (subscribers e db)) es

  IsQueued-still :
      (e : Event) (ds ds' : List DeliveryRow) (eps : List EndpointSnapshot)
      → KeepsRows ds ds'
      → All (IsQueued codec digest e ds) eps
      → All (IsQueued codec digest e ds') eps
  IsQueued-still e ds ds' eps keeps =
      All-imp (IsQueued codec digest e ds) (IsQueued codec digest e ds')
        (λ ep (q : IsQueued codec digest e ds ep). (q.0, keeps _ q.0 q.1)) eps

  applied_all_queues :
      (seq : ℕ) (now : Time) (es : List Event) (db d : Db)
      → applied_all codec digest seq now es db ≡ ok d
      → AllQueued es db d × KeepsRows db.webhook_deliveries d.webhook_deliveries
  unfolding applied_all
  applied_all_queues seq now [] db d h = (
    tt,
    λ k r there.
        subst (λ (x : Db). find_delivery k x.webhook_deliveries ≡ some r) (ok_injective h) there,
  )
  applied_all_queues seq now (e ∷ es) db d h =
      let (d₁, one, rest) = bind-eq-ok (applied codec digest seq now e db) _ h in
      let (same, queued, kept) = applied_queues seq now e db d₁ one in
      let (later, kept') = applied_all_queues seq now es d₁ d rest in
      (
        (
          IsQueued-still e d₁.webhook_deliveries d.webhook_deliveries (subscribers e db) kept'
              queued,
          All-imp _ _
              (λ e' (q : All (IsQueued codec digest e' d.webhook_deliveries) (subscribers e' d₁)).
                subst (All (IsQueued codec digest e' d.webhook_deliveries))
                  (subscribers_same e' db d₁ same) q)
              es later,
        ),
        λ k r there. kept' k r (kept k r there),
      )

  -- the delivery of the event to the endpoint is in the outbox, under the id derived from both
  abbrev pub IsThere : Event → List DeliveryRow → EndpointRow → Type 0
  IsThere e ds ep = (r : DeliveryRow) × (find_delivery (id_of digest e ep) ds ≡ some r)

  AllQueued-IsThere :
      (e : Event) (db : Db) (ds : List DeliveryRow)
      → All (IsQueued codec digest e ds) (subscribers e db)
      → All (IsThere e ds) (subscribed e db)
  unfolding delivery_id
  AllQueued-IsThere e db ds queued =
      All-map (IsQueued codec digest e ds) snapshot (subscribed e db)
        (subst (All (IsQueued codec digest e ds)) (subscribers_lem e db) queued)

  -- what a Save made of the outbox
  pub record Queued (now : Time) (es : List Event) (db d : Db) : Type 0 where
    pub complete : All (λ e. All (IsThere e d.webhook_deliveries) (subscribed e db)) es
    pub sound : Added (IsNew codec digest now es db) db.webhook_deliveries d.webhook_deliveries
    pub kept :
        (k : Text) (r : DeliveryRow)
        → find_delivery k db.webhook_deliveries ≡ some r
        → find_delivery k d.webhook_deliveries ≡ some r

  applied_all-Queued :
      (seq : ℕ) (now : Time) (es : List Event) (db d : Db)
      → applied_all codec digest seq now es db ≡ ok d
      → Queued now es db d
  applied_all-Queued seq now es db d all =
      let (queued, kept) = applied_all_queues seq now es db d all in
      record {
        complete =
            All-imp _ _
              (λ e (q : All (IsQueued codec digest e d.webhook_deliveries) (subscribers e db)).
                AllQueued-IsThere e db d.webhook_deliveries q)
              es queued;
        sound = applied_all-Added codec digest now seq es db d all;
        kept = kept;
      }

  -- No event is lost between the store and the outbox, and no endpoint gets what it did not ask for. A
  -- Save that returned leaves, for each event of its buffer and each active endpoint that lists the
  -- event's type, a delivery under the id derived from the ids of both; what it added behind the
  -- rows of the outbox are new deliveries of such an event to such an endpoint, each with that id,
  -- the endpoint's id, URL and secret, the event's id and JSON, pending and due now; and each
  -- delivery that was there before is found as it was.
  pub save_queues :
      (seq : ℕ) (p : Projector) (w : World)
      → (saved codec digest seq p w).0 ≡ ok tt
      → Queued w.now p.buf w.db (saved codec digest seq p w).1.db
  unfolding flushed
  save_queues seq p w done =
      let (d, all, stored) =
        bind-eq-ok (applied_all codec digest seq w.now p.buf w.db)
          (λ (y : Db). ok (advance seq w.now y)) (save_returned codec digest seq p w done) in
      let same = ap (λ (x : Db). x.webhook_deliveries) (ok_injective stored) in
      let queued = applied_all-Queued seq w.now p.buf w.db d all in
      record {
        complete =
            subst
              (λ (ds : List DeliveryRow). All (λ e. All (IsThere e ds) (subscribed e w.db)) p.buf)
              same queued.complete;
        sound =
            subst (Added (IsNew codec digest w.now p.buf w.db) w.db.webhook_deliveries) same
              queued.sound;
        kept = λ k r there.
            subst (λ (ds : List DeliveryRow). find_delivery k ds ≡ some r) same
              (queued.kept k r there);
      }
