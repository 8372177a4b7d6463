-- ===== src/Indexer/Added.antt =====
-- What a flush adds to the outbox.
use padma.Base.{
  ℕ, ◌≡◌, refl, sym, ap, subst, ◌∙◌, inl, inr, List, [], ◌∷◌, ◌++◌, append-nil, append_assoc, Text,
  ◌==◌, All, All-imp, All-append, Any, here, there, Any-imp, Bool-cases, map, insert_new,
}
use padma.Errors.{ok, wrapped, or_wrap, or_wrap_returned, ok_injective, bind-eq-ok}
use padma.Database.{Db}
use padma.Database.Rows.{Time, EndpointRow, DeliveryRow}
use padma.Indexer.Events.{Event, Codec}
use padma.Indexer.Deliveries.{snapshot, new_delivery}
use padma.Indexer.Projector.{event_row}
use padma.Indexer.Projections.{insert_event}
use padma.Indexer.Effect.{add_deliveries, fan_out, projected, applied, applied_all}
use padma.Indexer.Outbox.{delivery_key}
use padma.Indexer.Subscribed.{
  subscribed, subscribers_lem, SameSubscriptions, subscribed_same, IsDeliveryOf,
  new_delivery-IsDeliveryOf, projected_keeps,
}

-- rows with the property were added behind those that were there
abbrev pub Added : (DeliveryRow → Type 0) → List DeliveryRow → List DeliveryRow → Type 0
Added P ds ds' = (added : List DeliveryRow) × (ds' ≡ ds ++ added) × All P added

module _ (P : DeliveryRow → Type 0) where
  Added-none : (ds : List DeliveryRow) → Added P ds ds
  Added-none ds = ([], sym (append-nil ds), tt)

  Added-trans : (a b c : List DeliveryRow) → Added P a b → Added P b c → Added P a c
  Added-trans a b c (xs, ab, hx) (ys, bc, hy) = (
    xs ++ ys,
    bc ∙ ap (λ (l : List DeliveryRow). l ++ ys) ab ∙ append_assoc a xs ys,
    All-append P xs ys hx hy,
  )

  insert_new-Added :
      (r : DeliveryRow) → P r → (ds : List DeliveryRow) → Added P ds (insert_new delivery_key r ds)
  unfolding insert_new
  insert_new-Added r p [] = (r ∷ [], refl, (p, tt))
  insert_new-Added r p (d ∷ ds) = elim (Bool-cases (d.id == r.id)) [
    | inl same ↦ rw same (Added-none (d ∷ ds))
    | inr other ↦ let (xs, e, h) = insert_new-Added r p ds in rw other (xs, ap (◌∷◌ d) e, h)
  ]

Added-imp :
    (P Q : DeliveryRow → Type 0) (ds ds' : List DeliveryRow)
    → ((r : DeliveryRow) → P r → Q r)
    → Added P ds ds'
    → Added Q ds ds'
Added-imp P Q ds ds' imp (xs, e, h) = (xs, e, All-imp P Q imp xs h)

module _ (codec : Codec) (digest : Text → Text) (now : Time) where
  -- the row is a new delivery of the event to one of the endpoints
  abbrev pub IsFor : Event → List EndpointRow → DeliveryRow → Type 0
  IsFor e eps r = Any (λ (ep : EndpointRow). IsDeliveryOf codec digest now e ep r) eps

  add_deliveries-Added :
      (e : Event) (payload : Text) (eps : List EndpointRow) (ds : List DeliveryRow)
      → codec.marshal e ≡ ok payload
      → Added (IsFor e eps) ds (add_deliveries codec digest e payload now (map snapshot eps) ds)
  unfolding add_deliveries
  add_deliveries-Added e payload [] ds marshals = Added-none _ ds
  add_deliveries-Added e payload (ep ∷ eps) ds marshals =
      let r = new_delivery codec digest e payload now (snapshot ep) in
      Added-trans _ ds (insert_new delivery_key r ds) _
        (insert_new-Added _ r
          (here (new_delivery-IsDeliveryOf codec digest now e ep payload marshals)) ds)
        (Added-imp (IsFor e eps) _ _ _ (λ x h. there h)
          (add_deliveries-Added e payload eps (insert_new delivery_key r ds) marshals))

  -- a fan-out that passed changed nothing but the outbox, to which it added
  fan_out-Added :
      (e : Event) (eps : List EndpointRow) (db d : Db)
      → fan_out codec digest e now (map snapshot eps) db ≡ ok d
      → SameSubscriptions db d × Added (IsFor e eps) db.webhook_deliveries d.webhook_deliveries
  unfolding fan_out
  fan_out-Added e [] db d h =
      let same = sym (ok_injective h) in
      (
        record {
          tables = ap (λ (x : Db). x.has_webhook_tables) same;
          endpoints = ap (λ (x : Db). x.webhook_endpoints) same;
        },
        subst (Added (IsFor e []) db.webhook_deliveries)
            (sym (ap (λ (x : Db). x.webhook_deliveries) same)) (Added-none _ db.webhook_deliveries),
      )
  fan_out-Added e (ep ∷ eps) db d h =
      let (payload, encoded, stored) =
        bind-eq-ok (or_wrap (wrapped "indexer: marshal delivery payload: %w" []) (codec.marshal e))
          (λ payload. ok (record db {
            webhook_deliveries =
                add_deliveries codec digest e payload now (map snapshot (ep ∷ eps))
                  db.webhook_deliveries;
          }))
          h in
      let same = sym (ok_injective stored) in
      (
        record {
          tables = ap (λ (x : Db). x.has_webhook_tables) same;
          endpoints = ap (λ (x : Db). x.webhook_endpoints) same;
        },
        subst (Added (IsFor e (ep ∷ eps)) db.webhook_deliveries)
            (sym (ap (λ (x : Db). x.webhook_deliveries) same))
            (add_deliveries-Added e payload (ep ∷ eps) db.webhook_deliveries
              (or_wrap_returned _ (codec.marshal e) encoded)),
      )

  applied-Added :
      (seq : ℕ) (e : Event) (db d : Db)
      → applied codec digest seq now e db ≡ ok d
      → SameSubscriptions db d
        × Added (IsFor e (subscribed e db)) db.webhook_deliveries d.webhook_deliveries
  unfolding applied
  applied-Added seq e db d h =
      let (d₁, projects, fans) =
        bind-eq-ok (projected codec digest e (insert_event (event_row codec digest e seq) db)) _
          h in
      let (same, kept) = projected_keeps codec digest e _ d₁ projects in
      let begun : SameSubscriptions db d₁ = record {
        tables = same.tables;
        endpoints = same.endpoints;
      } in
      let goes_to = subscribers_lem e d₁ ∙ ap (map snapshot) (subscribed_same e db d₁ begun) in
      let fans' = subst (λ eps. fan_out codec digest e now eps d₁ ≡ ok d) goes_to fans in
      let (same', added) = fan_out-Added e (subscribed e db) d₁ d fans' in
      (
        record {
          tables = same'.tables ∙ same.tables;
          endpoints = same'.endpoints ∙ same.endpoints;
        },
        subst (λ (ds : List DeliveryRow). Added (IsFor e (subscribed e db)) ds d.webhook_deliveries)
            kept added,
      )

  -- the row is a new delivery of one of the events to an endpoint that it is for
  abbrev pub IsNew : List Event → Db → DeliveryRow → Type 0
  IsNew es db r = Any (λ (e : Event). IsFor e (subscribed e db) r) es

  subscribed-IsNew :
      (es : List Event) (db d : Db)
      → SameSubscriptions db d
      → (r : DeliveryRow) → IsNew es d r
      → IsNew es db r
  subscribed-IsNew es db d same r h =
      Any-imp (λ (e : Event). IsFor e (subscribed e d) r)
        (λ (e : Event). IsFor e (subscribed e db) r)
        (λ e k. subst (λ (eps : List EndpointRow). IsFor e eps r) (subscribed_same e db d same) k) h

  pub applied_all-Added :
      (seq : ℕ) (es : List Event) (db d : Db)
      → applied_all codec digest seq now es db ≡ ok d
      → Added (IsNew es db) db.webhook_deliveries d.webhook_deliveries
  unfolding applied_all
  applied_all-Added seq [] db d h =
      subst (λ (x : Db). Added (IsNew [] db) db.webhook_deliveries x.webhook_deliveries)
        (ok_injective h) (Added-none _ db.webhook_deliveries)
  applied_all-Added seq (e ∷ es) db d h =
      let (d₁, one, rest) = bind-eq-ok (applied codec digest seq now e db) _ h in
      let (same, first_added) = applied-Added seq e db d₁ one in
      let later = applied_all-Added seq es d₁ d rest in
      Added-trans _ db.webhook_deliveries d₁.webhook_deliveries d.webhook_deliveries
        (Added-imp _ (IsNew (e ∷ es) db) _ _ (λ r k. here k) first_added)
        (Added-imp (IsNew es d₁) _ _ _ (λ r k. there (subscribed-IsNew es db d₁ same r k)) later)
