-- ===== src/Merchant/Orders/Winner.antt =====
-- What CreateOrder returns once the external id has an order.
use padma.Base.{◌≡◌, refl, sym, ap, ◌∙◌, inl, inr, Option, none, some, Text, first}
use padma.Errors.{Result, ok}
use padma.Database.{World, Action, Invoice, continue, pure, try, ◌>>=◌}
use padma.Database.Rows.{Time, OrderRow}
use padma.Platform.Fibertypes.{Fibertypes}
use padma.Platform.Columns.{Pgx}
use padma.Merchant.Orders.{
  Order, has_external, has_id, order_of, get_order, order_by_external_id, finish, winner,
}
use padma.Merchant.Orders.Repeat.{scan_order_cases, looked_up}
use padma.Merchant.Orders.Insert.{Settled}

module _ (lib : Fibertypes) (pgx : Pgx) (rfc3339 : Time → Text) (merchant_id ext_id : Text) where
  -- the database has the order that was returned, under the external id
  abbrev pub Stores : World → Order → Type 0
  Stores w o =
      (row : OrderRow) × (first (has_external merchant_id ext_id) w.db.merchant_orders ≡ some row)
      × (o ≡ order_of lib pgx rfc3339 row)

  abbrev pub returned : Invoice → Order → Action (Order × Invoice)
  returned inv order = pure (order, inv)

  looked_up_again :
      (order_id : Text) (inv i : Invoice) (o : Order) (v w' : World) (row : OrderRow)
      (found : Option OrderRow)
      → Settled merchant_id ext_id order_id v.db.merchant_orders row
      → first (has_id order_id merchant_id) v.db.merchant_orders ≡ found
      → continue (looked_up lib pgx rfc3339 found, v) (returned inv) ≡ (ok (o, i), w')
      → Stores w' o
  unfolding pure
  looked_up_again order_id inv i o v w' row none settled e h = cc
  looked_up_again order_id inv i o v w' row (some x) settled e h =
      (row, cc (settled.0, h), cc (settled.1 x e, h))

  pub finish-Stores :
      (order_id : Text) (inv i : Invoice) (o : Order) (v w' : World) (row : OrderRow)
      → Settled merchant_id ext_id order_id v.db.merchant_orders row
      → finish lib pgx rfc3339 merchant_id order_id inv v ≡ (ok (o, i), w')
      → Stores w' o
  unfolding finish get_order ◌>>=◌
  finish-Stores order_id inv i o v w' row settled h =
      let (rest, looks) =
        scan_order_cases lib pgx rfc3339
          (λ db. first (has_id order_id merchant_id) db.merchant_orders) v in
      elim looks [
        | inl e ↦
            looked_up_again order_id inv i o (record v { faults = rest }) w' row _ settled refl
              (sym (ap (λ (z : Result Order × World). continue z (returned inv)) e) ∙ h)
        | inr (m, e) ↦
            absurd (cc (sym (ap (λ (z : Result Order × World). continue z (returned inv)) e) ∙ h))
      ]

  won :
      (order_id : Text) (inv i : Invoice) (o : Order) (v w' : World) (row : OrderRow)
      → Settled merchant_id ext_id order_id v.db.merchant_orders row
      → winner lib pgx rfc3339 merchant_id order_id inv
          (looked_up lib pgx rfc3339 (first (has_external merchant_id ext_id) v.db.merchant_orders))
          v
        ≡ (ok (o, i), w')
      → Stores w' o
  unfolding pure
  won order_id inv i o v w' row settled h =
      let g : (ok (order_of lib pgx rfc3339 row, inv), v) ≡ (ok (o, i), w') =
        sym (
          ap (λ z. winner lib pgx rfc3339 merchant_id order_id inv (looked_up lib pgx rfc3339 z) v)
            settled.0)
        ∙ h in
      (row, cc (settled.0, g), cc g)

  pub winner-Stores :
      (order_id : Text) (inv i : Invoice) (o : Order) (v w' : World) (row : OrderRow)
      → Settled merchant_id ext_id order_id v.db.merchant_orders row
      → (try (order_by_external_id lib pgx rfc3339 merchant_id ext_id)
            >>= winner lib pgx rfc3339 merchant_id order_id inv)
          v
        ≡ (ok (o, i), w')
      → Stores w' o
  unfolding order_by_external_id ◌>>=◌ try pure
  winner-Stores order_id inv i o v w' row settled h =
      let (rest, looks) =
        scan_order_cases lib pgx rfc3339
          (λ db. first (has_external merchant_id ext_id) db.merchant_orders) v in
      let chosen : Result Order × World → Result (Order × Invoice) × World =
        λ z. winner lib pgx rfc3339 merchant_id order_id inv z.0 z.1 in
      elim looks [
        | inl e ↦
            won order_id inv i o (record v { faults = rest }) w' row settled (sym (ap chosen e) ∙ h)
        | inr (m, e) ↦
            finish-Stores order_id inv i o (record v { faults = rest }) w' row settled
              (sym (ap chosen e) ∙ h)
      ]
