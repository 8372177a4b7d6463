-- ===== src/Merchant/Orders/Repeat.antt =====
-- CreateOrder on an external order id: a repeated request, and what a request leaves behind.
use padma.Base.{
  ◌≡◌, refl, ◌⊎◌, inl, inr, false, Option, none, some, List, [], Text, is_empty, first,
}
use padma.Errors.{Error, Result, ok, err, sentinel, reported, wrapped, is, not_found}
use padma.Database.{
  Db, World, Amount, Invoice, query_row, try, lift, ◌>>=◌, row_or_none, pure, raise,
}
use padma.Database.Rows.{Time, OrderRow}
use padma.Database.Cases.{statement_cases}
use padma.Platform.Fibertypes.{Fibertypes}
use padma.Platform.Columns.{Pgx}
use padma.Merchant.Orders.{
  Order, has_external, order_of, scan_order, scanned, order_by_external_id, reuse, create_order,
  asset_or_ckb,
}

module _ (lib : Fibertypes) (pgx : Pgx) (rfc3339 : Time → Text) where
  -- what a look for an order makes of the row
  abbrev pub looked_up : Option OrderRow → Result Order
  looked_up none = err (sentinel not_found)
  looked_up (some r) = ok (order_of lib pgx rfc3339 r)

  -- a look for an order finds what is there, or the statement fails
  abbrev pub Looks : World → Result Order → Result Order × World → Type 0
  Looks w found r =
      (rest : List (Option Text)) × ((r ≡ (found, record w { faults = rest }))
        ⊎ ((m : Text) × (r ≡ (
          err (wrapped "merchant: scan order: %w" [] (reported m)),
          record w { faults = rest },
        ))))

  scanned-row_or_none :
      (row : Option OrderRow) (w : World)
      → scanned lib pgx rfc3339 (row_or_none row, w) ≡ (looked_up row, w)
  unfolding is
  scanned-row_or_none none w = refl
  scanned-row_or_none (some r) w = refl

  pub scan_order_cases :
      (row : Db → Option OrderRow) (w : World)
      → Looks w (looked_up (row w.db)) (scan_order lib pgx rfc3339 row w)
  unfolding scan_order query_row is
  scan_order_cases row w =
      let (rest, fared) = statement_cases (λ db. (row_or_none (row db), db)) w in
      elim fared [
        | inl e ↦ (rest, inl (rw e (scanned-row_or_none (row w.db) (record w { faults = rest }))))
        | inr (m, e) ↦ (rest, inr (m, rw e refl))
      ]

  module _ (others : Db → Db) (merchant_id ext_id amount_hex asset : Text) where
    abbrev pub created : World → Result (Order × Invoice) × World
    created w = create_order lib pgx rfc3339 others merchant_id ext_id amount_hex asset w

    -- an amount that parses and an external id: the request looks for an order first
    pub created_named :
        (w : World) (a : Amount)
        → is_empty ext_id ≡ false
        → lib.parse_amount amount_hex ≡ ok a
        → created w
          ≡ reuse lib pgx rfc3339 others merchant_id ext_id a
              (asset_or_ckb asset)
              (order_by_external_id lib pgx rfc3339 merchant_id ext_id w).0
              (order_by_external_id lib pgx rfc3339 merchant_id ext_id w).1
    unfolding create_order lift ◌>>=◌ try
    created_named w a named parsed = rw (parsed, named) refl

    -- A request whose external id has an order returns that order or an error, makes no invoice, and
    -- leaves the database as it is.
    pub create_order_existing :
        (w : World) (r : OrderRow) (a : Amount)
        → is_empty ext_id ≡ false
        → lib.parse_amount amount_hex ≡ ok a
        → first (has_external merchant_id ext_id) w.db.merchant_orders ≡ some r
        → (((i : Invoice) × ((created w).0 ≡ ok (order_of lib pgx rfc3339 r, i)))
            ⊎ ((e : Error) × ((created w).0 ≡ err e)))
          × ((created w).1.db ≡ w.db)
          × ((created w).1.calls ≡ w.calls)
    unfolding order_by_external_id pure raise is
    create_order_existing w r a named parsed there =
        let (rest, looks) =
          scan_order_cases (λ db. first (has_external merchant_id ext_id) db.merchant_orders) w in
        elim looks [
          | inl e ↦ rw (created_named w a named parsed, e, there) (inl (_, refl), refl, refl)
          | inr (m, e) ↦ rw (created_named w a named parsed, e) (inr (_, refl), refl, refl)
        ]
