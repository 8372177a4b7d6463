-- ===== src/Merchant/Orders/Stored.antt =====
-- What CreateOrder stores: the order that it returns is the one of the external id.
use padma.Base.{
  suc, ◌≡◌, refl, sym, ap, ◌∙◌, inl, inr, false, Option, none, some, [], Text, is_empty, length,
  first,
}
use padma.Errors.{Result, ok, err, wrapped, is}
use padma.Database.{
  Db, World, Action, Amount, Invoice, continue, pure, try, ◌>>=◌, wrap, statement, rewrap, commit,
  new_id, read_now, lift, raise,
}
use padma.Merchant.Node.{new_invoice}
use padma.Database.Rows.{Time, OrderRow}
use padma.Database.Cases.{statement_cases}
use padma.Platform.Fibertypes.{Fibertypes}
use padma.Platform.Columns.{Pgx}
use padma.Merchant.Orders.{
  Order, has_external, same_order, place, mint, new_order, null_if_empty, order_by_external_id,
  insert_order, winner, reuse, asset_or_ckb, create_order,
}
use padma.Merchant.Orders.Repeat.{scan_order_cases, looked_up, created, created_named}
use padma.Merchant.Orders.Insert.{Settled, insert_order-Settled}
use padma.Merchant.Orders.Winner.{Stores, winner-Stores}

module _ (lib : Fibertypes) (pgx : Pgx) (rfc3339 : Time → Text) (merchant_id ext_id : Text) where
  -- the id that CreateOrder would draw belongs to no order once the node has answered
  abbrev pub IsFresh : (Db → Db) → World → Type 0
  IsFresh others w = first (same_order (w.ulids w.minted)) (others w.db).merchant_orders ≡ none

  module _ (others : Db → Db) (amount : Amount) (asset : Text)
      (named : is_empty ext_id ≡ false) where
    -- what follows the insert
    abbrev tail : Text → Invoice → Action (Order × Invoice)
    tail order_id inv =
        try (order_by_external_id lib pgx rfc3339 merchant_id ext_id)
        >>= winner lib pgx rfc3339 merchant_id order_id inv

    after_insert :
        (order_id : Text) (inv i : Invoice) (o : Order) (v w' : World) (r : Result (Unit {0}) × Db)
        → (r.0 ≡ ok tt
            → (row : OrderRow) × Settled merchant_id ext_id order_id r.1.merchant_orders row)
        → continue
            (rewrap (wrapped "merchant: insert order: %w" []) (commit v r))
            (λ _. tail order_id inv)
          ≡ (ok (o, i), w')
        → Stores lib pgx rfc3339 merchant_id ext_id w' o
    after_insert order_id inv i o v w' (ok u, db) settles h =
        let (row, settled) = settles refl in
        winner-Stores lib pgx rfc3339 merchant_id ext_id order_id inv i o (record v { db = db }) w'
          row settled h
    after_insert order_id inv i o v w' (err e, db) settles h = absurd (cc)

    named_some : null_if_empty ext_id ≡ some ext_id
    named_some = rw named refl

    inserted :
        (inv i : Invoice) (o : Order) (v w' : World) (order_id : Text) (now : Time)
        → first (same_order order_id) v.db.merchant_orders ≡ none
        → (wrap (wrapped "merchant: insert order: %w" []) (
                statement (
                  insert_order
                    (new_order order_id merchant_id ext_id inv.payment_hash amount asset now)))
              >>= λ _. tail order_id inv)
            v
          ≡ (ok (o, i), w')
        → Stores lib pgx rfc3339 merchant_id ext_id w' o
    unfolding wrap ◌>>=◌
    inserted inv i o v w' order_id now fresh h =
        let order = new_order order_id merchant_id ext_id inv.payment_hash amount asset now in
        let (rest, fared) = statement_cases (insert_order order) v in
        let go : Result (Unit {0}) × World → Result (Order × Invoice) × World = λ z.
          continue (rewrap (wrapped "merchant: insert order: %w" []) z) (λ _. tail order.id inv) in
        elim fared [
          | inl e ↦
              after_insert order.id inv i o (record v { faults = rest }) w'
                (insert_order order v.db) (insert_order-Settled order ext_id v.db named_some fresh)
                (sym (ap go e) ∙ h)
          | inr (m, e) ↦ absurd (cc (sym (ap go e) ∙ h))
        ]

    place_named :
        (inv : Invoice) (v : World)
        → place lib pgx rfc3339 merchant_id ext_id amount asset inv v
          ≡ (wrap (wrapped "merchant: insert order: %w" []) (
                  statement (
                    insert_order (
                      new_order
                        (v.ulids v.minted)
                        merchant_id
                        ext_id
                        inv.payment_hash
                        amount
                        asset
                        v.now)))
                >>= λ _. tail (v.ulids v.minted) inv)
              (record v { minted = suc v.minted })
    unfolding place new_id read_now ◌>>=◌
    place_named inv v = rw named refl

    answered :
        (i : Invoice) (o : Order) (v w' : World) (reply : Result Invoice)
        → first (same_order (v.ulids v.minted)) v.db.merchant_orders ≡ none
        → continue
            (rewrap (wrapped "merchant: new invoice: %w" []) (reply, v))
            (place lib pgx rfc3339 merchant_id ext_id amount asset)
          ≡ (ok (o, i), w')
        → Stores lib pgx rfc3339 merchant_id ext_id w' o
    answered i o v w' (ok inv) fresh h =
        inserted inv i o (record v { minted = suc v.minted }) w' (v.ulids v.minted) v.now fresh
          (sym (place_named inv v) ∙ h)
    answered i o v w' (err x) fresh h = absurd (cc)

    mint-Stores :
        (i : Invoice) (o : Order) (w w' : World)
        → IsFresh others w
        → mint lib pgx rfc3339 others merchant_id ext_id amount asset w ≡ (ok (o, i), w')
        → Stores lib pgx rfc3339 merchant_id ext_id w' o
    unfolding mint new_invoice wrap ◌>>=◌
    mint-Stores i o w w' fresh h = answered i o _ w' (w.invoice_reply (length w.calls)) fresh h

  module _ (others : Db → Db) (amount_hex asset : Text) (named : is_empty ext_id ≡ false) where
    -- what is made of the first look
    looked_first :
        (amount : Amount) (i : Invoice) (o : Order) (v w' : World) (found : Option OrderRow)
        → IsFresh others v
        → first (has_external merchant_id ext_id) v.db.merchant_orders ≡ found
        → reuse lib pgx rfc3339 others merchant_id ext_id amount
            (asset_or_ckb asset)
            (looked_up lib pgx rfc3339 found)
            v
          ≡ (ok (o, i), w')
        → Stores lib pgx rfc3339 merchant_id ext_id w' o
    unfolding pure is
    looked_first amount i o v w' none fresh e h =
        mint-Stores others amount (asset_or_ckb asset) named i o v w' fresh h
    looked_first amount i o v w' (some row) fresh e h = (row, cc (e, h), cc h)

    parsed_first :
        (amount : Amount) (i : Invoice) (o : Order) (w w' : World)
        → IsFresh others w
        → lib.parse_amount amount_hex ≡ ok amount
        → created lib pgx rfc3339 others merchant_id ext_id amount_hex asset w ≡ (ok (o, i), w')
        → Stores lib pgx rfc3339 merchant_id ext_id w' o
    unfolding order_by_external_id is raise
    parsed_first amount i o w w' fresh parsed h =
        let (rest, looks) =
          scan_order_cases lib pgx rfc3339
            (λ db. first (has_external merchant_id ext_id) db.merchant_orders) w in
        let go : Result Order × World → Result (Order × Invoice) × World = λ z.
          reuse lib pgx rfc3339 others merchant_id ext_id amount (asset_or_ckb asset) z.0 z.1 in
        let h' =
          sym (
            created_named lib pgx rfc3339 others merchant_id ext_id amount_hex asset w amount named
              parsed)
          ∙ h in
        elim looks [
          | inl e ↦
              looked_first amount i o (record w { faults = rest }) w' _ fresh refl
                (sym (ap go e) ∙ h')
          | inr (m, e) ↦ absurd (cc (sym (ap go e) ∙ h'))
        ]

    -- A request with an external id that returns leaves its order in the database under that id,
    -- whoever created it, if the id that it drew is new.
    pub create_order_stored :
        (i : Invoice) (o : Order) (w w' : World)
        → IsFresh others w
        → created lib pgx rfc3339 others merchant_id ext_id amount_hex asset w ≡ (ok (o, i), w')
        → Stores lib pgx rfc3339 merchant_id ext_id w' o
    unfolding create_order ◌>>=◌ lift
    create_order_stored i o w w' fresh h = parse_first (lib.parse_amount amount_hex) refl
      where
        parse_first :
            (r : Result Amount)
            → lib.parse_amount amount_hex ≡ r
            → Stores lib pgx rfc3339 merchant_id ext_id w' o
        parse_first (ok amount) e = parsed_first amount i o w w' fresh e h
        parse_first (err x) e = absurd (cc (e, h))
