-- ===== src/Checks/Access.antt =====
-- API keys and the merchant routes on concrete requests.
use padma.Base.{
  ◌≡◌, refl, sym, append-nil, ◌⊎◌, inr, some, List, [], ◌∷◌, ◌++◌, Option, Text, codes, ◌==◌, first,
  find,
}
use padma.Errors.{Result, ok, err, reported}
use padma.Database.{World, ◌>>=◌, new_id, wrap, statement, attempt, pure}
use padma.Database.Rows.{OrderRow, OrderStatus}
use padma.Platform.Http.{Request, error_response}
use padma.Platform.Auth.{hash_api_key, new_api_key, encode_to_string}
use padma.Merchant.Handlers.{Outside, refund_route, get_order_route, serve, handle, provision}
use padma.Merchant.Handlers.Guard.{Refusal, serve-Keyless}
use padma.Merchant.Handlers.Keys.{provision-serve}
use padma.Merchant.Handlers.Tenants.{serve-Stays}
use padma.Lifecycle.{order_key, Lives}
use padma.Lifecycle.Turns.{Turns, stop, serves, Turns-Lives}
use padma.Checks.Samples.{order}
use padma.Checks.Amounts.{fibertypes}
use padma.Checks.Gateway.{pgx, rfc3339, alone, paid_shop}
use padma.Checks.Accounts.{january, utc_text, excelize}

abbrev pub outside : Outside
outside = record {
  lib = fibertypes;
  pgx = pgx;
  rfc3339 = rfc3339;
  utc_text = utc_text;
  period_of = january;
  excelize = excelize;
  sha_256 = λ s. s;
  decode_order = λ body. err (reported (codes "EOF"));
  decode_refund = λ body. ok (record { amount = codes "0x64"; reason = body });
  others = alone;
}

abbrev pub request : Text → Request
request key = record {
  authorization = codes "Bearer " ++ key;
  query_param = λ name. [];
  url_param = λ name. codes "o1";
  body = codes "{}";
}

serve-Keyless_example :
    Refusal outside (serve outside refund_route (request (codes "guess")) paid_shop).0
    × ((serve outside refund_route (request (codes "guess")) paid_shop).1.db ≡ paid_shop.db)
    × ((serve outside refund_route (request (codes "guess")) paid_shop).1.calls ≡ paid_shop.calls)
    × ((serve outside refund_route (request (codes "guess")) paid_shop).1.minted ≡ paid_shop.minted)
    × ((serve outside refund_route (request (codes "guess")) paid_shop).1.drawn ≡ paid_shop.drawn)
serve-Keyless_example =
    serve-Keyless outside refund_route (request (codes "guess")) paid_shop
      (inr (unfold first ◌==◌ hash_api_key encode_to_string in refl))

abbrev provisioned : Result (Text × Text) × World
provisioned = provision (λ s. s) (codes "books") [] paid_shop

abbrev new_key : Text
new_key = codes "6b00"

abbrev new_merchant : Text
new_merchant = b'u' ∷ 0 ∷ []

provisioned_test : provisioned ≡ (ok (new_merchant, new_key), provisioned.1)
unfolding provision ◌>>=◌ new_id new_api_key wrap statement attempt first ◌==◌ pure encode_to_string
provisioned_test = refl

provision-serve_example :
    (rest : List (Option Text)) × ((serve outside get_order_route (request new_key) provisioned.1
        ≡ handle outside get_order_route new_merchant
            (request new_key)
            (record provisioned.1 { faults = rest }))
      ⊎ ((m : Text) × (serve outside get_order_route (request new_key) provisioned.1
            ≡ (error_response 500 m, record provisioned.1 { faults = rest }))))
provision-serve_example =
    provision-serve outside (codes "books") [] new_merchant new_key paid_shop provisioned.1
      provisioned_test (unfold first ◌==◌ hash_api_key encode_to_string in refl) (cc)
      get_order_route (request new_key) provisioned.1 [] refl
      (sym (append-nil provisioned.1.db.merchants))

abbrev paid_order : OrderRow
paid_order = record order { status = OrderStatus.paid }

serve-Stays_example :
    find order_key
      (codes "o1")
      (serve outside refund_route (request new_key) provisioned.1).1.db.merchant_orders
    ≡ some paid_order
serve-Stays_example =
    serve-Stays (codes "o1") paid_order outside (λ db h. h) refund_route new_merchant
      (request new_key) provisioned.1
      (unfold provision ◌>>=◌ new_id new_api_key wrap statement attempt first ◌==◌ pure hash_api_key
          encode_to_string in
        refl)
      (cc)
      (unfold provision ◌>>=◌ new_id new_api_key wrap statement attempt first ◌==◌ pure
          encode_to_string find in
        (refl, tt))
      (unfold provision ◌>>=◌ new_id new_api_key wrap statement attempt first ◌==◌ pure
          encode_to_string find in
        refl)

-- a refund, with nobody else at work
abbrev refund_turn :
    Turns provisioned.1.db (serve outside refund_route (request new_key) provisioned.1).1.db
refund_turn =
    serves provisioned.1.db outside refund_route (request new_key) provisioned.1 (λ x. stop x)
      (stop provisioned.1.db)

Turns-Lives_example :
    Lives
      (codes "o1")
      paid_order
      (serve outside refund_route (request new_key) provisioned.1).1.db.merchant_orders
Turns-Lives_example =
    Turns-Lives (codes "o1") paid_order provisioned.1.db
      (serve outside refund_route (request new_key) provisioned.1).1.db refund_turn
      (unfold provision ◌>>=◌ new_id new_api_key wrap statement attempt first ◌==◌ pure
          encode_to_string find in
        ((refl, tt), (paid_order, refl, (refl, tt))))
