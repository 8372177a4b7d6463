-- ===== src/Merchant/Handlers/Keys.antt =====
-- Provision and authMerchant together: the key of a new merchant lets it in.
use padma.Base.{
  ◌≡◌, ◌≢◌, refl, sym, ap, ◌∙◌, ◌⊎◌, inl, inr, false, Option, none, some, List, [], ◌∷◌, ◌++◌, Text,
  first, first-append, first-append_found, map_row, drop, length, ==_self, arith,
}
use padma.Errors.{Result, ok, ok_injective}
use padma.Database.{Db, World, new_id, pure}
use padma.Database.Returns.{bind-Passed, wrap_returned, statement_returned}
use padma.Database.Rows.{MerchantRow}
use padma.Platform.Http.{Request, error_response}
use padma.Platform.Auth.{hash_api_key, new_api_key, drawn_hex}
use padma.Merchant.Handlers.{
  Outside, Route, has_hash, merchant_id_of, lacks_token, bearer, handle, serve, stores_merchant,
  provision, settlement_asset_or_ckb,
}
use padma.Merchant.Handlers.Guard.{token, key_owner, auth_cases}

lacks_token-bearer : (o : Outside) (key : Text) → key ≢ [] → lacks_token o (bearer ++ key) ≡ false
lacks_token-bearer o [] h = absurd (h refl)
lacks_token-bearer o (c ∷ key) h = rw (==_self bearer) (ground arith)

stored_merchant :
    (taken : Option MerchantRow) (m : MerchantRow) (db db' : Db)
    → stores_merchant taken m db ≡ (ok tt, db')
    → db'.merchants ≡ db.merchants ++ m ∷ []
stored_merchant none m db db' h = sym (ap (λ (p : Result (Unit {0}) × Db). p.1.merchants) h)
stored_merchant (some x) m db db' h = absurd (cc)

abbrev pub merchant_row : Text → Text → Text → Text → MerchantRow
merchant_row name asset id hash = record {
  id = id;
  name = name;
  api_key_hash = hash;
  settlement_asset = settlement_asset_or_ckb asset;
}

module _ (sha_256 : Text → Text) where
  pub provision_row :
      (name asset id key : Text) (w w' : World)
      → provision sha_256 name asset w ≡ (ok (id, key), w')
      → w'.db.merchants
        ≡ w.db.merchants ++ merchant_row name asset id (hash_api_key sha_256 key) ∷ []
  unfolding provision new_id new_api_key pure
  provision_row name asset id key w w' h =
      let (id', v₁, draws, h₁) = bind-Passed _ (id, key) w' _ w h in
      let ((key', hash), v₂, mints, h₂) = bind-Passed _ (id, key) w' _ v₁ h₁ in
      let (u, v₃, inserts, h₃) = bind-Passed _ (id, key) w' _ v₂ h₂ in
      let (same, _) = statement_returned _ u v₂ v₃ (wrap_returned _ _ u v₂ v₃ inserts) in
      let told : (id', key') ≡ (id, key) =
        ok_injective (ap (λ (p : Result (Text × Text) × World). p.0) h₃) in
      let made : (key', hash) ≡ (drawn_hex v₁, hash_api_key sha_256 (drawn_hex v₁)) =
        sym (ok_injective (ap (λ (p : Result (Text × Text) × World). p.0) mints)) in
      let hashed : hash ≡ hash_api_key sha_256 key = cc (told, made) in
      let before : v₂.db ≡ w.db =
        sym (ap (λ (p : Result (Text × Text) × World). p.1.db) mints)
        ∙ sym (ap (λ (p : Result Text × World). p.1.db) draws) in
      sym (ap (λ (p : Result (Text × Text) × World). p.1.db.merchants) h₃)
      ∙ stored_merchant _ (merchant_row name asset id' hash) v₂.db v₃.db same
      ∙ (λ i. (before i).merchants ++ merchant_row name asset (told i).0 (hashed i) ∷ [])

  -- the id that a hash leads to, once a merchant with that hash is added
  found_merchant :
      (m : MerchantRow) (ms more : List MerchantRow)
      → first (has_hash m.api_key_hash) ms ≡ none
      → first (has_hash m.api_key_hash) ((ms ++ m ∷ []) ++ more) ≡ some m
  found_merchant m ms more h =
      first-append_found (has_hash m.api_key_hash) m (ms ++ m ∷ []) more
        (first-append (has_hash m.api_key_hash) m ms h ∙ rw (==_self m.api_key_hash))

-- A key that Provision returned lets a request with `Bearer <key>` in under the id that came with it
-- on every route, as long as its merchant is in the table and nobody had the hash before: the
-- request is handled for that merchant, unless the look for the key fails with status 500.
pub provision-serve :
    (o : Outside) (name asset id key : Text) (w w' : World)
    → provision o.sha_256 name asset w ≡ (ok (id, key), w')
    → first (has_hash (hash_api_key o.sha_256 key)) w.db.merchants ≡ none
    → key ≢ []
    → (route : Route) (r : Request) (v : World) (more : List MerchantRow)
    → r.authorization ≡ bearer ++ key
    → v.db.merchants ≡ w'.db.merchants ++ more
    → (rest : List (Option Text)) × ((serve o route r v
          ≡ handle o route id r (record v { faults = rest }))
        ⊎ ((m : Text) × (serve o route r v ≡ (error_response 500 m, record v { faults = rest }))))
unfolding serve
provision-serve o name asset id key w w' h new has route r v more bears stays =
    let has_token : lacks_token o r.authorization ≡ false =
      rw bears (lacks_token-bearer o key has) in
    let m = merchant_row name asset id (hash_api_key o.sha_256 key) in
    let carried : token r ≡ key = ap (drop (length bearer)) bears in
    let table : v.db.merchants ≡ (w.db.merchants ++ m ∷ []) ++ more =
      stays ∙ ap (λ ms. ms ++ more) (provision_row o.sha_256 name asset id key w w' h) in
    let owner : key_owner o r v.db ≡ some id =
      (λ i.
        map_row merchant_id_of (first (has_hash (hash_api_key o.sha_256 (carried i))) (table i)))
      ∙ ap (map_row merchant_id_of) (found_merchant o.sha_256 m w.db.merchants more new) in
    elim (auth_cases o (λ merchant_id. handle o route merchant_id r) r v) [
      | inl (lacks, e) ↦ absurd (cc (has_token, lacks))
      | inr (_, (rest, inl e)) ↦ (rest, inl (e ∙ rw owner refl))
      | inr (_, (rest, inr (m, e))) ↦ (rest, inr (m, e))
    ]
