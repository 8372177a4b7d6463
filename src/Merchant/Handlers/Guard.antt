-- ===== src/Merchant/Handlers/Guard.antt =====
-- authMerchant: who gets through, and with which key.
use padma.Base.{
  ◌≡◌, refl, ◌⊎◌, inl, inr, true, false, Option, none, List, Text, codes, Bool-cases, drop, length,
}
use padma.Errors.{error_text, is}
use padma.Database.{Db, World, query_row, row_or_none}
use padma.Database.Cases.{statement_cases}
use padma.Platform.Http.{Request, Response, error_response}
use padma.Platform.Auth.{hash_api_key}
use padma.Merchant.Handlers.{
  Outside, Reply, Route, merchant_with, lacks_token, bearer, identified, auth_merchant, handle,
  serve,
}

-- what the header holds behind `Bearer `
abbrev pub token : Request → Text
token r = drop (length bearer) r.authorization

module _ (o : Outside) where
  -- the id of the merchant whose key the request has
  abbrev pub key_owner : Request → Db → Option Text
  key_owner r db = merchant_with o (hash_api_key o.sha_256 (token r)) db

  -- how authMerchant answers where a token is there: the query fails, or its row decides
  abbrev pub Identifies :
      (Text → World → Response Reply × World) → Request → World → Response Reply × World → Type 0
  Identifies next r w res =
      (rest : List (Option Text)) × ((res
          ≡ identified o next (row_or_none (key_owner r w.db), record w { faults = rest }))
        ⊎ ((m : Text) × (res ≡ (error_response 500 m, record w { faults = rest }))))

  pub auth_cases :
      (next : Text → World → Response Reply × World) (r : Request) (w : World)
      → ((lacks_token o r.authorization ≡ true)
          × (auth_merchant o next r w ≡ (error_response 401 (codes "missing bearer token"), w)))
        ⊎ ((lacks_token o r.authorization ≡ false) × Identifies next r w (auth_merchant o next r w))
  unfolding auth_merchant query_row is error_text
  auth_cases next r w = elim (Bool-cases (lacks_token o r.authorization)) [
    | inl e ↦ inl (e, rw e refl)
    | inr e ↦
        let (rest, fared) = statement_cases (λ db. (row_or_none (key_owner r db), db)) w in
        elim fared [
          | inl f ↦ inr (e, (rest, inl (rw e (rw f refl))))
          | inr (m, f) ↦ inr (e, (rest, inr (m, rw e (rw f refl))))
        ]
  ]

  -- a request without a token, or whose token is nobody's key
  abbrev pub Keyless : Request → World → Type 0
  Keyless r w = (lacks_token o r.authorization ≡ true) ⊎ (key_owner r w.db ≡ none)

  -- an answer that says no more than that, or that the look for the key failed
  abbrev pub Refusal : Response Reply → Type 0
  Refusal a =
      (a ≡ error_response 401 (codes "missing bearer token"))
      ⊎ (a ≡ error_response 401 (codes "invalid api key"))
      ⊎ ((m : Text) × (a ≡ error_response 500 m))

  -- A request without the key of a merchant is refused on every route, and does nothing: the
  -- database, the node, and the drawn ids and keys are as they were.
  pub serve-Keyless :
      (route : Route) (r : Request) (w : World)
      → Keyless r w
      → Refusal (serve o route r w).0
        × ((serve o route r w).1.db ≡ w.db)
        × ((serve o route r w).1.calls ≡ w.calls)
        × ((serve o route r w).1.minted ≡ w.minted)
        × ((serve o route r w).1.drawn ≡ w.drawn)
  unfolding serve is
  serve-Keyless route r w keyless =
      elim (auth_cases (λ merchant_id. handle o route merchant_id r) r w) [
        | inl (lacks, e) ↦ rw e (inl refl, refl, refl, refl, refl)
        | inr (has, (rest, inr (m, e))) ↦ rw e (inr (inr (m, refl)), refl, refl, refl, refl)
        | inr (has, (rest, inl e)) ↦ elim keyless [
          | inl lacks ↦ absurd (cc (has, lacks))
          | inr nobody ↦ rw (e, nobody) (inr (inl refl), refl, refl, refl, refl)
        ]
      ]
