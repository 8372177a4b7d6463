-- ===== src/App/NewMerchant.antt =====
-- The mode merchant-key, from the arguments to the row of the merchant.
use padma.Base.{
  ℕ, ◌≡◌, refl, sym, ap, ◌∙◌, ◌⊎◌, inl, inr, Option, none, some, List, [], ◌∷◌, ◌++◌, Text, codes,
  ◌==◌, first,
}
use padma.Errors.{Error, Result, ok, err, wrapped, Result-cases}
use padma.Database.{Db, World, commit, continue, rewrap, ◌>>=◌, wrap, statement, new_id, pure}
use padma.Database.Cases.{statement_cases}
use padma.Database.Rows.{MerchantRow}
use padma.Platform.Auth.{hash_api_key, new_api_key}
use padma.Platform.Config.{Config, load}
use padma.Merchant.Orders.{same_merchant}
use padma.Merchant.Handlers.{provision, insert_merchant, stores_merchant}
use padma.Merchant.Handlers.Keys.{merchant_row, provision_row}
use padma.App.Steps.{Step, opened, closed, printed}
use padma.App.Handles.{System, Ran, line, with_pool, closing}
use padma.App.{merchant_name, told, exits, run_provision_merchant, run_mode, run, main}

-- an error leaves the database as it was
abbrev Clean : {A : Type 0} → Db → Result A × World → Type 0
Clean db r = (e : Error) → r.0 ≡ err e → r.1.db ≡ db

insert_merchant-Clean : (m : MerchantRow) (v : World) → Clean v.db (statement (insert_merchant m) v)
insert_merchant-Clean m v =
    let (rest, fared) = statement_cases (insert_merchant m) v in
    elim fared [
      | inl f ↦ rw f (stored (first (same_merchant m.id) v.db.merchants) rest)
      | inr (msg, f) ↦ rw f (λ e h. refl)
    ]
  where
    stored :
        (taken : Option MerchantRow) (rest : List (Option Text))
        → Clean v.db (commit (record v { faults = rest }) (stores_merchant taken m v.db))
    stored (some x) rest e h = refl
    stored none rest e h = absurd (cc)

module _ (f : Error → Error) (a : Text × Text) (db : Db) where
  then_pure-Clean :
      (r : Result (Unit {0}) × World) → Clean db r → Clean db (continue (rewrap f r) (λ _. pure a))
  unfolding pure
  then_pure-Clean (ok u, v) h e g = absurd (cc)
  then_pure-Clean (err x, v) h e g = h x refl

module _ (sha_256 : Text → Text) (name asset : Text) where
  provision-Clean : (w : World) → Clean w.db (provision sha_256 name asset w)
  unfolding provision new_id new_api_key ◌>>=◌ wrap
  provision-Clean w = then_pure-Clean _ _ w.db _ (insert_merchant-Clean _ _)

-- the rest of a mode runs in a pool, or opening the pool has failed and nothing is done
with_pool_cases :
    (sys : System) (dsn : Text) (go_on : World → Ran) (w : World)
    → (with_pool sys dsn go_on w ≡ closing (go_on w))
      ⊎ ((e : Error) × (steps : List Step) × (with_pool sys dsn go_on w
            ≡ record { result = err e; world = w; steps = steps }))
unfolding with_pool
with_pool_cases sys dsn go_on w = elim (Result-cases (sys.new_pool dsn)) [
  | inl (u, made) ↦ elim (Result-cases sys.ping) [
    | inl (v, pings) ↦ inl (rw (made, pings) refl)
    | inr (e, fails) ↦
        inr (wrapped "db: ping: %w" [] e, opened ∷ closed ∷ [], rw (made, fails) refl)
  ]
  | inr (e, fails) ↦ inr (wrapped "db: open pool: %w" [] e, [], rw fails refl)
]

-- how the mode ends
pub data Provisioned (sys : System) (rest : List Text) (w : World) (r : ℕ × World × List Step)
    : Type 0 where
  -- a new merchant, whose key is printed and only its hash is stored
  added :
      (id key : Text)
      → r.0 ≡ 0
      → r.2
        ≡ opened
          ∷ printed (line (codes "merchant_id=" ++ id) ++ line (codes "api_key=" ++ key))
          ∷ closed
          ∷ []
      → r.1.db.merchants
        ≡ w.db.merchants
          ++ merchant_row (merchant_name sys rest) (codes "CKB") id (hash_api_key sys.sha_256 key)
            ∷ []
      → Provisioned sys rest w r
  refused : r.0 ≡ 1 → r.1.db ≡ w.db → Provisioned sys rest w r

module _ (sys : System) (rest : List Text) (w : World) where
  -- the end of a run of the mode
  abbrev Ends : Ran → Type 0
  Ends r = Provisioned sys rest w (exits r.result r)

  told-Provisioned :
      (q : Result (Text × Text) × World)
      → provision sys.sha_256 (merchant_name sys rest) (codes "CKB") w ≡ q
      → Ends (closing (told sys q))
  told-Provisioned (ok (id, key), v) h =
      added id key refl refl
        (provision_row sys.sha_256 (merchant_name sys rest) (codes "CKB") id key w v h)
  told-Provisioned (err e, v) h = refused refl (
      ap (λ (r : Result (Text × Text) × World). r.1.db) (sym h)
      ∙ provision-Clean sys.sha_256 (merchant_name sys rest) (codes "CKB") w e
          (ap (λ (r : Result (Text × Text) × World). r.0) h))

  run_provision_merchant-Provisioned : (cfg : Config) → Ends (run_provision_merchant sys rest cfg w)
  unfolding run_provision_merchant
  run_provision_merchant-Provisioned cfg =
      elim (with_pool_cases sys cfg.database_url
        (λ (v : World). told sys (provision sys.sha_256 (merchant_name sys rest) (codes "CKB") v))
        w) [ inl e ↦ rw e (told-Provisioned _ refl) | inr (m, steps, e) ↦ rw e (refused refl refl) ]

-- `app merchant-key` either exits with 0, has added one merchant of the name that was given (or
-- "merchant"), with the hash of the key that it has printed, and has closed its pool; or it exits with
-- 1 and leaves the database as it was.
pub merchant_key-Provisioned :
    (sys : System) (rest : List Text) (w : World)
    → Provisioned sys rest w (main sys (codes "merchant-key" ∷ rest) w)
unfolding main run run_mode ◌==◌
merchant_key-Provisioned sys rest w = elim (Result-cases (load sys.getenv)) [
  | inl (cfg, e) ↦ rw e (run_provision_merchant-Provisioned sys rest w cfg)
  | inr (m, e) ↦ rw e (refused refl refl)
]
