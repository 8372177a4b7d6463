-- ===== src/Platform/Config/Loads.antt =====
-- When a configuration is loaded, and from which variables.
use padma.Base.{
  ◌≡◌, ◌≢◌, ◌↔◌, ◌⊎◌, inl, inr, refl, sym, true, Text, codes, ==_iff, ==_self, [], empty_cases,
  arith, Bool-cases,
}
use padma.Base.Int.{ℤ, pos}
use padma.Errors.{ok, or_wrap_returned, bind-eq-ok, ok_injective}
use padma.Platform.Http.{atoi}
use padma.Platform.Config.{Config, Environment, env_or, env_int, is_source, validated, load}

-- a variable that is set decides, and otherwise the default
abbrev pub Setting : {A : Type 0} → Text → (A → Type 0) → A → A → Type 0
Setting value Reads def a = ((value ≡ []) × (a ≡ def)) ⊎ ((value ≢ []) × Reads a)

module _ (getenv : Environment) (key : Text) where
  abbrev pub TextSetting : Text → Text → Type 0
  TextSetting = Setting (getenv key) (λ (s : Text). s ≡ getenv key)

  abbrev pub IntSetting : ℤ → ℤ → Type 0
  IntSetting = Setting (getenv key) (λ (n : ℤ). atoi (getenv key) ≡ ok n)

abbrev pub Known : Text → Type 0
Known s = (s ≡ codes "pubsub") ⊎ (s ≡ codes "polling") ⊎ (s ≡ codes "fake")

-- where the fields come from, and what they must be
pub record Configured (getenv : Environment) (cfg : Config) : Type 0 where
  pub endpoint : cfg.fiber_rpc_endpoint ≡ getenv (codes "FIBER_RPC_ENDPOINT")
  pub token : cfg.fiber_biscuit_token ≡ getenv (codes "FIBER_BISCUIT_TOKEN")
  pub source : TextSetting getenv (codes "INGEST_SOURCE") (codes "fake") cfg.ingest_source
  pub known : Known cfg.ingest_source
  pub database : cfg.database_url ≡ getenv (codes "DATABASE_URL")
  pub required : cfg.database_url ≢ []
  pub max_attempts :
      IntSetting getenv (codes "WEBHOOK_MAX_ATTEMPTS") (pos 8) cfg.webhook_max_attempts
  pub workers : IntSetting getenv (codes "WEBHOOK_WORKERS") (pos 4) cfg.webhook_workers
  pub addr : TextSetting getenv (codes "HTTP_ADDR") (codes ":8080") cfg.http_addr

module _ (getenv : Environment) (key : Text) where
  env_or-Setting : (def : Text) → TextSetting getenv key def (env_or getenv key def)
  unfolding env_or
  env_or-Setting def = elim (empty_cases (getenv key)) [
    | inl (test, none_set) ↦ inl (none_set, rw test refl)
    | inr (test, set) ↦ inr (set, rw test refl)
  ]

  env_or_of_Setting : (def s : Text) → TextSetting getenv key def s → env_or getenv key def ≡ s
  unfolding env_or
  env_or_of_Setting def s (inl (none_set, e)) = rw (none_set, e) refl
  env_or_of_Setting def s (inr (set, e)) = elim (empty_cases (getenv key)) [
    | inl (test, none_set) ↦ absurd (set none_set)
    | inr (test, _) ↦ rw (test, e) refl
  ]

  env_int-Setting : (def n : ℤ) → env_int getenv key def ≡ ok n → IntSetting getenv key def n
  unfolding env_int
  env_int-Setting def n h = elim (empty_cases (getenv key)) [
    | inl (test, none_set) ↦ inl (none_set, sym (ok_injective (rw test at h)))
    | inr (test, set) ↦ inr (set, or_wrap_returned _ (atoi (getenv key)) (rw test at h))
  ]

  env_int_of_Setting : (def n : ℤ) → IntSetting getenv key def n → env_int getenv key def ≡ ok n
  unfolding env_int
  env_int_of_Setting def n (inl (none_set, e)) = rw (none_set, e) refl
  env_int_of_Setting def n (inr (set, e)) = elim (empty_cases (getenv key)) [
    | inl (test, none_set) ↦ absurd (set none_set)
    | inr (test, _) ↦ rw (test, e) refl
  ]

is_source_iff : (s : Text) → (is_source s ≡ true) ↔ Known s
unfolding is_source
is_source_iff s = (
  λ h.
      ground
        (arith, ==_iff s (codes "pubsub"), ==_iff s (codes "polling"), ==_iff s (codes "fake")),
  λ h. elim h [
    | inl e ↦ rw (e, ==_self (codes "pubsub")) refl
    | inr (inl e) ↦ ground (arith, ==_iff s (codes "polling"))
    | inr (inr e) ↦ ground (arith, ==_iff s (codes "fake"))
  ],
)

validated_returned :
    (cfg got : Config)
    → validated cfg ≡ ok got
    → (got ≡ cfg) × (cfg.database_url ≢ []) × Known cfg.ingest_source
unfolding validated
validated_returned cfg got h = elim (empty_cases cfg.database_url) [
  | inl (test, _) ↦ absurd (cc (rw test at h))
  | inr (test, set) ↦ elim (Bool-cases (is_source cfg.ingest_source)) [
    | inl known ↦
        (sym (ok_injective (rw (test, known) at h)), set, (is_source_iff cfg.ingest_source).0 known)
    | inr other ↦ absurd (cc (rw (test, other) at h))
  ]
]

validated-ok :
    (cfg : Config) → cfg.database_url ≢ [] → Known cfg.ingest_source → validated cfg ≡ ok cfg
unfolding validated
validated-ok cfg set known = elim (empty_cases cfg.database_url) [
  | inl (_, none_set) ↦ absurd (set none_set)
  | inr (test, _) ↦ rw (test, (is_source_iff cfg.ingest_source).1 known) refl
]

load-Configured :
    (getenv : Environment) (cfg : Config) → load getenv ≡ ok cfg → Configured getenv cfg
unfolding load
load-Configured getenv cfg h =
    let (n, first, h₁) = bind-eq-ok (env_int getenv (codes "WEBHOOK_MAX_ATTEMPTS") (pos 8)) _ h in
    let (m, second, h₂) = bind-eq-ok (env_int getenv (codes "WEBHOOK_WORKERS") (pos 4)) _ h₁ in
    let (same, set, known) = validated_returned _ cfg h₂ in
    rw same (record {
      endpoint = refl;
      token = refl;
      source = env_or-Setting getenv (codes "INGEST_SOURCE") (codes "fake");
      known = known;
      database = refl;
      required = set;
      max_attempts = env_int-Setting getenv (codes "WEBHOOK_MAX_ATTEMPTS") (pos 8) n first;
      workers = env_int-Setting getenv (codes "WEBHOOK_WORKERS") (pos 4) m second;
      addr = env_or-Setting getenv (codes "HTTP_ADDR") (codes ":8080");
    })

load_of_Configured :
    (getenv : Environment) (cfg : Config) → Configured getenv cfg → load getenv ≡ ok cfg
unfolding load
load_of_Configured getenv cfg c =
    rw
      (
        env_int_of_Setting getenv (codes "WEBHOOK_MAX_ATTEMPTS") _ _ c.max_attempts,
        env_int_of_Setting getenv (codes "WEBHOOK_WORKERS") _ _ c.workers,
        env_or_of_Setting getenv (codes "INGEST_SOURCE") _ _ c.source,
        env_or_of_Setting getenv (codes "HTTP_ADDR") _ _ c.addr,
        sym c.endpoint,
        sym c.token,
        sym c.database,
      )
      (validated-ok cfg c.required c.known)

-- Load returns a configuration exactly where each field is read from its variable or is its default,
-- both numbers parse, there is a database and the source is a known one.
pub load_iff :
    (getenv : Environment) (cfg : Config) → (load getenv ≡ ok cfg) ↔ Configured getenv cfg
load_iff getenv cfg = (load-Configured getenv cfg, load_of_Configured getenv cfg)
