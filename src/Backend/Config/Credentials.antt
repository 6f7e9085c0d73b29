-- ===== src/Backend/Config/Credentials.antt =====
-- internal/backend/factory.go: the credentials that normalizeGCSCredentials takes from a configuration.
use storage_gateway.Prelude.{
  ◌≡◌, refl, sym, ap, ◌∙◌, ◌≢◌, ◌⊎◌, inl, inr, Bool, true, false, Option, none, some, [], ◌∷◌, ◌==◌,
  Bool-cases, Option-cases, Str, bytes, str_eq, str_eq_iff, Result, ok, err, ok_injective,
  result-err-ne-ok,
}
use storage_gateway.Backend.Config.{
  Constructors, parsed_providers, GcsConfig, Json, lacks, bind, unwrap, is_account, required,
  or_bare, normalize_gcs_credentials,
}
use storage_gateway.Backend.Pool.{Pool, PoolError, Providers, get, build, lookup, new_backend}
use storage_gateway.Backend.Pool.Fresh.{get_built}
use storage_gateway.Registry.{ResolvedBucket, gcs}
use storage_gateway.Registry.Db.Attempts.{some_injective}

bind-some :
    {A B : Type 0} (o : Option A) (f : A → Option B) (b : B)
    → bind o f ≡ some b
    → (a : A) × (o ≡ some a) × (f a ≡ some b)
bind-some none f b h = cc
bind-some (some a) f b h = (a, refl, h)

refused : {A : Type 0} {B : Type 0} {b : B} → ◌≡◌ {A = Option B} none (some b) → A
refused h = cc

-- Where the credentials stand in the configuration: as they are, quoted, or as the whole of it.
pub data Supplied (json : Json) (config : Str) (cfg : GcsConfig) (creds : Str) : Type 0 where
  as_object : cfg.credentials_json ≡ creds → Supplied json config cfg creds
  as_string : json.string cfg.credentials_json ≡ some creds → Supplied json config cfg creds
  as_bare :
      config ≡ creds
      → json.type_of config ≡ some (bytes "service_account")
      → Supplied json config cfg creds

contrary : {b : Bool} → b ≡ false → true ≡ b → ⊥
contrary h e = cc

lacks-null : {creds : Str} → lacks creds ≡ false → creds ≢ bytes "null"
unfolding str_eq
lacks-null {creds} h e = contrary h (sym (ap lacks e))

lacks-empty : {creds : Str} → lacks creds ≡ false → creds ≢ []
lacks-empty {creds} h e = contrary h (sym (ap lacks e))

module _ (json : Json) where
  required_lem : (creds c : Str) → required json creds ≡ some c → (creds ≡ c) × (lacks c ≡ false)
  required_lem creds c h = elim (Bool-cases (lacks creds)) [
    | inl missing ↦ refused (rw missing at h)
    | inr given ↦
        let same : creds ≡ c = some_injective (rw given at h) in (same, ap lacks (sym same) ∙ given)
  ]

  unwrap_lem :
      (raw creds : Str)
      → unwrap json raw ≡ some creds
      → (raw ≡ creds) ⊎ (json.string raw ≡ some creds)
  unfolding unwrap
  unwrap_lem [] creds h = inl (some_injective h)
  unwrap_lem (x ∷ raw) creds h = elim (Bool-cases (x == b'"')) [
    | inl quoted ↦ inr (rw quoted at h)
    | inr bare ↦ inl (some_injective (rw bare at h))
  ]

  or_bare_lem :
      (config creds : Str)
      → (or_bare json config creds ≡ creds)
        ⊎ ((or_bare json config creds ≡ config) × (is_account json (json.type_of config) ≡ true))
  unfolding or_bare
  or_bare_lem config creds = elim (Bool-cases (lacks creds)) [
    | inl missing ↦ elim (Bool-cases (is_account json (json.type_of config))) [
      | inl bare ↦ inr (rw (missing, bare) refl, bare)
      | inr other ↦ inl (rw (missing, other) refl)
    ]
    | inr given ↦ inl (rw given refl)
  ]

  is_account_lem :
      (ty : Option Str) → is_account json ty ≡ true → ty ≡ some (bytes "service_account")
  is_account_lem none h = cc
  is_account_lem (some ty) h = ap some ((str_eq_iff ty (bytes "service_account")).0 h)

  supplied :
      (config creds : Str) (cfg : GcsConfig) (inner : Str)
      → unwrap json cfg.credentials_json ≡ some inner
      → or_bare json config inner ≡ creds
      → Supplied json config cfg creds
  supplied config creds cfg inner unwrapped same = elim (or_bare_lem config inner) [
    | inl kept ↦ elim (unwrap_lem cfg.credentials_json inner unwrapped) [
      | inl plain ↦ as_object (plain ∙ sym kept ∙ same)
      | inr quoted ↦ as_string (quoted ∙ ap some (sym kept ∙ same))
    ]
    | inr (whole, bare) ↦ as_bare (sym whole ∙ same) (is_account_lem (json.type_of config) bare)
  ]

  -- Credentials of the configuration itself, neither empty nor null.
  abbrev pub IsGiven : Str → Str → Type 0
  IsGiven config creds =
      (creds ≢ [])
      × (creds ≢ bytes "null")
      × ((cfg : GcsConfig) × (json.gcs config ≡ some cfg) × Supplied json config cfg creds)

  normalize_gcs_credentials-Supplied :
      (config creds : Str)
      → normalize_gcs_credentials json config ≡ some creds
      → IsGiven config creds
  unfolding normalize_gcs_credentials
  normalize_gcs_credentials-Supplied config creds h =
      let (cfg, parsed, h1) = bind-some (json.gcs config) _ creds h in
      let (inner, unwrapped, h2) = bind-some (unwrap json cfg.credentials_json) _ creds h1 in
      let (same, present) = required_lem (or_bare json config inner) creds h2 in
      (
        lacks-empty present,
        lacks-null present,
        (cfg, parsed, supplied config creds cfg inner unwrapped same),
      )

  module _ {B : Type 0} (decrypt : Str → Option Str) (new : Constructors B) where
    abbrev providers : Providers B
    providers = parsed_providers json decrypt new

    open_gcs_lem :
        (config : Str) (b : B)
        → providers.open_gcs config ≡ some b
        → (creds : Str) × IsGiven config creds
          × (new.new_gcs_backend (record { credentials_json = creds }) ≡ some b)
    unfolding parsed_providers
    open_gcs_lem config b h =
        let (creds, found, made) = bind-some (normalize_gcs_credentials json config) _ b h in
        (creds, normalize_gcs_credentials-Supplied config creds found, made)

    -- A built backend is what open_gcs made of the decrypted configuration.
    build_gcs_lem :
        (rb : ResolvedBucket) (b : B)
        → rb.backend_type ≡ gcs
        → build providers rb ≡ ok b
        → (config : Str) × (decrypt rb.backend_config_enc ≡ some config)
          × (providers.open_gcs config ≡ some b)
    unfolding build new_backend parsed_providers
    build_gcs_lem rb b ty h = elim (Option-cases (decrypt rb.backend_config_enc)) [
      | inl none_out ↦ absurd (result-err-ne-ok (rw none_out at h))
      | inr (config, plain) ↦ elim (Option-cases (providers.open_gcs config)) [
        | inl none_built ↦ absurd (result-err-ne-ok (rw (plain, ty, none_built) at h))
        | inr (made, opened) ↦
            (config, plain, opened ∙ ap some (ok_injective (rw (plain, ty, opened) at h)))
      ]
    ]

    built_on_miss :
        (rb : ResolvedBucket) (p : Pool B) (b : B) (r : Result PoolError B)
        → build providers rb ≡ r
        → lookup rb.store_id p ≡ none
        → (get providers rb p).0 ≡ ok b
        → build providers rb ≡ ok b
    unfolding get
    built_on_miss rb p b (ok made) e fresh h =
        e ∙ sym (ap (λ q. q.0) (get_built providers rb p made fresh e)) ∙ h
    built_on_miss rb p b (err why) e fresh h = absurd (result-err-ne-ok (rw (fresh, e) at h))

    -- A backend that Get of the Pool builds for a GCS store was made from credentials that its
    -- decrypted configuration holds, neither empty nor null: the value of credentials_json, the
    -- string that value quotes, or the whole configuration where its type is service_account.
    pub get-IsGiven :
        (rb : ResolvedBucket) (p : Pool B) (b : B)
        → rb.backend_type ≡ gcs
        → lookup rb.store_id p ≡ none
        → (get providers rb p).0 ≡ ok b
        → (config : Str) × (creds : Str) × (decrypt rb.backend_config_enc ≡ some config)
          × IsGiven config creds
          × (new.new_gcs_backend (record { credentials_json = creds }) ≡ some b)
    get-IsGiven rb p b ty fresh h =
        let made : build providers rb ≡ ok b =
          built_on_miss rb p b (build providers rb) refl fresh h in
        let (config, plain, opened) = build_gcs_lem rb b ty made in
        let (creds, given, new_client) = open_gcs_lem config b opened in
        (config, creds, plain, given, new_client)
