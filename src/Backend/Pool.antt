-- ===== src/Backend/Pool.antt =====
-- internal/backend/factory.go: New and the Pool of backends. Decrypt, the parsing of a provider's
-- configuration and its constructor are parameters; what they build is of any type.
pub mod Fresh
use storage_gateway.Prelude.{
  ℕ, ◌≡◌, Bool, true, false, Option, none, some, List, [], ◌∷◌, Str, ◌==◌, if◌then◌else◌, Result,
  ok, err,
}
use storage_gateway.Registry.{
  BackendType, s3, r2, gcs, azure, local_fs, unknown_type, ResolvedBucket,
}

pub data PoolError : Type 0 where
  decrypting building : PoolError

-- What opens a backend of each provider from its configuration; none is any of their errors.
pub record Providers (B : Type 0) : Type 0 where
  pub decrypt : Str → Option Str
  pub open_s3 : Str → Option B
  pub open_gcs : Str → Option B
  pub open_azure : Str → Option B
  pub open_local : Str → Option B

-- The map from a store's id to its backend.
abbrev pub Pool : Type 0 → Type 0
Pool B = List (ℕ × B)

module _ {B : Type 0} where
  unfoldable pub lookup : ℕ → Pool B → Option B
  lookup id [] = none
  lookup id ((i, b) ∷ p) = if i == id then some b else lookup id p

  unfoldable pub evict : ℕ → Pool B → Pool B
  evict id [] = []
  evict id ((i, b) ∷ p) = let rest = evict id p in if i == id then rest else (i, b) ∷ rest

  unfoldable pub invalidate : ℕ → Pool B → Pool B
  invalidate id p = evict id p

  abbrev keep_existing : ℕ → B → Pool B → Option B → B × Pool B
  keep_existing id b p (some existing) = (existing, p)
  keep_existing id b p none = (b, (id, b) ∷ p)

  -- The second critical section of Get: the slot may have been filled meanwhile.
  unfoldable pub publish : ℕ → B → Pool B → B × Pool B
  publish id b p = keep_existing id b p (lookup id p)

  module _ (env : Providers B) where
    unfoldable pub new_backend : BackendType → Str → Option B
    new_backend s3 config = env.open_s3 config
    new_backend r2 config = env.open_s3 config
    new_backend gcs config = env.open_gcs config
    new_backend azure config = env.open_azure config
    new_backend local_fs config = env.open_local config
    new_backend (unknown_type _) config = none

    abbrev build_result : Option B → Result PoolError B
    build_result none = err building
    build_result (some b) = ok b

    abbrev build_from : BackendType → Option Str → Result PoolError B
    build_from ty none = err decrypting
    build_from ty (some config) = build_result (new_backend ty config)

    -- What Get does between its two critical sections.
    unfoldable pub build : ResolvedBucket → Result PoolError B
    build rb = build_from rb.backend_type (env.decrypt rb.backend_config_enc)

    abbrev publish_result : ℕ → Result PoolError B → Pool B → Result PoolError B × Pool B
    publish_result id (ok b) p = (ok (publish id b p).0, (publish id b p).1)
    publish_result id (err e) p = (err e, p)

    abbrev get_found_or_built : ResolvedBucket → Pool B → Option B → Result PoolError B × Pool B
    get_found_or_built rb p (some b) = (ok b, p)
    get_found_or_built rb p none = publish_result rb.store_id (build rb) p

    -- Get with no other thread between its critical sections.
    unfoldable pub get : ResolvedBucket → Pool B → Result PoolError B × Pool B
    get rb p = get_found_or_built rb p (lookup rb.store_id p)
