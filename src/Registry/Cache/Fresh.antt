-- ===== src/Registry/Cache/Fresh.antt =====
-- internal/registry/cache.go: what the next read answers after a write that evicts entries.
use storage_gateway.Prelude.{
  ℕ, ◌≡◌, refl, sym, ap, ◌∙◌, inl, inr, Bool, true, false, ◌||◌, none, List, [], ◌∷◌, arith,
  if◌then◌else◌, Bool-cases, Str, str_eq, str_eq_iff, str_eq_refl, any, ok, ok_injective, err-ne-ok,
  continue_ok, pure, ◌>>◌,
}
use mathlib.Core.Path.{subst}
use mathlib.Core.Bool.{true≢false}
use storage_gateway.Registry.{AccessKeyRow, BucketMapping, PresignedMode}
use storage_gateway.Registry.Db.{Db, has_gateway_bucket, attempt}
use storage_gateway.Registry.Cache.Keyspace.{fetch, value_at, fetch-up, faults-del, value_at-del_up}
use storage_gateway.Registry.Cache.{
  Uuids, Cached, access_key_name, bucket_name, key_hit, bucket_hit, inner, best_effort,
  invalidate_access_key, invalidate_bucket, invalidate_all, invalidate_buckets_for_store,
  lookup_access_key, resolve_bucket, update_access_key_readonly, update_store_backend,
}
use storage_gateway.Registry.Cache.Reads.{lookup_miss, resolve_miss_up}
use storage_gateway.Registry.Postgres

module _ (u : Uuids) (ttl : ℕ) where
  pub invalidated-lookup :
      (ak : Str) (s : Cached)
      → s.redis.faults ≡ []
      → (lookup_access_key u ttl ak (invalidate_access_key ak s)).0
        ≡ (Postgres.lookup_access_key ak s.db).0
  unfolding invalidate_access_key key_hit
  invalidated-lookup ak s up =
      let t = invalidate_access_key ak s in
      let gone : value_at t.redis (access_key_name ak) ≡ none =
        value_at-del_up s.redis up (access_key_name ak) (access_key_name ak)
        ∙ rw (str_eq_refl (access_key_name ak)) refl in
      let miss : key_hit u ak (fetch (access_key_name ak) t.redis).0 ≡ none =
        ap (λ p. key_hit u ak p.0)
          (fetch-up t.redis (faults-del s.redis up (access_key_name ak)) (access_key_name ak))
        ∙ ap (key_hit u ak) gone in
      ap (λ p. p.0) (lookup_miss u ttl t ak miss)

  -- While Redis is up: once UpdateAccessKeyReadonly has returned a row, the next lookup of its key
  -- answers what Postgres has.
  pub update_access_key_readonly-fresh :
      (id tenant : ℕ) (b : Bool) (s t : Cached) (row : AccessKeyRow)
      → s.redis.faults ≡ []
      → update_access_key_readonly id tenant b s ≡ (ok row, t)
      → (lookup_access_key u ttl row.access_key t).0
        ≡ (Postgres.lookup_access_key row.access_key t.db).0
  unfolding update_access_key_readonly invalidate_access_key
  update_access_key_readonly-fresh id tenant b s t row up h =
      let first = inner (Postgres.update_access_key_readonly id tenant b) s in
      let step =
        continue_ok first.0 (λ r. best_effort (invalidate_access_key r.access_key) >> pure r)
          first.1 t row h in
      let same : step.0 ≡ row = ok_injective (ap (λ p. p.0) step.2) in
      let after : invalidate_access_key row.access_key first.1 ≡ t =
        ap (λ (r : AccessKeyRow). invalidate_access_key r.access_key first.1) (sym same)
        ∙ ap (λ p. p.1) step.2 in
      subst
        (λ c.
          (lookup_access_key u ttl row.access_key c).0
          ≡ (Postgres.lookup_access_key row.access_key c.db).0)
        after (invalidated-lookup row.access_key first.1 up)

  invalidate_bucket_up :
      (gb : Str) (s : Cached) → s.redis.faults ≡ [] → (invalidate_bucket gb s).redis.faults ≡ []
  unfolding invalidate_bucket
  invalidate_bucket_up gb s up = faults-del s.redis up (bucket_name gb)

  invalidate_all_up :
      (bms : List BucketMapping) (s : Cached)
      → s.redis.faults ≡ []
      → (invalidate_all bms s).redis.faults ≡ []
  unfolding invalidate_all
  invalidate_all_up [] s up = up
  invalidate_all_up (bm ∷ bms) s up =
      invalidate_all_up bms (invalidate_bucket bm.gateway_bucket s)
        (invalidate_bucket_up bm.gateway_bucket s up)

  invalidate_bucket_at :
      (gb k : Str) (s : Cached)
      → s.redis.faults ≡ []
      → value_at (invalidate_bucket gb s).redis k
        ≡ (if str_eq (bucket_name gb) k then none else value_at s.redis k)
  unfolding invalidate_bucket
  invalidate_bucket_at gb k s up = value_at-del_up s.redis up (bucket_name gb) k

  -- What is gone stays gone.
  invalidate_all-none :
      (bms : List BucketMapping) (k : Str) (s : Cached)
      → s.redis.faults ≡ []
      → value_at s.redis k ≡ none
      → value_at (invalidate_all bms s).redis k ≡ none
  unfolding invalidate_all
  invalidate_all-none [] k s up n = n
  invalidate_all-none (bm ∷ bms) k s up n =
      invalidate_all-none bms k (invalidate_bucket bm.gateway_bucket s)
        (invalidate_bucket_up bm.gateway_bucket s up)
        (invalidate_bucket_at bm.gateway_bucket k s up
          ∙ elim (Bool-cases (str_eq (bucket_name bm.gateway_bucket) k)) [
            | inl same ↦ rw same refl
            | inr apart ↦ rw apart n
          ])

  invalidate_all_at :
      (bms : List BucketMapping) (gb : Str) (s : Cached)
      → s.redis.faults ≡ []
      → any (has_gateway_bucket gb) bms ≡ true
      → value_at (invalidate_all bms s).redis (bucket_name gb) ≡ none
  unfolding invalidate_all any
  invalidate_all_at [] gb s up h = absurd (true≢false (sym h))
  invalidate_all_at (bm ∷ bms) gb s up h =
      let t = invalidate_bucket bm.gateway_bucket s in
      let up' = invalidate_bucket_up bm.gateway_bucket s up in
      elim (Bool-cases (str_eq bm.gateway_bucket gb)) [
        | inl same ↦ invalidate_all-none bms (bucket_name gb) t up' (
            invalidate_bucket_at bm.gateway_bucket (bucket_name gb) s up
            ∙ rw
                ((str_eq_iff (bucket_name bm.gateway_bucket) (bucket_name gb)).1
                  (ap bucket_name ((str_eq_iff bm.gateway_bucket gb).0 same)))
                refl)
        | inr apart ↦
            invalidate_all_at bms gb t up'
              (sym (ap (λ x. x || any (has_gateway_bucket gb) bms) apart) ∙ h)
      ]

  listed :
      (store : ℕ) (fs : List Bool) (db : Db) (bms : List BucketMapping)
      → (attempt fs (λ d. (ok (Postgres.mappings_of store d), d)) db).0 ≡ ok bms
      → Postgres.mappings_of store db ≡ bms
  listed store [] db bms h = ok_injective h
  listed store (true ∷ fs) db bms h = absurd (err-ne-ok (ap (λ r. (r, db)) h))
  listed store (false ∷ fs) db bms h = ok_injective h

  -- UPDATE stores touches no mapping.
  mappings_kept :
      (id tenant : ℕ) (config : Str) (mode : PresignedMode) (db : Db)
      → (Postgres.update_store_backend id tenant config mode db).1.bucket_mappings
        ≡ db.bucket_mappings
  unfolding Postgres.update_store_backend
  mappings_kept id tenant config mode db = ground arith

  evicted-resolve :
      (bms : List BucketMapping) (tenant : ℕ) (gb : Str) (s : Cached)
      → s.redis.faults ≡ []
      → any (has_gateway_bucket gb) bms ≡ true
      → (resolve_bucket u ttl tenant gb (invalidate_all bms s)).0
        ≡ (Postgres.resolve_bucket tenant gb (invalidate_all bms s).db).0
  unfolding bucket_hit
  evicted-resolve bms tenant gb s up h =
      let t = invalidate_all bms s in
      ap (λ p. p.0)
        (resolve_miss_up u ttl t tenant gb (invalidate_all_up bms s up)
          (ap (bucket_hit u tenant gb) (invalidate_all_at bms gb s up h)))

  -- While Redis is up: once UpdateStoreBackend has returned without an error, the next resolution of
  -- any gateway bucket that is mapped to the store, for any tenant, answers what Postgres has.
  pub update_store_backend-fresh :
      (id tenant : ℕ) (config : Str) (mode : PresignedMode) (caller : ℕ) (gb : Str) (s t : Cached)
      → s.redis.faults ≡ []
      → any (has_gateway_bucket gb) (Postgres.mappings_of id s.db) ≡ true
      → update_store_backend id tenant config mode s ≡ (ok tt, t)
      → (resolve_bucket u ttl caller gb t).0 ≡ (Postgres.resolve_bucket caller gb t.db).0
  unfolding update_store_backend invalidate_buckets_for_store Postgres.list_bucket_mappings
  update_store_backend-fresh id tenant config mode caller gb s t up h e =
      let first = inner (Postgres.update_store_backend id tenant config mode) s in
      let step = continue_ok first.0 (λ x. invalidate_buckets_for_store id) first.1 t tt e in
      let second = inner (Postgres.list_bucket_mappings id) first.1 in
      let last =
        continue_ok second.0 (λ bms. best_effort (invalidate_all bms)) second.1 t tt step.2 in
      let mapped : any (has_gateway_bucket gb) last.0 ≡ true =
        ap (any (has_gateway_bucket gb)) (
          sym (listed id first.1.db.faults first.1.db last.0 last.1)
          ∙ ap (λ bms. Postgres.mappings_of id (record s.db { bucket_mappings = bms }))
              (mappings_kept id tenant config mode s.db))
        ∙ h in
      subst (λ c. (resolve_bucket u ttl caller gb c).0 ≡ (Postgres.resolve_bucket caller gb c.db).0)
        (ap (λ p. p.1) last.2) (evicted-resolve last.0 caller gb second.1 up mapped)
