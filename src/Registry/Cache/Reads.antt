-- ===== src/Registry/Cache/Reads.antt =====
-- internal/registry/cache.go, LookupAccessKey and ResolveBucket: the call after a hit and after a
-- miss, and what stands in Redis afterwards.
use storage_gateway.Prelude.{ℕ, ◌≡◌, ◌∙◌, ap, refl, none, some, [], Str, Result}
use storage_gateway.Registry.{AccessKeyRow, ResolvedBucket, Error}
use storage_gateway.Registry.Postgres
use storage_gateway.Registry.Cache.{
  Uuids, Cached, access_key_name, bucket_name, key_hit, bucket_hit, ask_for_key, ask_for_bucket,
  lookup_access_key, resolve_bucket,
}
use storage_gateway.Registry.Cache.Keyspace.{fetch, value_at, fetch-up}

module _ (u : Uuids) (ttl : ℕ) (s : Cached) where
  module _ (tenant : ℕ) (gb : Str) where
    pub resolve_hit :
        (res : Result Error ResolvedBucket)
        → bucket_hit u tenant gb (fetch (bucket_name gb) s.redis).0 ≡ some res
        → resolve_bucket u ttl tenant gb s
          ≡ (res, record s { redis = (fetch (bucket_name gb) s.redis).1 })
    unfolding resolve_bucket
    resolve_hit res h = rw (h, resolve_bucket) refl

    pub resolve_miss :
        bucket_hit u tenant gb (fetch (bucket_name gb) s.redis).0 ≡ none
        → resolve_bucket u ttl tenant gb s
          ≡ ask_for_bucket u ttl gb
              (fetch (bucket_name gb) s.redis).1
              (Postgres.resolve_bucket tenant gb s.db)
    unfolding resolve_bucket
    resolve_miss h = rw (h, resolve_bucket) refl

    module _ (up : s.redis.faults ≡ []) where
      pub resolve_hit_up :
          (res : Result Error ResolvedBucket)
          → bucket_hit u tenant gb (value_at s.redis (bucket_name gb)) ≡ some res
          → resolve_bucket u ttl tenant gb s ≡ (res, s)
      resolve_hit_up res h =
          resolve_hit res
            (ap (λ p. bucket_hit u tenant gb p.0) (fetch-up s.redis up (bucket_name gb)) ∙ h)
          ∙ ap (λ p. (res, record s { redis = p.1 })) (fetch-up s.redis up (bucket_name gb))

      pub resolve_miss_up :
          bucket_hit u tenant gb (value_at s.redis (bucket_name gb)) ≡ none
          → resolve_bucket u ttl tenant gb s
            ≡ ask_for_bucket u ttl gb s.redis (Postgres.resolve_bucket tenant gb s.db)
      resolve_miss_up h =
          resolve_miss
            (ap (λ p. bucket_hit u tenant gb p.0) (fetch-up s.redis up (bucket_name gb)) ∙ h)
          ∙ ap (λ p. ask_for_bucket u ttl gb p.1 (Postgres.resolve_bucket tenant gb s.db))
              (fetch-up s.redis up (bucket_name gb))

  module _ (ak : Str) where
    pub lookup_hit :
        (res : Result Error AccessKeyRow)
        → key_hit u ak (fetch (access_key_name ak) s.redis).0 ≡ some res
        → lookup_access_key u ttl ak s
          ≡ (res, record s { redis = (fetch (access_key_name ak) s.redis).1 })
    unfolding lookup_access_key
    lookup_hit res h = rw (h, lookup_access_key) refl

    pub lookup_miss :
        key_hit u ak (fetch (access_key_name ak) s.redis).0 ≡ none
        → lookup_access_key u ttl ak s
          ≡ ask_for_key u ttl ak
              (fetch (access_key_name ak) s.redis).1
              (Postgres.lookup_access_key ak s.db)
    unfolding lookup_access_key
    lookup_miss h = rw (h, lookup_access_key) refl
