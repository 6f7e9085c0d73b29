-- ===== src/Registry/Cache/Prefixes.antt =====
-- internal/registry/cache.go, ResolveBucket: what a cache hit answers after a miss.
use storage_gateway.Prelude.{ℕ, ◌≡◌, ◌∙◌, ap, refl, none, some, [], Str, str_eq_refl, arith, ok}
use storage_gateway.Registry.{ResolvedBucket, BucketMapping, Store, prefix_key}
use storage_gateway.Registry.Prefix.{parse_again}
use storage_gateway.Registry.Db.{find_bucket}
use storage_gateway.Registry.Postgres
use storage_gateway.Registry.Postgres.{check_tenant, resolved}
use storage_gateway.Registry.Cache.{
  Uuids, Cached, bucket_name, bucket_hit, cached_bucket, resolve_bucket, remember_bucket,
  ask_for_bucket,
}
use storage_gateway.Registry.Cache.Reads.{resolve_miss_up, resolve_hit_up}
use storage_gateway.Registry.Cache.Keyspace.{
  bucket_json, set, value_at, value_at-set_up, faults-set,
}

module _ (u : Uuids) (ttl tenant : ℕ) (gb : Str) (s : Cached) (bm : BucketMapping)
    (st : Store) where
  -- A mapping of the tenant's store that is not cached yet, with both servers up.
  pub record Uncached : Type 0 where
    pub db_up : s.db.faults ≡ []
    pub redis_up : s.redis.faults ≡ []
    pub not_cached : value_at s.redis (bucket_name gb) ≡ none
    pub mapped : find_bucket gb s.db.stores s.db.bucket_mappings ≡ some (bm, st)
    pub owned : st.tenant_id ≡ tenant

  abbrev first_answer : ResolvedBucket
  first_answer = resolved gb bm st

  -- The state after the first call: the entry is stored.
  abbrev filled : Cached
  filled = record s {
    redis = set (bucket_name gb) (bucket_json (cached_bucket u first_answer)) ttl s.redis;
  }

  pg_answer : Uncached → Postgres.resolve_bucket tenant gb s.db ≡ (ok first_answer, s.db)
  unfolding Postgres.resolve_bucket check_tenant
  pg_answer h = rw (h.db_up, h.mapped, check_tenant) (ground (arith, h.owned))

  first_call : Uncached → resolve_bucket u ttl tenant gb s ≡ (ok first_answer, filled)
  first_call h =
      resolve_miss_up u ttl s tenant gb h.redis_up
        (ap (bucket_hit u tenant gb) h.not_cached ∙ unfold bucket_hit in refl)
      ∙ ap (ask_for_bucket u ttl gb s.redis) (pg_answer h)
      ∙ unfold remember_bucket in refl

  stored :
      Uncached
      → value_at filled.redis (bucket_name gb) ≡ some (bucket_json (cached_bucket u first_answer))
  stored h =
      value_at-set_up s.redis h.redis_up (bucket_name gb) (bucket_name gb) _ ttl
      ∙ rw (str_eq_refl (bucket_name gb)) refl

  hit_again :
      Uncached
      → bucket_hit u tenant gb (some (bucket_json (cached_bucket u first_answer)))
        ≡ some (ok (record first_answer { backend_prefix = [] }))
  unfolding bucket_hit
  hit_again h =
      rw
        (
          u.parse-to_string bm.store_id,
          u.parse-to_string st.tenant_id,
          parse_again bm.backend_bucket,
        )
        (ground (arith, h.owned))

  second_call :
      Uncached
      → (resolve_bucket u ttl tenant gb filled).0 ≡ ok (record first_answer { backend_prefix = [] })
  second_call h =
      ap (λ p. p.0)
        (resolve_hit_up u ttl filled tenant gb
          (faults-set s.redis h.redis_up (bucket_name gb) _ ttl)
          (ok (record first_answer { backend_prefix = [] }))
          (ap (bucket_hit u tenant gb) (stored h) ∙ hit_again h))

-- A mapping of the tenant that is not cached yet, with both servers up, resolves with its key prefix
-- the first time. The next call is answered from the cache: the same bucket without the prefix, so
-- that keys are sent upstream as the client wrote them.
pub resolve_bucket-loses_prefix :
    (u : Uuids) (ttl tenant : ℕ) (gb : Str) (s : Cached) (bm : BucketMapping) (st : Store)
    → Uncached u ttl tenant gb s bm st
    → ((resolve_bucket u ttl tenant gb s).0 ≡ ok (resolved gb bm st))
      × ((resolve_bucket u ttl tenant gb (resolve_bucket u ttl tenant gb s).1).0
          ≡ ok (record (resolved gb bm st) { backend_prefix = [] }))
      × ((key : Str) → prefix_key (record (resolved gb bm st) { backend_prefix = [] }) key ≡ key)
resolve_bucket-loses_prefix u ttl tenant gb s bm st h = (
  ap (λ p. p.0) (first_call u ttl tenant gb s bm st h),
  ap (λ p. (resolve_bucket u ttl tenant gb p.1).0) (first_call u ttl tenant gb s bm st h)
      ∙ second_call u ttl tenant gb s bm st h,
  λ key. unfold prefix_key in refl,
)
