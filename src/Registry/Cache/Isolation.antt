-- ===== src/Registry/Cache/Isolation.antt =====
-- internal/registry/cache.go and postgres.go, ResolveBucket: a bucket resolves for its tenant only.
use storage_gateway.Prelude.{
  ℕ, ◌≡◌, ◌∙◌, ap, refl, Bool, true, false, Option, none, some, List, [], ◌∷◌, Str, arith, ok,
  Option-cases, inl, inr,
}
use storage_gateway.Registry.{ResolvedBucket, BucketMapping, Store}
use storage_gateway.Registry.Db.{Db, find_bucket}
use storage_gateway.Registry.Postgres
use storage_gateway.Registry.Postgres.{check_tenant}
use storage_gateway.Registry.Cache.{
  Uuids, Cached, bucket_name, bucket_hit, owned_bucket, resolve_bucket,
}
use storage_gateway.Registry.Cache.Keyspace.{
  Value, not_found_text, access_key_json, bucket_json, other_text, CachedBucket, fetch,
}

module _ (tenant : ℕ) (gb : Str) where
  -- The bucket is the tenant's, under the name that was asked for.
  abbrev pub IsOwn : ResolvedBucket → Type 0
  IsOwn rb = (rb.tenant_id ≡ tenant) × (rb.gateway_bucket ≡ gb)

  check_tenant-IsOwn :
      (o : Option (BucketMapping × Store)) (rb : ResolvedBucket)
      → check_tenant tenant gb o ≡ ok rb
      → IsOwn rb
  unfolding check_tenant
  check_tenant-IsOwn none rb h = cc
  check_tenant-IsOwn (some (bm, s)) rb h = ground arith

  inner-IsOwn :
      (db : Db) (fs : List Bool) (rb : ResolvedBucket)
      → db.faults ≡ fs
      → (Postgres.resolve_bucket tenant gb db).0 ≡ ok rb
      → IsOwn rb
  unfolding Postgres.resolve_bucket
  inner-IsOwn db [] rb e h =
      check_tenant-IsOwn (find_bucket gb db.stores db.bucket_mappings) rb (rw e at h)
  inner-IsOwn db (true ∷ fs) rb e h = let h' = rw e at h in cc
  inner-IsOwn db (false ∷ fs) rb e h =
      check_tenant-IsOwn (find_bucket gb db.stores db.bucket_mappings) rb (rw e at h)

  module _ (u : Uuids) where
    owned_bucket-IsOwn :
        (c : CachedBucket) (sid tid : Option ℕ) (rb : ResolvedBucket)
        → owned_bucket tenant gb c sid tid ≡ some (ok rb)
        → IsOwn rb
    owned_bucket-IsOwn c (some sid) (some tid) rb h = ground arith
    owned_bucket-IsOwn c (some sid) none rb h = cc
    owned_bucket-IsOwn c none tid rb h = cc

    bucket_hit-IsOwn :
        (raw : Option Value) (rb : ResolvedBucket)
        → bucket_hit u tenant gb raw ≡ some (ok rb)
        → IsOwn rb
    unfolding bucket_hit
    bucket_hit-IsOwn none rb h = cc
    bucket_hit-IsOwn (some not_found_text) rb h = cc
    bucket_hit-IsOwn (some (bucket_json c)) rb h =
        owned_bucket-IsOwn c (u.parse c.store_id) (u.parse c.tenant_id) rb h
    bucket_hit-IsOwn (some (access_key_json c)) rb h = cc
    bucket_hit-IsOwn (some (other_text t)) rb h = cc

-- Whatever the database and Redis hold, stale or foreign entries included, and whichever commands
-- fail, a bucket that ResolveBucket returns belongs to the tenant that asked.
pub resolve_bucket-IsOwn :
    (u : Uuids) (ttl tenant : ℕ) (gb : Str) (s : Cached) (rb : ResolvedBucket)
    → (resolve_bucket u ttl tenant gb s).0 ≡ ok rb
    → IsOwn tenant gb rb
unfolding resolve_bucket
resolve_bucket-IsOwn u ttl tenant gb s rb h =
    elim (Option-cases (bucket_hit u tenant gb (fetch (bucket_name gb) s.redis).0)) [
      | inl miss ↦ inner-IsOwn tenant gb s.db s.db.faults rb refl (rw (miss, resolve_bucket) at h)
      | inr (res, hit) ↦
          bucket_hit-IsOwn tenant gb u (fetch (bucket_name gb) s.redis).0 rb
            (hit ∙ ap some (rw (hit, resolve_bucket) at h))
    ]
