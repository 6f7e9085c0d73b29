-- ===== src/Registry/Cache.antt =====
-- internal/registry/cache.go: cachedRegistry, the Redis cache in front of pgManager. A value in Redis
-- is the entry that its JSON text stands for; package uuid's Parse and String are parameters.
pub mod Keyspace
pub mod Reads
pub mod Isolation
pub mod Prefixes
pub mod Fresh
pub mod Delegated
pub mod Revoked
use storage_gateway.Prelude.{
  ℕ, ◌≡◌, Bool, true, false, Option, none, some, List, [], ◌∷◌, ◌++◌, Str, bytes, ◌==◌,
  if◌then◌else◌, Result, ok, err, Exec, pure, raise, ◌>>=◌, ◌>>◌,
}
use storage_gateway.Registry.{
  AccessKeyRow, PresignedMode, BucketMapping, ResolvedBucket, parse_backend_bucket, Error,
  access_key_not_found, bucket_not_found, unauthorized,
}
use storage_gateway.Registry.Db.{Db}
use storage_gateway.Registry.Cache.Keyspace.{
  Redis, Value, not_found_text, access_key_json, bucket_json, CachedAccessKey, CachedBucket, fetch,
  set, del, decode_access_key, decode_bucket,
}
use storage_gateway.Registry.Postgres

-- What the code relies on of package github.com/google/uuid.
pub record Uuids : Type 0 where
  pub to_string : ℕ → Str
  pub parse : Str → Option ℕ
  pub parse-to_string : (id : ℕ) → parse (to_string id) ≡ some id

-- The inner manager's state and Redis.
pub record Cached : Type 0 where
  pub db : Db
  pub redis : Redis

abbrev pub access_key_name : Str → Str
access_key_name ak = bytes "sgw:ak:" ++ ak

abbrev pub bucket_name : Str → Str
bucket_name gb = bytes "sgw:bm:" ++ gb

-- A call of the inner manager.
abbrev pub inner : {A : Type 0} → Exec Db Error A → Exec Cached Error A
inner m s = ((m s.db).0, record s { db = (m s.db).1 })

unfoldable pub invalidate_access_key : Str → Cached → Cached
invalidate_access_key ak s = record s { redis = del (access_key_name ak) s.redis }

unfoldable pub invalidate_bucket : Str → Cached → Cached
invalidate_bucket gb s = record s { redis = del (bucket_name gb) s.redis }

-- A command whose error the code drops.
abbrev pub best_effort : (Cached → Cached) → Exec Cached Error (Unit {0})
best_effort f s = (ok tt, f s)

-- for … { if k.ID == id { invalidate; break } }
unfoldable pub invalidate_key_of : ℕ → List AccessKeyRow → Cached → Cached
invalidate_key_of id [] s = s
invalidate_key_of id (r ∷ rs) s =
    if r.id == id then invalidate_access_key r.access_key s else invalidate_key_of id rs s

unfoldable pub invalidate_bucket_of : ℕ → List BucketMapping → Cached → Cached
invalidate_bucket_of id [] s = s
invalidate_bucket_of id (bm ∷ bms) s =
    if bm.id == id then invalidate_bucket bm.gateway_bucket s else invalidate_bucket_of id bms s

unfoldable pub invalidate_all : List BucketMapping → Cached → Cached
invalidate_all [] s = s
invalidate_all (bm ∷ bms) s = invalidate_all bms (invalidate_bucket bm.gateway_bucket s)

unfoldable pub invalidate_buckets_for_store : ℕ → Exec Cached Error (Unit {0})
invalidate_buckets_for_store store = do
  bms ← inner (Postgres.list_bucket_mappings store)
  best_effort (invalidate_all bms)

unfoldable pub update_access_key_readonly : ℕ → ℕ → Bool → Exec Cached Error AccessKeyRow
update_access_key_readonly id tenant b = do
  row ← inner (Postgres.update_access_key_readonly id tenant b)
  best_effort (invalidate_access_key row.access_key)
  pure row

unfoldable pub revoke_access_key : ℕ → ℕ → Exec Cached Error (Unit {0})
revoke_access_key id tenant = do
  keys ← inner (Postgres.list_access_keys tenant)
  inner (Postgres.revoke_access_key id tenant)
  best_effort (invalidate_key_of id keys)

unfoldable pub update_store_backend : ℕ → ℕ → Str → PresignedMode → Exec Cached Error (Unit {0})
update_store_backend id tenant config mode = do
  inner (Postgres.update_store_backend id tenant config mode)
  invalidate_buckets_for_store id

unfoldable pub update_store_allowed_origins : ℕ → ℕ → List Str → Exec Cached Error (Unit {0})
update_store_allowed_origins id tenant origins = do
  inner (Postgres.update_store_allowed_origins id tenant origins)
  invalidate_buckets_for_store id

unfoldable pub delete_store : ℕ → ℕ → Exec Cached Error (Unit {0})
delete_store id tenant = do invalidate_buckets_for_store id; inner (Postgres.delete_store id tenant)

unfoldable pub delete_bucket_mapping : ℕ → ℕ → Exec Cached Error (Unit {0})
delete_bucket_mapping id store = do
  bms ← inner (Postgres.list_bucket_mappings store)
  inner (Postgres.delete_bucket_mapping id store)
  best_effort (invalidate_bucket_of id bms)

-- The write that changes no cache entry.
unfoldable pub create_access_key : ℕ → ℕ → Str → Str → Bool → Exec Cached Error AccessKeyRow
create_access_key id tenant ak secret b = inner (Postgres.create_access_key id tenant ak secret b)

unfoldable pub create_bucket_mapping : ℕ → ℕ → Str → Str → Exec Cached Error BucketMapping
create_bucket_mapping id store gb bb = inner (Postgres.create_bucket_mapping id store gb bb)

abbrev pub negative_ttl : ℕ
negative_ttl = 30

abbrev row_of : Str → CachedAccessKey → ℕ → AccessKeyRow
row_of ak c tid = record {
  id = 0;
  tenant_id = tid;
  access_key = ak;
  secret_key_enc = c.secret_key_enc;
  readonly = c.readonly;
  created_at = c.created_at;
  revoked_at = none;
}

abbrev bucket_of : Str → CachedBucket → ℕ → ℕ → ResolvedBucket
bucket_of gb c sid tid = record {
  store_id = sid;
  tenant_id = tid;
  backend_type = c.backend_type;
  backend_config_enc = c.backend_config_enc;
  gateway_bucket = gb;
  backend_bucket = (parse_backend_bucket c.backend_bucket).0;
  backend_prefix = (parse_backend_bucket c.backend_bucket).1;
  presigned_mode = c.presigned_mode;
  allowed_origins = c.allowed_origins;
}

abbrev owned_bucket :
    ℕ → Str → CachedBucket → Option ℕ → Option ℕ → Option (Result Error ResolvedBucket)
owned_bucket tenant gb c (some sid) (some tid) =
    if tid == tenant then some (ok (bucket_of gb c sid tid)) else some (err unauthorized)
owned_bucket tenant gb c _ _ = none

-- How entries are written and read.
module _ (u : Uuids) where
  abbrev decoded_key : Str → Option CachedAccessKey → Option (Result Error AccessKeyRow)
  decoded_key ak none = none
  decoded_key ak (some c) = elim (u.parse c.tenant_id) [
    | none ↦ none
    | some tid ↦ some (ok (row_of ak c tid))
  ]

  -- What a cached value answers, or none where the code goes on to the inner manager.
  unfoldable pub key_hit : Str → Option Value → Option (Result Error AccessKeyRow)
  key_hit ak none = none
  key_hit ak (some not_found_text) = some (err access_key_not_found)
  key_hit ak (some v) = decoded_key ak (decode_access_key v)

  abbrev pub cached_row : AccessKeyRow → CachedAccessKey
  cached_row r = record {
    tenant_id = u.to_string r.tenant_id;
    secret_key_enc = r.secret_key_enc;
    readonly = r.readonly;
    created_at = r.created_at;
  }

  abbrev decoded_bucket : ℕ → Str → Option CachedBucket → Option (Result Error ResolvedBucket)
  decoded_bucket tenant gb none = none
  decoded_bucket tenant gb (some c) =
      owned_bucket tenant gb c (u.parse c.store_id) (u.parse c.tenant_id)

  unfoldable pub bucket_hit : ℕ → Str → Option Value → Option (Result Error ResolvedBucket)
  bucket_hit tenant gb none = none
  bucket_hit tenant gb (some not_found_text) = some (err bucket_not_found)
  bucket_hit tenant gb (some v) = decoded_bucket tenant gb (decode_bucket v)

  abbrev pub cached_bucket : ResolvedBucket → CachedBucket
  cached_bucket rb = record {
    store_id = u.to_string rb.store_id;
    tenant_id = u.to_string rb.tenant_id;
    backend_type = rb.backend_type;
    backend_config_enc = rb.backend_config_enc;
    backend_bucket = rb.backend_bucket;
    presigned_mode = rb.presigned_mode;
    allowed_origins = rb.allowed_origins;
  }

-- The reads of the data plane: `ttl` is the cache's time to live.
module _ (u : Uuids) (ttl : ℕ) where
  -- The SET after the inner lookup.
  unfoldable pub remember_key : Str → Result Error AccessKeyRow → Redis → Redis
  remember_key ak (ok r) redis =
      set (access_key_name ak) (access_key_json (cached_row u r)) ttl redis
  remember_key ak (err access_key_not_found) redis =
      set (access_key_name ak) not_found_text negative_ttl redis
  remember_key ak (err _) redis = redis

  abbrev ask_for_key :
      Str → Redis → Result Error AccessKeyRow × Db → Result Error AccessKeyRow × Cached
  ask_for_key ak redis (res, db) = (res, record { db = db; redis = remember_key ak res redis })

  unfoldable pub lookup_access_key : Str → Exec Cached Error AccessKeyRow
  lookup_access_key ak s =
      let (raw, redis) = fetch (access_key_name ak) s.redis in
      elim (key_hit u ak raw) [
        | some res ↦ (res, record s { redis = redis })
        | none ↦ ask_for_key ak redis (Postgres.lookup_access_key ak s.db)
      ]

  unfoldable pub remember_bucket : Str → Result Error ResolvedBucket → Redis → Redis
  remember_bucket gb (ok rb) redis =
      set (bucket_name gb) (bucket_json (cached_bucket u rb)) ttl redis
  remember_bucket gb (err bucket_not_found) redis =
      set (bucket_name gb) not_found_text negative_ttl redis
  remember_bucket gb (err _) redis = redis

  abbrev ask_for_bucket :
      Str → Redis → Result Error ResolvedBucket × Db → Result Error ResolvedBucket × Cached
  ask_for_bucket gb redis (res, db) =
      (res, record { db = db; redis = remember_bucket gb res redis })

  unfoldable pub resolve_bucket : ℕ → Str → Exec Cached Error ResolvedBucket
  resolve_bucket tenant gb s =
      let (raw, redis) = fetch (bucket_name gb) s.redis in
      elim (bucket_hit u tenant gb raw) [
        | some res ↦ (res, record s { redis = redis })
        | none ↦ ask_for_bucket gb redis (Postgres.resolve_bucket tenant gb s.db)
      ]

abbrev origins_hit : Option Value → Option (List Str)
origins_hit none = none
origins_hit (some v) = elim (decode_bucket v) [ none ↦ none | some c ↦ some c.allowed_origins ]

unfoldable pub get_bucket_allowed_origins : Str → Exec Cached Error (List Str)
get_bucket_allowed_origins gb s =
    let (raw, redis) = fetch (bucket_name gb) s.redis in
    elim (origins_hit raw) [
      | some origins ↦ (ok origins, record s { redis = redis })
      | none ↦ inner (Postgres.get_bucket_allowed_origins gb) (record s { redis = redis })
    ]
