-- ===== src/Tests/Registry.antt =====
-- Runs of the registry and of its cache.
use storage_gateway.Prelude.{
  ℕ, ◌≡◌, refl, true, false, [], ◌∷◌, some, none, Option, Str, bytes, str_eq, find, ok,
}
use storage_gateway.Registry.{
  BucketMapping, Store, ResolvedBucket, local_fs, proxy, prefix_key, strip_prefix,
}
use storage_gateway.Registry.Prefix.{strip_prefix-prefix_key}
use storage_gateway.Registry.Db.{find_bucket}
use storage_gateway.Registry.Db.WellFormed.{WellFormed}
use storage_gateway.Registry.Postgres.{resolved, check_tenant}
use storage_gateway.Registry.Postgres
use storage_gateway.Registry.Postgres.Invariant.{new_tenant, run, empty_db, run-WellFormed}
use storage_gateway.Registry.Cache.Keyspace.{value_at, lookup_items, fetch}
use storage_gateway.Registry.Cache.{Uuids, Cached, resolve_bucket, bucket_hit}
use storage_gateway.Registry.Cache.Isolation.{IsOwn, resolve_bucket-IsOwn}
use storage_gateway.Registry.Cache.Prefixes.{Uncached, resolve_bucket-loses_prefix}

abbrev pub uuid_text : ℕ → Str
uuid_text id = id ∷ []

abbrev pub uuid_of : Str → Option ℕ
uuid_of [] = none
uuid_of (id ∷ _) = some id

pub uuid_of-uuid_text : (id : ℕ) → uuid_of (uuid_text id) ≡ some id
uuid_of-uuid_text id = refl

abbrev pub uuids : Uuids
uuids = record { to_string = uuid_text; parse = uuid_of; parse-to_string = uuid_of-uuid_text }

abbrev pub scoped : BucketMapping
scoped = record {
  id = 30;
  store_id = 20;
  gateway_bucket = bytes "photos";
  backend_bucket = bytes "data/team";
  created_at = 5;
}

abbrev bare : BucketMapping
bare = record scoped { backend_bucket = bytes "data" }

abbrev pub disk : Store
disk = record {
  id = 20;
  tenant_id = 1;
  name = bytes "disk";
  backend_type = local_fs;
  backend_config_enc = bytes "sealed";
  presigned_mode = proxy;
  allowed_origins = [];
  created_at = 4;
  updated_at = 4;
}

abbrev serving : BucketMapping → Cached
serving bm = record {
  db = record {
    tenants = [];
    access_keys = [];
    stores = disk ∷ [];
    bucket_mappings = bm ∷ [];
    multipart_uploads = [];
    now = 9;
    faults = [];
  };
  redis = record { items = []; clock = 9; faults = [] };
}

resolve_bucket-IsOwn_example : IsOwn 1 (bytes "photos") (resolved (bytes "photos") scoped disk)
unfolding resolve_bucket bucket_hit fetch value_at lookup_items Postgres.resolve_bucket check_tenant
    find_bucket str_eq find
resolve_bucket-IsOwn_example =
    resolve_bucket-IsOwn uuids 60 1 (bytes "photos") (serving scoped)
      (resolved (bytes "photos") scoped disk) refl

scoped-Uncached : Uncached uuids 60 1 (bytes "photos") (serving scoped) scoped disk
unfolding find_bucket value_at lookup_items str_eq find
scoped-Uncached = record {
  db_up = refl;
  redis_up = refl;
  not_cached = refl;
  mapped = refl;
  owned = refl;
}

bare-Uncached : Uncached uuids 60 1 (bytes "photos") (serving bare) bare disk
unfolding find_bucket value_at lookup_items str_eq find
bare-Uncached = record {
  db_up = refl;
  redis_up = refl;
  not_cached = refl;
  mapped = refl;
  owned = refl;
}

resolve_bucket-loses_prefix_example :
    ((resolve_bucket uuids 60 1 (bytes "photos") (serving scoped)).0
      ≡ ok (resolved (bytes "photos") scoped disk))
    × ((resolve_bucket uuids 60 1
          (bytes "photos")
          (resolve_bucket uuids 60 1 (bytes "photos") (serving scoped)).1).0
        ≡ ok (record (resolved (bytes "photos") scoped disk) { backend_prefix = [] }))
    × ((key : Str)
        → prefix_key (record (resolved (bytes "photos") scoped disk) { backend_prefix = [] }) key
          ≡ key)
resolve_bucket-loses_prefix_example =
    resolve_bucket-loses_prefix uuids 60 1 (bytes "photos") (serving scoped) scoped disk
      scoped-Uncached

run-WellFormed_example : WellFormed (
    run
      (new_tenant 1 (bytes "acme") ∷ (new_tenant 2 (bytes "acme") ∷ []))
      (empty_db 5 (false ∷ (true ∷ []))))
run-WellFormed_example =
    run-WellFormed (new_tenant 1 (bytes "acme") ∷ (new_tenant 2 (bytes "acme") ∷ [])) 5
      (false ∷ (true ∷ []))

strip_prefix-prefix_key_example :
    strip_prefix
      (resolved (bytes "photos") scoped disk)
      (prefix_key (resolved (bytes "photos") scoped disk) (bytes "a/b"))
    ≡ bytes "a/b"
strip_prefix-prefix_key_example =
    strip_prefix-prefix_key (resolved (bytes "photos") scoped disk) (bytes "a/b")

abbrev team_bucket : ResolvedBucket
team_bucket = record (resolved (bytes "photos") scoped disk) { backend_prefix = bytes "team" }
