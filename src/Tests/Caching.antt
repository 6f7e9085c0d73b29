-- ===== src/Tests/Caching.antt =====
-- Writes behind a cache that holds the rows from before.
use storage_gateway.Prelude.{◌≡◌, refl, false, [], bytes, str_eq, find}
use storage_gateway.Registry.{AccessKeyRow, proxy}
use storage_gateway.Registry.Postgres
use storage_gateway.Registry.Cache.{
  Uuids, Cached, lookup_access_key, resolve_bucket, update_access_key_readonly,
  update_store_backend,
}
use storage_gateway.Registry.Cache.Fresh.{update_access_key_readonly-fresh}
use storage_gateway.Tests.Registry.{uuids}
use storage_gateway.Tests.Handlers.{database, key_row}

abbrev idle : Cached
idle = record { db = database []; redis = record { items = []; clock = 9; faults = [] } }

abbrev key_cached : Cached
key_cached = (lookup_access_key uuids 60 (bytes "AK") idle).1

abbrev bucket_cached : Cached
bucket_cached = (resolve_bucket uuids 60 1 (bytes "photos") idle).1

abbrev updated : AccessKeyRow
updated = record key_row { secret_key_enc = []; readonly = false }

update_access_key_readonly-fresh_example :
    (lookup_access_key uuids 60 (bytes "AK") (update_access_key_readonly 10 1 false key_cached).1).0
    ≡ (Postgres.lookup_access_key
        (bytes "AK")
        (update_access_key_readonly 10 1 false key_cached).1.db).0
unfolding lookup_access_key storage_gateway.Registry.Cache.key_hit
    storage_gateway.Registry.Cache.Keyspace.fetch storage_gateway.Registry.Cache.Keyspace.value_at
    storage_gateway.Registry.Cache.Keyspace.lookup_items storage_gateway.Registry.Cache.remember_key
    Postgres.lookup_access_key find storage_gateway.Registry.Db.active_key str_eq
    storage_gateway.Registry.Cache.Keyspace.set update_access_key_readonly
    Postgres.update_access_key_readonly storage_gateway.Registry.Db.own_key
update_access_key_readonly-fresh_example =
    update_access_key_readonly-fresh uuids 60 10 1 false key_cached
      (update_access_key_readonly 10 1 false key_cached).1 updated refl refl
