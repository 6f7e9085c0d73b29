-- ===== src/Admin/Managers.antt =====
-- The managers that cmd/gateway/main.go gives to the admin API: pgManager, and cachedRegistry in front
-- of it.
use storage_gateway.Registry.Db.{Db}
use storage_gateway.Registry.Postgres
use storage_gateway.Registry.Cache.{Cached}
use storage_gateway.Registry.Cache
use storage_gateway.Registry.Cache.Delegated
use storage_gateway.Admin.{Manager}

unfoldable pub postgres_manager : Manager Db
postgres_manager = record {
  create_tenant = Postgres.create_tenant;
  get_tenant = Postgres.get_tenant;
  list_tenants = Postgres.list_tenants;
  create_access_key = Postgres.create_access_key;
  update_access_key_readonly = Postgres.update_access_key_readonly;
  list_access_keys = Postgres.list_access_keys;
  revoke_access_key = Postgres.revoke_access_key;
  create_store = Postgres.create_store;
  get_store = Postgres.get_store;
  list_stores = Postgres.list_stores;
  update_store_backend = Postgres.update_store_backend;
  update_store_allowed_origins = Postgres.update_store_allowed_origins;
  delete_store = Postgres.delete_store;
  create_bucket_mapping = Postgres.create_bucket_mapping;
  get_bucket_mapping = Postgres.get_bucket_mapping;
  list_bucket_mappings = Postgres.list_bucket_mappings;
  delete_bucket_mapping = Postgres.delete_bucket_mapping;
}

unfoldable pub cached_manager : Manager Cached
cached_manager = record {
  create_tenant = Delegated.create_tenant;
  get_tenant = Delegated.get_tenant;
  list_tenants = Delegated.list_tenants;
  create_access_key = Cache.create_access_key;
  update_access_key_readonly = Cache.update_access_key_readonly;
  list_access_keys = Delegated.list_access_keys;
  revoke_access_key = Cache.revoke_access_key;
  create_store = Delegated.create_store;
  get_store = Delegated.get_store;
  list_stores = Delegated.list_stores;
  update_store_backend = Cache.update_store_backend;
  update_store_allowed_origins = Cache.update_store_allowed_origins;
  delete_store = Cache.delete_store;
  create_bucket_mapping = Cache.create_bucket_mapping;
  get_bucket_mapping = Delegated.get_bucket_mapping;
  list_bucket_mappings = Delegated.list_bucket_mappings;
  delete_bucket_mapping = Cache.delete_bucket_mapping;
}
