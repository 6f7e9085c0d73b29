-- ===== src/Registry/Cache/Delegated.antt =====
-- internal/registry/cache.go: the methods of cachedRegistry that only call the inner manager.
use storage_gateway.Prelude.{ℕ, List, Str, Exec}
use storage_gateway.Registry.{
  Tenant, AccessKeyRow, Store, CreateStoreParams, BucketMapping, GatewayBucket, MultipartUpload,
  Error,
}
use storage_gateway.Registry.Cache.{Cached, inner}
use storage_gateway.Registry.Postgres

unfoldable pub create_tenant : ℕ → Str → Exec Cached Error Tenant
create_tenant id name = inner (Postgres.create_tenant id name)

unfoldable pub get_tenant : ℕ → Exec Cached Error Tenant
get_tenant id = inner (Postgres.get_tenant id)

unfoldable pub list_tenants : Exec Cached Error (List Tenant)
list_tenants = inner Postgres.list_tenants

unfoldable pub list_access_keys : ℕ → Exec Cached Error (List AccessKeyRow)
list_access_keys tenant = inner (Postgres.list_access_keys tenant)

unfoldable pub create_store : ℕ → CreateStoreParams → Exec Cached Error Store
create_store id p = inner (Postgres.create_store id p)

unfoldable pub get_store : ℕ → Exec Cached Error Store
get_store id = inner (Postgres.get_store id)

unfoldable pub list_stores : ℕ → Exec Cached Error (List Store)
list_stores tenant = inner (Postgres.list_stores tenant)

unfoldable pub get_bucket_mapping : ℕ → ℕ → Exec Cached Error BucketMapping
get_bucket_mapping id store = inner (Postgres.get_bucket_mapping id store)

unfoldable pub list_bucket_mappings : ℕ → Exec Cached Error (List BucketMapping)
list_bucket_mappings store = inner (Postgres.list_bucket_mappings store)

unfoldable pub create_multipart_upload : MultipartUpload → Exec Cached Error (Unit {0})
create_multipart_upload mu = inner (Postgres.create_multipart_upload mu)

unfoldable pub get_multipart_upload : Str → Exec Cached Error MultipartUpload
get_multipart_upload upload = inner (Postgres.get_multipart_upload upload)

unfoldable pub delete_multipart_upload : Str → Exec Cached Error (Unit {0})
delete_multipart_upload upload = inner (Postgres.delete_multipart_upload upload)

unfoldable pub list_gateway_buckets : ℕ → Exec Cached Error (List GatewayBucket)
list_gateway_buckets tenant = inner (Postgres.list_gateway_buckets tenant)
