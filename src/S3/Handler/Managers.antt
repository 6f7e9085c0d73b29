-- ===== src/S3/Handler/Managers.antt =====
-- The managers that cmd/gateway/main.go gives to the handlers: pgManager, and cachedRegistry in front
-- of it.
use storage_gateway.Prelude.{ℕ}
use storage_gateway.Registry.Db.{Db}
use storage_gateway.Registry.Postgres
use storage_gateway.Registry.Cache.{Cached, Uuids, inner}
use storage_gateway.Registry.Cache
use storage_gateway.S3.Handler.{Manager}

unfoldable pub postgres_manager : Manager Db
postgres_manager = record {
  lookup_access_key = Postgres.lookup_access_key;
  resolve_bucket = Postgres.resolve_bucket;
  get_bucket_allowed_origins = Postgres.get_bucket_allowed_origins;
  list_gateway_buckets = Postgres.list_gateway_buckets;
  create_multipart_upload = Postgres.create_multipart_upload;
  get_multipart_upload = Postgres.get_multipart_upload;
  delete_multipart_upload = Postgres.delete_multipart_upload;
}

unfoldable pub cached_manager : Uuids → ℕ → Manager Cached
cached_manager u ttl = record {
  lookup_access_key = Cache.lookup_access_key u ttl;
  resolve_bucket = Cache.resolve_bucket u ttl;
  get_bucket_allowed_origins = Cache.get_bucket_allowed_origins;
  list_gateway_buckets = λ tenant. inner (Postgres.list_gateway_buckets tenant);
  create_multipart_upload = λ upload. inner (Postgres.create_multipart_upload upload);
  get_multipart_upload = λ id. inner (Postgres.get_multipart_upload id);
  delete_multipart_upload = λ id. inner (Postgres.delete_multipart_upload id);
}
