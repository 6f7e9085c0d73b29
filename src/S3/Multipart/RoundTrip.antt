-- ===== src/S3/Multipart/RoundTrip.antt =====
-- internal/api/s3/multipart.go over internal/registry/postgres.go: an upload that is created is found
-- again by the requests that name it.
use storage_gateway.Prelude.{Str}
use storage_gateway.Registry.{ResolvedBucket, MultipartUpload}
use storage_gateway.Registry.Db.{Db}
use storage_gateway.Registry.Postgres.{has_upload_id, store_exists}
use storage_gateway.Registry.Postgres
use storage_gateway.Backend.{Backend}
use storage_gateway.Backend.Pool.{Providers}
use storage_gateway.S3.Handler.{Request, Gateway}
use storage_gateway.S3.Handler.Managers.{postgres_manager}
use storage_gateway.S3.Multipart.{record_of}

module _ {S : Type 0} (providers : Providers (Backend S)) where
  abbrev pub gateway : Gateway Db S
  gateway = record { manager = postgres_manager; providers = providers }

  module _ (r : Request) (rb : ResolvedBucket) (be : Backend S) (id : Str) where
    abbrev pub row : Db → MultipartUpload
    row db = record (record_of gateway r rb id) { created_at = db.now }
