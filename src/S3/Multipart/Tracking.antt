-- ===== src/S3/Multipart/Tracking.antt =====
-- internal/api/s3/multipart.go: the tracking record ties a request to one upload of the upstream.
use storage_gateway.Prelude.{◌≢◌, ◌⊎◌}
use storage_gateway.Registry.{MultipartUpload}
use storage_gateway.S3.Handler.{Request, World, Gateway, bucket_and_key}

module _ {M S : Type 0} (gw : Gateway M S) (r : Request) (w : World M S) where
  -- The record is of another object than the request's path names.
  abbrev pub OfOther : MultipartUpload → Type 0
  OfOther mu = (mu.gateway_bucket ≢ (bucket_and_key r).0) ⊎ (mu.object_key ≢ (bucket_and_key r).1)
