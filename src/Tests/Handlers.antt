-- ===== src/Tests/Handlers.antt =====
-- Requests of the S3 handlers over a Postgres registry and an upstream that only remembers the keys
-- that were written.
use mathlib.Core.Path.{subst}
use storage_gateway.Prelude.{
  ℕ, zero, suc, ◌≡◌, refl, true, false, Bool, List, [], ◌∷◌, ◌++◌, some, none, Option, Str, bytes,
  All, has_prefix, is_empty, arith, ok, err, Result, Exec, pure, raise, ◌⊎◌, inl, map, str_eq,
}
use storage_gateway.Prelude.Int.{pos}
use storage_gateway.Registry.{
  BucketMapping, Store, ResolvedBucket, MultipartUpload, AccessKeyRow, local_fs, proxy, prefix_key,
}
use storage_gateway.Registry
use storage_gateway.Registry.Db.{Db}
use storage_gateway.Registry.Postgres.{resolved}
use storage_gateway.Backend.{
  Backend, CompletedPart, ObjectRef, PutObjectInput, HeadObjectOutput, GetObjectOutput,
  DeleteObjectsOutput, ListObjectsOutput,
}
use storage_gateway.Backend
use storage_gateway.Backend.Pool.{Providers, Pool, get, build, publish, invalidate}
use storage_gateway.Backend.Pool.Fresh.{get-invalidate}
use storage_gateway.Registry.Postgres.Uploads.{UploadStep, new_upload, deleted, run_uploads}
use storage_gateway.S3.Handler.{
  Request, Response, World, Gateway, resolve_bucket, backend_err, internal_error, cors_options,
  bucket_and_key, get_value, write_s3_error,
}
use storage_gateway.S3.Handler.Managers.{postgres_manager}
use storage_gateway.S3.Handler.Cors.{IsAdmitted, cors_options-IsAdmitted}
use storage_gateway.S3.Multipart.{
  complete_multipart_upload, abort_multipart_upload, upload_part, track, record_of,
}
use storage_gateway.S3.Objects.{get_object, do_put_object, do_delete_object}
use storage_gateway.S3.Objects.Isolation.{IsConfined, object_requests-confined}
use storage_gateway.S3.Signature.{Digests}
use storage_gateway.S3.Signature.{Digests}
use storage_gateway.S3.Auth.{Outside, authenticate, auth_middleware}
use storage_gateway.S3.Auth.Admitted.{Admitted, authenticate-Admitted, auth_middleware-refused}
use storage_gateway.Tests.Registry.{scoped, disk}

abbrev pub Keys : Type 0
Keys = List Str

abbrev refuse : {A : Type 0} → Exec Keys Backend.Error A
refuse s = (err Backend.access_denied, s)

abbrev pub memory : Backend Keys
memory = record {
  head_object = λ i. refuse;
  get_object = λ i. refuse;
  put_object = λ i s. (ok (bytes "e1"), i.key ∷ s);
  delete_object = λ i. refuse;
  delete_objects = λ i. refuse;
  head_bucket = λ b. refuse;
  list_objects = λ i. refuse;
  create_multipart_upload = λ i s. (ok (bytes "up"), s);
  upload_part = λ i. refuse;
  complete_multipart_upload = λ i. refuse;
  abort_multipart_upload = λ i s. (ok tt, bytes "aborted" ∷ s);
  presign_url = λ i. refuse;
}

abbrev pub providers : Providers (Backend Keys)
providers = record {
  decrypt = λ sealed. some sealed;
  open_s3 = λ config. none;
  open_gcs = λ config. none;
  open_azure = λ config. none;
  open_local = λ config. some memory;
}

abbrev pub gateway : Gateway Db Keys
gateway = record { manager = postgres_manager; providers = providers }

abbrev pub upload : MultipartUpload
upload = record {
  id = 40;
  store_id = 20;
  gateway_upload_id = bytes "u1";
  backend_upload_id = bytes "up";
  gateway_bucket = bytes "photos";
  backend_bucket = bytes "data";
  object_key = bytes "a";
  created_at = 6;
}

abbrev pub key_row : AccessKeyRow
key_row = record {
  id = 10;
  tenant_id = 1;
  access_key = bytes "AK";
  secret_key_enc = bytes "secret";
  readonly = true;
  created_at = 3;
  revoked_at = none;
}

abbrev pub database : List Bool → Db
database faults = record {
  tenants = [];
  access_keys = key_row ∷ [];
  stores = record disk { allowed_origins = bytes "https://a" ∷ [] } ∷ [];
  bucket_mappings = scoped ∷ [];
  multipart_uploads = upload ∷ [];
  now = 9;
  faults = faults;
}

abbrev pub world : List Bool → World Db Keys
world faults = record { mgr = database faults; pool = []; upstream = [] }

abbrev pub request : Str → Request
request path = record {
  verb = bytes "GET";
  path = path;
  host = bytes "h";
  tls = false;
  query = (bytes "uploadId", bytes "u1") ∷ ((bytes "partNumber", bytes "7") ∷ []);
  headers =
      (bytes "Origin", bytes "https://a")
      ∷ ((bytes "X-Amz-Date", bytes "20260101T000000Z")
          ∷ ((
            bytes "Authorization",
            bytes
                "AWS4-HMAC-SHA256 Credential=AK/20260101/r/s3/aws4_request, SignedHeaders=host, Signature=73",
          )
              ∷ []));
  content_length = pos 0;
  body = [];
  tenant = 1;
  fresh = record { request_id = bytes "id"; upload_id = bytes "u2"; row_id = 41 };
}

abbrev no_parts : Str → Option (List CompletedPart)
no_parts body = some []

abbrev bucket_row : ResolvedBucket
bucket_row =
    resolved (bytes "photos") scoped (record disk { allowed_origins = bytes "https://a" ∷ [] })

cors_options-IsAdmitted_example :
    (os : List Str) × ((gateway.manager.get_bucket_allowed_origins (bytes "photos") (database [])).0
      ≡ ok os)
    × IsAdmitted (bytes "https://a") os
unfolding cors_options postgres_manager storage_gateway.Registry.Postgres.get_bucket_allowed_origins
    storage_gateway.Registry.Db.find_bucket str_eq bucket_and_key storage_gateway.Prelude.cut_byte
    storage_gateway.Prelude.trim_prefix storage_gateway.Prelude.find
    storage_gateway.S3.Handler.origin_allowed storage_gateway.Prelude.any get_value
cors_options-IsAdmitted_example =
    cors_options-IsAdmitted gateway (request (bytes "/photos")) (world []) _ refl

abbrev pub digests : Digests
digests = record { hmac_sha256 = λ key s. bytes "s"; sha256 = λ s. bytes "h" }

abbrev pub outside : Outside
outside = record {
  decrypt = λ sealed. some sealed;
  parse_time = λ s. none;
  now = pos 0;
  digests = digests;
}

authenticate-Admitted_example :
    Admitted gateway outside (request (bytes "/photos/a")) (world []) key_row
unfolding authenticate storage_gateway.S3.Auth.parse_auth get_value storage_gateway.Prelude.find
    str_eq storage_gateway.S3.Auth.parse_header_auth has_prefix storage_gateway.S3.Auth.part_value
    storage_gateway.S3.Signature.split storage_gateway.Prelude.cut_byte
    storage_gateway.S3.Auth.credential_of postgres_manager
    storage_gateway.Registry.Postgres.lookup_access_key storage_gateway.Registry.Db.active_key
    storage_gateway.S3.Signature.compute_signature storage_gateway.S3.Signature.hex
authenticate-Admitted_example =
    authenticate-Admitted gateway outside (request (bytes "/photos/a")) (world []) key_row refl

abbrev anonymous : Request
anonymous = record (request (bytes "/photos/a")) { headers = [] }

auth_middleware-refused_example :
    auth_middleware gateway outside (get_object gateway) anonymous (world [])
    ≡ (err (write_s3_error anonymous 403 (bytes "InvalidSecurity")), world [])
unfolding authenticate storage_gateway.S3.Auth.parse_auth get_value storage_gateway.Prelude.find
    str_eq storage_gateway.S3.Auth.parse_header_auth has_prefix
auth_middleware-refused_example =
    auth_middleware-refused gateway outside anonymous (get_object gateway) (world []) (world [])
      (write_s3_error anonymous 403 (bytes "InvalidSecurity")) refl

get-invalidate_example :
    ((get providers bucket_row (invalidate 20 ((20, memory) ∷ []))).0 ≡ ok memory)
    × (get providers bucket_row (get providers bucket_row (invalidate 20 ((20, memory) ∷ []))).1
        ≡ (ok memory, (get providers bucket_row (invalidate 20 ((20, memory) ∷ []))).1))
unfolding build storage_gateway.Backend.Pool.new_backend
get-invalidate_example =
    get-invalidate providers bucket_row bucket_row ((20, memory) ∷ []) memory refl refl

abbrev old_row : ResolvedBucket
old_row = record bucket_row { backend_config_enc = bytes "old" }

-- One backend is the configuration that it was made of.
abbrev by_config : Providers Str
by_config = record {
  decrypt = λ sealed. some sealed;
  open_s3 = λ config. none;
  open_gcs = λ config. none;
  open_azure = λ config. none;
  open_local = λ config. some config;
}

abbrev IsTeams : Keys → Type 0
IsTeams s = All (λ k. has_prefix k (bucket_row.backend_prefix ++ b'/' ∷ []) ≡ true) s

memory-IsConfined : IsConfined IsTeams bucket_row memory
unfolding storage_gateway.Registry.parse_backend_bucket storage_gateway.Prelude.cut_byte
memory-IsConfined = record {
  scoped = refl;
  head_keeps = λ i s c h. h;
  get_keeps = λ i s c h. h;
  put_keeps = λ i s c h. (c.1, h);
  delete_keeps = λ i s c h. h;
  presign_keeps = λ i s c h. h;
}

same_target :
    (rb : ResolvedBucket) (be : Backend Keys)
    → ◌≡◌ {A = Result Response (ResolvedBucket × Backend Keys)}
        (ok (bucket_row, memory))
        (ok (rb, be))
    → ◌≡◌ {A = ResolvedBucket × Backend Keys} (bucket_row, memory) (rb, be)
same_target rb be h = cc

photos-IsConfined :
    (rb : ResolvedBucket) (be : Backend Keys)
    → (resolve_bucket gateway (request (bytes "/photos/a")) (bytes "photos") (world [])).0
      ≡ ok (rb, be)
    → IsConfined IsTeams rb be
unfolding resolve_bucket postgres_manager storage_gateway.Registry.Postgres.resolve_bucket
    storage_gateway.Registry.Postgres.check_tenant storage_gateway.Registry.Db.find_bucket str_eq
    storage_gateway.Prelude.find get storage_gateway.Backend.Pool.lookup build
    storage_gateway.Backend.Pool.new_backend publish
photos-IsConfined rb be h =
    subst (λ t. IsConfined IsTeams t.0 t.1) (same_target rb be h) memory-IsConfined

object_requests-confined_example :
    IsTeams (get_object gateway (request (bytes "/photos/a")) (world [])).1.upstream
    × IsTeams (do_put_object gateway (request (bytes "/photos/a")) (world [])).1.upstream
    × IsTeams (do_delete_object gateway (request (bytes "/photos/a")) (world [])).1.upstream
unfolding bucket_and_key storage_gateway.Prelude.cut_byte storage_gateway.Prelude.trim_prefix
object_requests-confined_example =
    object_requests-confined IsTeams gateway (request (bytes "/photos/a")) (world [])
      photos-IsConfined tt

abbrev again : Request
again = record (request (bytes "/photos/a")) { query = (bytes "uploadId", bytes "u2") ∷ [] }

abbrev created : World Db Keys
created = (track gateway (request (bytes "/photos/a")) bucket_row memory (bytes "up") (world [])).1

-- Meanwhile another upload was recorded, and the record of a third one deleted.
abbrev others : List UploadStep
others =
    new_upload (record upload { id = 42; gateway_upload_id = bytes "u3" })
    ∷ (deleted (bytes "u1") ∷ [])

abbrev since : World Db Keys
since = record created { mgr = run_uploads others created.mgr; upstream = [] }
