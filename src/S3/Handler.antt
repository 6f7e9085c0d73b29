-- ===== src/S3/Handler.antt =====
-- internal/api/s3/handler.go and the writers of xml.go: requests, responses and what the handlers
-- share. A handler runs over the registry manager, the pool and the upstreams; a response that ends it
-- early is raised. A response's texts for people are left out.
pub mod Cors
pub mod Managers
use storage_gateway.Prelude.{
  ℕ, ◌≡◌, Bool, true, false, ◌&&◌, ◌||◌, not, Option, none, some, List, [], ◌∷◌, ◌++◌, Str, bytes,
  str_eq, is_empty, cut_byte, trim_prefix, any, find, if◌then◌else◌, Result, ok, err, Exec, pure,
  raise, ◌>>=◌, ◌>>◌,
}
use storage_gateway.Prelude.Int.{ℤ}
use storage_gateway.Registry.{
  ResolvedBucket, AccessKeyRow, GatewayBucket, MultipartUpload, Error, bucket_not_found,
  unauthorized,
}
use storage_gateway.Backend
use storage_gateway.Backend.{Backend, object_not_found, access_denied, unknown_size, invalid_range}
use storage_gateway.Backend.Pool.{Pool, PoolError, Providers}
use storage_gateway.Backend.Pool

-- registry.Manager, as far as the handlers call it.
pub record Manager (M : Type 0) : Type 0 where
  pub lookup_access_key : Str → Exec M Error AccessKeyRow
  pub resolve_bucket : ℕ → Str → Exec M Error ResolvedBucket
  pub get_bucket_allowed_origins : Str → Exec M Error (List Str)
  pub list_gateway_buckets : ℕ → Exec M Error (List GatewayBucket)
  pub create_multipart_upload : MultipartUpload → Exec M Error (Unit {0})
  pub get_multipart_upload : Str → Exec M Error MultipartUpload
  pub delete_multipart_upload : Str → Exec M Error (Unit {0})

-- What the random sources give while the request is served.
pub record Fresh : Type 0 where
  pub request_id : Str
  pub upload_id : Str
  pub row_id : ℕ

-- Names of headers are in the canonical form of net/http, with the first value of each.
pub record Request : Type 0 where
  pub verb : Str
  pub path : Str
  pub host : Str
  pub tls : Bool
  pub query : List (Str × Str)
  pub headers : List (Str × Str)
  pub content_length : ℤ
  pub body : Str
  pub tenant : ℕ
  pub fresh : Fresh

-- The value of a header: a text, or a time that is printed in the format of HTTP.
pub data Field : Type 0 where
  text : Str → Field
  http_time : ℕ → Field

-- The XML of a listing; a time of none is Go's zero time.
pub record ListedObject : Type 0 where
  pub key : Str
  pub last_modified : Option ℕ
  pub etag : Str
  pub size : ℕ
  pub storage_class : Str

pub record ListBucketResult : Type 0 where
  pub name : Str
  pub prefix : Str
  pub delimiter : Str
  pub max_keys : ℕ
  pub key_count : ℕ
  pub is_truncated : Bool
  pub continuation_token : Str
  pub start_after : Str
  pub next_continuation_token : Str
  pub contents : List ListedObject
  pub common_prefixes : List Str

-- What follows the headers: nothing, an object's bytes, or the XML of a result.
pub data Content : Type 0 where
  empty : Content
  error_code : Str → Content
  object : Str → Content
  moved_to : Str → Content
  buckets : ℕ → List GatewayBucket → Content
  initiated : Str → Str → Str → Content
  completed : Str → Str → Str → Str → Content
  deleted : List Str → List Backend.DeleteError → Content
  listing : ListBucketResult → Content

pub record Response : Type 0 where
  pub status : ℕ
  pub headers : List (Str × Field)
  pub content : Content

abbrev pub value_of : Option (Str × Str) → Str
value_of none = []
value_of (some (name, v)) = v

-- Header.Get and Values.Get: the empty text where there is none.
unfoldable pub get_value : Str → List (Str × Str) → Str
get_value name vs = value_of (find (λ (v : Str × Str). str_eq v.0 name) vs)

unfoldable pub has_value : Str → List (Str × Str) → Bool
has_value name vs = any (λ (v : Str × Str). str_eq v.0 name) vs

abbrev split_path : Str → Option (Str × Str) → Str × Str
split_path p none = (p, [])
split_path p (some parts) = parts

unfoldable pub bucket_and_key : Request → Str × Str
bucket_and_key r = let p = trim_prefix r.path (b'/' ∷ []) in split_path p (cut_byte b'/' p)

abbrev pub with_id : Request → List (Str × Field)
with_id r = (bytes "x-amz-request-id", text r.fresh.request_id) ∷ []

unfoldable pub write_s3_xml : Request → ℕ → Content → Response
write_s3_xml r status content = record {
  status = status;
  headers = (bytes "Content-Type", text (bytes "application/xml")) ∷ with_id r;
  content = content;
}

unfoldable pub write_s3_error : Request → ℕ → Str → Response
write_s3_error r status code = write_s3_xml r status (error_code code)

-- w.WriteHeader with nothing else.
abbrev pub bare_status : ℕ → Response
bare_status status = record { status = status; headers = []; content = empty }

abbrev pub header_if : Bool → Str → Field → List (Str × Field)
header_if b name v = if b then (name, v) ∷ [] else []

unfoldable pub origin_allowed : Str → List Str → Bool
origin_allowed origin origins = any (λ ao. str_eq ao (b'*' ∷ []) || str_eq ao origin) origins

-- The headers that setCORSHeaders adds.
unfoldable pub cors_headers : Request → List Str → List (Str × Field)
cors_headers r origins =
    let origin = get_value (bytes "Origin") r.headers in
    if is_empty origins || is_empty origin || not (origin_allowed origin origins)
    then []
    else if any (λ ao. str_eq ao (b'*' ∷ [])) origins
    then (bytes "Access-Control-Allow-Origin", text (b'*' ∷ [])) ∷ []
    else ((bytes "Access-Control-Allow-Origin", text origin)
        ∷ ((bytes "Vary", text (bytes "Origin")) ∷ []))

unfoldable pub backend_err : Request → Backend.Error → Response
backend_err r object_not_found = write_s3_error r 404 (bytes "NoSuchKey")
backend_err r Backend.bucket_not_found = write_s3_error r 404 (bytes "NoSuchBucket")
backend_err r access_denied = write_s3_error r 403 (bytes "AccessDenied")
backend_err r unknown_size = write_s3_error r 411 (bytes "MissingContentLength")
backend_err r invalid_range = write_s3_error r 416 (bytes "InvalidRange")
backend_err r _ = write_s3_error r 502 (bytes "InternalError")

unfoldable pub registry_err : Request → Error → Response
registry_err r bucket_not_found = write_s3_error r 404 (bytes "NoSuchBucket")
registry_err r unauthorized = write_s3_error r 403 (bytes "AccessDenied")
registry_err r _ = write_s3_error r 500 (bytes "InternalError")

abbrev pub internal_error : Request → Response
internal_error r = write_s3_error r 500 (bytes "InternalError")

-- `M` is the manager's state and `S` that of all upstreams.
pub record World (M S : Type 0) : Type 0 where
  pub mgr : M
  pub pool : Pool (Backend S)
  pub upstream : S

pub record Gateway (M S : Type 0) : Type 0 where
  pub manager : Manager M
  pub providers : Providers (Backend S)

-- A call whose error becomes a response.
abbrev pub or_respond : {E A : Type 0} → (E → Response) → Result E A → Result Response A
or_respond f (ok a) = ok a
or_respond f (err e) = err (f e)

module _ {M S : Type 0} where
  abbrev pub ask : {A : Type 0} → (Error → Response) → Exec M Error A → Exec (World M S) Response A
  ask f m w = (or_respond f (m w.mgr).0, record w { mgr = (m w.mgr).1 })

  abbrev pub call :
      {A : Type 0}
      → (Backend.Error → Response)
      → Exec S Backend.Error A
      → Exec (World M S) Response A
  call f m w = (or_respond f (m w.upstream).0, record w { upstream = (m w.upstream).1 })

  -- A call whose error is dropped.
  abbrev pub ask_anyway : {A : Type 0} → Exec M Error A → Exec (World M S) Response (Unit {0})
  ask_anyway m w = (ok tt, record w { mgr = (m w.mgr).1 })

  abbrev pub call_anyway :
      {A : Type 0} → Exec S Backend.Error A → Exec (World M S) Response (Unit {0})
  call_anyway m w = (ok tt, record w { upstream = (m w.upstream).1 })

  abbrev pub guard : Bool → Response → Exec (World M S) Response (Unit {0})
  guard true res w = (ok tt, w)
  guard false res w = (err res, w)

  module _ (gw : Gateway M S) where
    abbrev pub take_backend :
        (PoolError → Response) → ResolvedBucket → Exec (World M S) Response (Backend S)
    take_backend f rb w = (
      or_respond f (Pool.get gw.providers rb w.pool).0,
      record w { pool = (Pool.get gw.providers rb w.pool).1 },
    )

    -- resolveBucket: the bucket of the caller's tenant, with its backend.
    unfoldable pub resolve_bucket :
        Request → Str → Exec (World M S) Response (ResolvedBucket × Backend S)
    resolve_bucket r bucket = do
      rb ← ask (registry_err r) (gw.manager.resolve_bucket r.tenant bucket)
      be ← take_backend (λ _. internal_error r) rb
      pure (rb, be)

    abbrev preflight_headers : Str → List (Str × Field)
    preflight_headers origin =
        (bytes "Access-Control-Allow-Origin", text origin)
        ∷ ((bytes "Access-Control-Allow-Methods", text (bytes "GET, HEAD, PUT, DELETE, POST"))
            ∷ ((
              bytes "Access-Control-Allow-Headers",
              text (
                  bytes
                    "Content-Type, Authorization, x-amz-date, x-amz-content-sha256, x-amz-security-token, x-amz-decoded-content-length"),
            )
                ∷ ((bytes "Access-Control-Max-Age", text (bytes "3600"))
                    ∷ ((bytes "Vary", text (bytes "Origin")) ∷ []))))

    -- The response to a preflight request, given what the manager answered.
    abbrev pub answer_preflight :
        Request → Result Error (List Str) → Exec (World M S) Response Response
    answer_preflight r (err e) = raise (bare_status 403)
    answer_preflight r (ok origins) = do
      guard (not (is_empty origins)) (bare_status 403)
      guard (origin_allowed (get_value (bytes "Origin") r.headers) origins) (bare_status 403)
      pure (record {
        status = 204;
        headers = preflight_headers (get_value (bytes "Origin") r.headers);
        content = empty;
      })

    unfoldable pub cors_options : Request → Exec (World M S) Response Response
    cors_options r w =
        let (res, m) = gw.manager.get_bucket_allowed_origins (bucket_and_key r).0 w.mgr in
        answer_preflight r res (record w { mgr = m })
