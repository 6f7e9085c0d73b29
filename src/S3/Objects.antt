-- ===== src/S3/Objects.antt =====
-- internal/api/s3/objects.go and buckets.go: the handlers of objects and of buckets. The decoding of
-- the XML body is a parameter.
pub mod Isolation
use storage_gateway.Prelude.{
  ℕ, ◌≡◌, Bool, true, false, ◌&&◌, ◌||◌, not, Option, none, some, List, [], ◌∷◌, ◌++◌, Str, bytes,
  is_empty, map, leb, if◌then◌else◌, Result, ok, err, Exec, pure, raise, ◌>>=◌, ◌>>◌,
}
use storage_gateway.Prelude.Int.{ℤ, pos, negsuc, ltb_ℤ}
use storage_gateway.Strconv.{format_int}
use storage_gateway.Registry.{
  ResolvedBucket, Error, bucket_not_found, unauthorized, redirect, PresignedMode, prefix_key,
  strip_prefix,
}
use storage_gateway.Backend
use storage_gateway.Backend.{
  Backend, Metadata, Time, GetObjectOutput, HeadObjectOutput, DeleteError, DeleteObjectsOutput,
  is_not_found,
}
use storage_gateway.S3.Handler.{
  Manager, Request, Response, Field, text, http_time, Content, object, moved_to, buckets, deleted,
  empty, World, Gateway, get_value, has_value, bucket_and_key, with_id, write_s3_error,
  write_s3_xml, header_if, cors_headers, backend_err, bare_status, ask, call, take_backend, guard,
  resolve_bucket, internal_error,
}
use storage_gateway.S3.Multipart.{
  extract_metadata, content_type_of, body_of, size_of, quoted, upload_id_of, upload_part,
  abort_multipart_upload,
}

abbrev modified : Time → List (Str × Field)
modified none = []
modified (some t) = (bytes "Last-Modified", http_time t) ∷ []

abbrev metadata_headers : Metadata → List (Str × Field)
metadata_headers [] = []
metadata_headers ((k, v) ∷ ms) = (bytes "x-amz-meta-" ++ k, text v) ∷ metadata_headers ms

-- A header that is left out where its text is empty.
abbrev optional : Str → Str → List (Str × Field)
optional name v = header_if (not (is_empty v)) name (text v)

abbrev etag_header : Str → List (Str × Field)
etag_header etag = header_if (not (is_empty etag)) (bytes "ETag") (text (quoted etag))

abbrev accept_ranges : List (Str × Field)
accept_ranges = (bytes "Accept-Ranges", text (bytes "bytes")) ∷ []

unfoldable pub object_response : Request → ResolvedBucket → GetObjectOutput → Response
object_response r rb out = record {
  status = if is_empty out.content_range then 200 else 206;
  headers =
      cors_headers r rb.allowed_origins
      ++ (accept_ranges
          ++ (etag_header out.etag
              ++ (optional (bytes "Content-Type") out.content_type
                  ++ (header_if (not (ltb_ℤ out.content_length (pos 0))) (bytes "Content-Length")
                        (text (format_int out.content_length))
                      ++ (optional (bytes "Content-Range") out.content_range
                          ++ (modified out.last_modified
                              ++ (metadata_headers out.metadata ++ with_id r)))))));
  content = object out.body;
}

unfoldable pub head_response : Request → ResolvedBucket → HeadObjectOutput → Response
head_response r rb out = record {
  status = 200;
  headers =
      cors_headers r rb.allowed_origins
      ++ (accept_ranges
          ++ (etag_header out.etag
              ++ (optional (bytes "Content-Type") out.content_type
                  ++ ((bytes "Content-Length", text (format_int out.content_length))
                      ∷ (modified out.last_modified
                          ++ (metadata_headers out.metadata ++ with_id r))))));
  content = empty;
}

-- The statuses of headObject and headBucket for a bucket that is not resolved.
unfoldable pub head_object_err : Error → Response
head_object_err bucket_not_found = bare_status 404
head_object_err unauthorized = bare_status 404
head_object_err _ = bare_status 500

unfoldable pub head_bucket_err : Error → Response
head_bucket_err bucket_not_found = bare_status 404
head_bucket_err unauthorized = bare_status 403
head_bucket_err _ = bare_status 500

abbrev upstream_head_err : Backend.Error → Response
upstream_head_err e = if is_not_found e then bare_status 404 else bare_status 502

abbrev upstream_bucket_err : Backend.Error → Response
upstream_bucket_err Backend.bucket_not_found = bare_status 404
upstream_bucket_err _ = bare_status 502

abbrev pub redirects : PresignedMode → Bool
redirects redirect = true
redirects _ = false

abbrev strip_error : ResolvedBucket → DeleteError → DeleteError
strip_error rb e = record e { key = strip_prefix rb e.key }

abbrev pub invalid_argument : Request → Response
invalid_argument r = write_s3_error r 400 (bytes "InvalidArgument")

-- What the XML of a multi-object delete decodes to.
pub record DeleteRequest : Type 0 where
  pub quiet : Bool
  pub keys : List Str

-- The inputs of the backend's methods for the key of a request.
abbrev pub object_ref : Request → ResolvedBucket → Backend.ObjectRef
object_ref r rb = record { bucket = rb.backend_bucket; key = prefix_key rb (bucket_and_key r).1 }

abbrev pub presign_input : Request → ResolvedBucket → Backend.PresignInput
presign_input r rb = record {
  bucket = rb.backend_bucket;
  key = prefix_key rb (bucket_and_key r).1;
  method = bytes "GET";
  expires = 300;
}

abbrev pub get_input : Request → ResolvedBucket → Backend.GetObjectInput
get_input r rb = record {
  bucket = rb.backend_bucket;
  key = prefix_key rb (bucket_and_key r).1;
  range = get_value (bytes "Range") r.headers;
}

abbrev pub put_input : Request → ResolvedBucket → Backend.PutObjectInput
put_input r rb = record {
  bucket = rb.backend_bucket;
  key = prefix_key rb (bucket_and_key r).1;
  body = body_of r;
  size = size_of r;
  content_type = content_type_of r;
  metadata = extract_metadata r.headers;
}

abbrev pub redirect_response : Str → Response
redirect_response url = record {
  status = 307;
  headers = (bytes "Location", text url) ∷ [];
  content = moved_to url;
}

abbrev pub stored : Request → Str → Response
stored r etag = record { status = 200; headers = etag_header etag ++ with_id r; content = empty }

abbrev pub no_content : Request → Response
no_content r = record { status = 204; headers = with_id r; content = empty }

module _ {M S : Type 0} (gw : Gateway M S) where
  -- An upstream URL, good for five minutes.
  unfoldable pub redirect_object :
      Request → ResolvedBucket → Backend S → Exec (World M S) Response Response
  redirect_object r rb be = do
    url ← call (λ _. internal_error r) (be.presign_url (presign_input r rb))
    pure (redirect_response url)

  unfoldable pub proxy_object :
      Request → ResolvedBucket → Backend S → Exec (World M S) Response Response
  proxy_object r rb be = do
    out ← call (backend_err r) (be.get_object (get_input r rb))
    pure (object_response r rb out)

  abbrev pub fetch_object :
      Bool → Request → ResolvedBucket → Backend S → Exec (World M S) Response Response
  fetch_object true r rb be = redirect_object r rb be
  fetch_object false r rb be = proxy_object r rb be

  unfoldable pub get_object : Request → Exec (World M S) Response Response
  get_object r = do
    guard (not (is_empty (bucket_and_key r).1)) (invalid_argument r)
    target ← resolve_bucket gw r (bucket_and_key r).0
    fetch_object (redirects target.0.presigned_mode) r target.0 target.1

  unfoldable pub head_object : Request → Exec (World M S) Response Response
  head_object r = do
    guard (not (is_empty (bucket_and_key r).1)) (bare_status 400)
    rb ← ask head_object_err (gw.manager.resolve_bucket r.tenant (bucket_and_key r).0)
    be ← take_backend gw (λ _. bare_status 500) rb
    out ← call upstream_head_err (be.head_object (object_ref r rb))
    pure (head_response r rb out)

  unfoldable pub put_at : Request → ResolvedBucket → Backend S → Exec (World M S) Response Response
  put_at r rb be = do
    etag ← call (backend_err r) (be.put_object (put_input r rb))
    pure (stored r etag)

  unfoldable pub do_put_object : Request → Exec (World M S) Response Response
  do_put_object r = do
    guard (not (is_empty (bucket_and_key r).1)) (invalid_argument r)
    guard (is_empty (get_value (bytes "X-Amz-Copy-Source") r.headers))
        (write_s3_error r 501 (bytes "NotImplemented"))
    target ← resolve_bucket gw r (bucket_and_key r).0
    put_at r target.0 target.1

  unfoldable pub put_object : Request → Exec (World M S) Response Response
  put_object r = if is_empty (upload_id_of r) then do_put_object r else upload_part gw r

  unfoldable pub delete_at :
      Request → ResolvedBucket → Backend S → Exec (World M S) Response Response
  delete_at r rb be = do
    call (backend_err r) (be.delete_object (object_ref r rb))
    pure (no_content r)

  unfoldable pub do_delete_object : Request → Exec (World M S) Response Response
  do_delete_object r = do
    guard (not (is_empty (bucket_and_key r).1)) (invalid_argument r)
    target ← resolve_bucket gw r (bucket_and_key r).0
    delete_at r target.0 target.1

  unfoldable pub delete_object : Request → Exec (World M S) Response Response
  delete_object r =
      if is_empty (upload_id_of r) then do_delete_object r else abort_multipart_upload gw r

  abbrev delete_decoded :
      Request
      → ResolvedBucket
      → Backend S
      → Option DeleteRequest
      → Exec (World M S) Response Response
  delete_decoded r rb be none = raise (write_s3_error r 400 (bytes "MalformedXML"))
  delete_decoded r rb be (some req) = do
    out ← call (backend_err r) (
        be.delete_objects (record {
          bucket = rb.backend_bucket;
          objects = map (prefix_key rb) req.keys;
          quiet = req.quiet;
        }))
    pure (
        write_s3_xml r 200
          (deleted (map (strip_prefix rb) out.deleted) (map (strip_error rb) out.errors)))

  unfoldable pub delete_objects :
      (Str → Option DeleteRequest) → Request → Exec (World M S) Response Response
  delete_objects decode r = do
    target ← resolve_bucket gw r (bucket_and_key r).0
    delete_decoded r target.0 target.1 (decode r.body)

  unfoldable pub post_on_bucket :
      (Str → Option DeleteRequest) → Request → Exec (World M S) Response Response
  post_on_bucket decode r =
      if has_value (bytes "delete") r.query
      then delete_objects decode r
      else raise (write_s3_error r 405 (bytes "MethodNotAllowed"))

  unfoldable pub list_buckets : Request → Exec (World M S) Response Response
  list_buckets r = do
    bs ← ask (λ _. internal_error r) (gw.manager.list_gateway_buckets r.tenant)
    pure (write_s3_xml r 200 (buckets r.tenant bs))

  unfoldable pub head_bucket : Request → Exec (World M S) Response Response
  head_bucket r = do
    rb ← ask head_bucket_err (gw.manager.resolve_bucket r.tenant (bucket_and_key r).0)
    be ← take_backend gw (λ _. bare_status 500) rb
    call upstream_bucket_err (be.head_bucket rb.backend_bucket)
    pure (record { status = 200; headers = with_id r; content = empty })
