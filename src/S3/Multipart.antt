-- ===== src/S3/Multipart.antt =====
-- internal/api/s3/multipart.go: the handlers of multipart uploads. The decoding of the XML body is a
-- parameter; its parts carry the ETags as the client wrote them.
pub mod Tracking
pub mod RoundTrip
use storage_gateway.Prelude.{
  ℕ, ◌≡◌, Bool, true, false, ◌&&◌, ◌||◌, not, Option, none, some, List, [], ◌∷◌, ◌++◌, Str, bytes,
  str_eq, is_empty, has_prefix, map, drop, length, leb, if◌then◌else◌, Result, ok, err, Exec, pure,
  raise, ◌>>=◌, ◌>>◌, ◌==◌, ◌+◌, ◌^◌,
}
use storage_gateway.Prelude.Int.{ℤ, pos, negsuc}
use storage_gateway.Strconv.{parse_int}
use storage_gateway.Registry.{
  ResolvedBucket, MultipartUpload, Error, multipart_not_found, prefix_key,
}
use storage_gateway.Backend
use storage_gateway.Backend.{Backend, Body, plain, chunked, CompletedPart, Metadata}
use storage_gateway.S3.Chunked.{trim_left, trim_right}
use storage_gateway.S3.Handler.{
  Manager, Request, Response, Field, text, Content, initiated, completed, empty, World, Gateway,
  get_value, has_value, bucket_and_key, with_id, write_s3_error, write_s3_xml, header_if,
  backend_err, ask, call, ask_anyway, call_anyway, guard, resolve_bucket, internal_error,
  or_respond,
}

abbrev lower : ℕ → ℕ
lower c = if leb b'A' c && leb c b'Z' then c + 32 else c

unfoldable pub to_lower : Str → Str
to_lower s = map lower s

-- strings.EqualFold on ASCII.
unfoldable pub equal_fold : Str → Str → Bool
unfolding to_lower
equal_fold s t = str_eq (to_lower s) (to_lower t)

abbrev meta_prefix : Str
meta_prefix = bytes "x-amz-meta-"

-- extractMetadata: the map in the order of the headers.
unfoldable pub extract_metadata : List (Str × Str) → Metadata
unfolding to_lower
extract_metadata [] = []
extract_metadata ((k, v) ∷ hs) =
    let rest = extract_metadata hs in
    if has_prefix (to_lower k) meta_prefix
    then (drop (length meta_prefix) (to_lower k), v) ∷ rest
    else rest

abbrev pub content_type_of : Request → Str
content_type_of r =
    let ct = get_value (bytes "Content-Type") r.headers in
    if is_empty ct then bytes "application/octet-stream" else ct

unfoldable pub is_chunked : Request → Bool
unfolding equal_fold
is_chunked r = equal_fold (get_value (bytes "Content-Encoding") r.headers) (bytes "aws-chunked")

abbrev size_or : ℤ → Option ℤ → ℤ
size_or n none = n
size_or n (some m) = m

-- The body and its size, with the framing taken off where there is one.
unfoldable pub body_of : Request → Body
body_of r = if is_chunked r then chunked r.body else plain r.body

unfoldable pub size_of : Request → ℤ
size_of r =
    if is_chunked r
    then size_or r.content_length
        (parse_int 10 (2 ^ 63) (get_value (bytes "X-Amz-Decoded-Content-Length") r.headers))
    else r.content_length

abbrev pub quoted : Str → Str
quoted s = b'"' ∷ (s ++ (b'"' ∷ []))

abbrev is_quote : ℕ → Bool
is_quote c = c == b'"'

-- strings.Trim(etag, `"`)
unfoldable pub trim_quotes : Str → Str
trim_quotes s = trim_right is_quote (trim_left is_quote s)

abbrev pub trimmed_part : CompletedPart → CompletedPart
trimmed_part p = record p { etag = trim_quotes p.etag }

abbrev in_range : Option ℤ → Option ℕ
in_range (some (pos n)) = if leb 1 n && leb n 10000 then some n else none
in_range _ = none

-- A part number from 1 to 10000.
unfoldable pub part_number : Request → Option ℕ
part_number r = in_range (parse_int 10 (2 ^ 31) (get_value (bytes "partNumber") r.query))

abbrev pub no_such_upload : Request → Response
no_such_upload r = write_s3_error r 404 (bytes "NoSuchUpload")

unfoldable pub upload_err : Request → Error → Response
upload_err r multipart_not_found = no_such_upload r
upload_err r _ = internal_error r

unfoldable pub matches : Request → MultipartUpload → Bool
matches r mu =
    str_eq mu.gateway_bucket (bucket_and_key r).0 && str_eq mu.object_key (bucket_and_key r).1

abbrev pub upload_id_of : Request → Str
upload_id_of r = get_value (bytes "uploadId") r.query

module _ {M S : Type 0} (gw : Gateway M S) where
  abbrev recorded :
      Request
      → ResolvedBucket
      → Backend S
      → Str
      → Result Error (Unit {0})
      → Exec (World M S) Response Response
  recorded r rb be id (ok _) =
      pure
        (write_s3_xml r 200 (initiated (bucket_and_key r).0 (bucket_and_key r).1 r.fresh.upload_id))
  recorded r rb be id (err _) =
      call_anyway (
        be.abort_multipart_upload (record {
          bucket = rb.backend_bucket;
          key = prefix_key rb (bucket_and_key r).1;
          upload_id = id;
        }))
      >> raise (internal_error r)

  abbrev pub record_of : Request → ResolvedBucket → Str → MultipartUpload
  record_of r rb id = record {
    id = r.fresh.row_id;
    store_id = rb.store_id;
    gateway_upload_id = r.fresh.upload_id;
    backend_upload_id = id;
    gateway_bucket = (bucket_and_key r).0;
    backend_bucket = rb.backend_bucket;
    object_key = (bucket_and_key r).1;
    created_at = 0;
  }

  -- The record of the upload, or the abort of what cannot be recorded.
  unfoldable pub track :
      Request → ResolvedBucket → Backend S → Str → Exec (World M S) Response Response
  track r rb be id w =
      let (res, m) = gw.manager.create_multipart_upload (record_of r rb id) w.mgr in
      recorded r rb be id res (record w { mgr = m })

  unfoldable pub create_multipart_upload : Request → Exec (World M S) Response Response
  create_multipart_upload r = do
    guard (not (is_empty (bucket_and_key r).1)) (write_s3_error r 400 (bytes "InvalidArgument"))
    target ← resolve_bucket gw r (bucket_and_key r).0
    id ← call (backend_err r) (
        target.1.create_multipart_upload (record {
          bucket = target.0.backend_bucket;
          key = prefix_key target.0 (bucket_and_key r).1;
          content_type = content_type_of r;
          metadata = extract_metadata r.headers;
        }))
    track r target.0 target.1 id

  -- The recorded upload that the request names, if its bucket and key are the request's.
  unfoldable pub tracked_upload : Request → Exec (World M S) Response MultipartUpload
  tracked_upload r = do
    mu ← ask (upload_err r) (gw.manager.get_multipart_upload (upload_id_of r))
    guard (matches r mu) (no_such_upload r)
    pure mu

  abbrev uploaded : Request → Str → Response
  uploaded r etag = record {
    status = 200;
    headers = header_if (not (is_empty etag)) (bytes "ETag") (text (quoted etag)) ++ with_id r;
    content = empty;
  }

  abbrev upload_numbered : Request → Option ℕ → Exec (World M S) Response Response
  upload_numbered r none = raise (write_s3_error r 400 (bytes "InvalidArgument"))
  upload_numbered r (some n) = do
    mu ← tracked_upload r
    target ← resolve_bucket gw r (bucket_and_key r).0
    etag ← call (backend_err r) (
        target.1.upload_part (record {
          bucket = target.0.backend_bucket;
          key = prefix_key target.0 (bucket_and_key r).1;
          upload_id = mu.backend_upload_id;
          part_number = pos n;
          body = body_of r;
          size = size_of r;
        }))
    pure (uploaded r etag)

  unfoldable pub upload_part : Request → Exec (World M S) Response Response
  upload_part r = upload_numbered r (part_number r)

  abbrev location : Request → Str
  location r =
      (if r.tls then bytes "https" else bytes "http") ++ (bytes "://" ++ (r.host ++ r.path))

  abbrev complete_decoded :
      Request
      → MultipartUpload
      → ResolvedBucket
      → Backend S
      → Option (List CompletedPart)
      → Exec (World M S) Response Response
  complete_decoded r mu rb be none = raise (write_s3_error r 400 (bytes "MalformedXML"))
  complete_decoded r mu rb be (some parts) = do
    etag ← call (backend_err r) (
        be.complete_multipart_upload (record {
          bucket = rb.backend_bucket;
          key = prefix_key rb (bucket_and_key r).1;
          upload_id = mu.backend_upload_id;
          parts = map trimmed_part parts;
        }))
    ask_anyway (gw.manager.delete_multipart_upload (upload_id_of r))
    pure (
        write_s3_xml r 200
          (completed (location r) (bucket_and_key r).0 (bucket_and_key r).1 (quoted etag)))

  unfoldable pub complete_multipart_upload :
      (Str → Option (List CompletedPart)) → Request → Exec (World M S) Response Response
  complete_multipart_upload decode r = do
    mu ← tracked_upload r
    target ← resolve_bucket gw r (bucket_and_key r).0
    complete_decoded r mu target.0 target.1 (decode r.body)

  unfoldable pub abort_multipart_upload : Request → Exec (World M S) Response Response
  abort_multipart_upload r = do
    mu ← tracked_upload r
    target ← resolve_bucket gw r (bucket_and_key r).0
    call_anyway (
        target.1.abort_multipart_upload (record {
          bucket = target.0.backend_bucket;
          key = prefix_key target.0 (bucket_and_key r).1;
          upload_id = mu.backend_upload_id;
        }))
    ask_anyway (gw.manager.delete_multipart_upload (upload_id_of r))
    pure (record { status = 204; headers = with_id r; content = empty })

  unfoldable pub post_on_key :
      (Str → Option (List CompletedPart)) → Request → Exec (World M S) Response Response
  post_on_key decode r =
      if has_value (bytes "uploads") r.query
      then create_multipart_upload r
      else if is_empty (upload_id_of r)
      then raise (write_s3_error r 405 (bytes "MethodNotAllowed"))
      else complete_multipart_upload decode r
