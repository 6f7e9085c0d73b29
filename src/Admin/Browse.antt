-- ===== src/Admin/Browse.antt =====
-- internal/api/admin/browse.go: the handlers that look into a mapped bucket.
pub mod Sizes
use storage_gateway.Prelude.{
  ℕ, zero, suc, ◌+◌, ◌-◌, ◌*◌, ◌/◌, ◌%◌, ◌^◌, ◌≤◌, ◌<◌, ◌≡◌, refl, sym, ap, ◌∙◌, fun_ext, ◌≢◌, ◌↔◌,
  ◌⊎◌, inl, inr, Bool, true, false, ◌&&◌, ◌||◌, not, Option, none, some, List, [], ◌∷◌, ◌++◌, map,
  append_assoc, append-nil, arith, ltb, leb, ◌==◌, if◌then◌else◌, Bool-cases, Option-cases, ltb→lt,
  lt→ltb, leb→le, Str, bytes, str_eq, str_eq_iff, str_eq_refl, is_empty, sort_strings, mem_str,
  str_leb, has_prefix, trim_prefix, cut_byte, IsFree, All, filter, find, any, length, take, drop,
  length-append, length-drop, take-append, drop-append, Result, ok, err, ok_injective, err-ne-ok,
  continue_ok, Exec, pure, raise, lift, continue, ◌>>=◌, ◌>>◌,
}
use storage_gateway.Prelude.Int.{ℤ, pos, negsuc, pos_part, ltb_ℤ, wrap64, ◌+ℤ◌}
use storage_gateway.Strconv.{parse_int}
use storage_gateway.Registry.{
  Store, BucketMapping, ResolvedBucket, parse_backend_bucket, prefix_key, strip_prefix,
}
use storage_gateway.Backend
use storage_gateway.Backend.{
  Backend, ListObjectsInput, ListObjectsOutput, ObjectInfo, HeadObjectOutput, is_not_found,
}
use storage_gateway.Backend.Pool
use storage_gateway.S3.Handler.{World, get_value, has_value}
use storage_gateway.Admin.{
  Request, Response, BrowseObject, BrowseListResponse, BrowseMetadata, Frame, progress, done,
  failed, unfinished, listing_body, metadata_body, url_body, events_body, write_json, write_error,
}
use storage_gateway.Admin.Access.{
  Api, Handler, or_respond, ask, call, guard, read_body, uuid_param, verify_store_ownership,
}

unfoldable pub resolved : Store → BucketMapping → ResolvedBucket
resolved s bm = record {
  store_id = s.id;
  tenant_id = s.tenant_id;
  backend_type = s.backend_type;
  backend_config_enc = s.backend_config_enc;
  gateway_bucket = bm.gateway_bucket;
  backend_bucket = (parse_backend_bucket bm.backend_bucket).0;
  backend_prefix = (parse_backend_bucket bm.backend_bucket).1;
  presigned_mode = s.presigned_mode;
  allowed_origins = s.allowed_origins;
}

abbrev pub upstream_failure : Backend.Error → Response
upstream_failure e = write_error 502 (bytes "upstream storage error")

unfoldable pub quote_etag : Str → Str
quote_etag [] = []
quote_etag (x ∷ s) = if x == b'"' then x ∷ s else b'"' ∷ x ∷ s ++ b'"' ∷ []

-- The default stands only where the query has no delimiter.
abbrev delimiter_of : Request → Str
delimiter_of r =
    if has_value (bytes "delimiter") r.query
    then get_value (bytes "delimiter") r.query
    else b'/' ∷ []

abbrev pub page_size : Option ℤ → Option ℕ
page_size (some (pos n)) = if leb 1 n && leb n 1000 then some n else none
page_size _ = none

-- none is an error of the request.
unfoldable pub max_keys : Request → Option ℕ
max_keys r =
    let v = get_value (bytes "max_keys") r.query in
    if is_empty v then some 100 else page_size (parse_int 10 (2 ^ 31) v)

unfoldable pub list_input : Request → ResolvedBucket → ℕ → ListObjectsInput
list_input r rb n = record {
  bucket = rb.backend_bucket;
  prefix = prefix_key rb (get_value (bytes "prefix") r.query);
  delimiter = delimiter_of r;
  max_keys = pos n;
  start_after = [];
  continuation_token = get_value (bytes "continuation_token") r.query;
}

abbrev pub browse_object : ResolvedBucket → ObjectInfo → BrowseObject
browse_object rb o = record {
  key = strip_prefix rb o.key;
  size = o.size;
  last_modified = o.last_modified;
  etag = quote_etag o.etag;
  storage_class = if is_empty o.storage_class then bytes "STANDARD" else o.storage_class;
}

unfoldable pub list_response : Request → ResolvedBucket → ℕ → ListObjectsOutput → BrowseListResponse
list_response r rb n out = record {
  prefix = get_value (bytes "prefix") r.query;
  delimiter = delimiter_of r;
  max_keys = n;
  key_count = length out.contents + length out.common_prefixes;
  is_truncated = out.is_truncated;
  next_continuation_token =
      if out.is_truncated && not (is_empty out.next_continuation_token)
      then some out.next_continuation_token
      else none;
  objects = map (browse_object rb) out.contents;
  common_prefixes = map (strip_prefix rb) out.common_prefixes;
}

abbrev head_failure : Backend.Error → Response
head_failure e =
    if is_not_found e then write_error 404 (bytes "object not found") else upstream_failure e

unfoldable pub metadata_response : Str → HeadObjectOutput → BrowseMetadata
metadata_response key out = record {
  key = key;
  size = out.content_length;
  last_modified = out.last_modified;
  etag = quote_etag out.etag;
  content_type = out.content_type;
  storage_class = [];
  user_metadata = out.metadata;
}

abbrev pub presign_default_ttl : ℕ
presign_default_ttl = 3600

abbrev pub presign_max_ttl : ℕ
presign_max_ttl = 7 * 86400

abbrev pub expires_of : ℤ → ℤ
expires_of (pos zero) = pos presign_default_ttl
expires_of n = n

-- One page of the size stream after the totals of the pages before it.
unfoldable pub tally : ℤ → ℤ → List ObjectInfo → ℤ × ℤ
tally scanned total [] = (scanned, total)
tally scanned total (o ∷ os) = tally (wrap64 (scanned +ℤ pos 1)) (wrap64 (total +ℤ pos o.size)) os

module _ {S : Type 0} where
  -- The body of the loop, given what the rounds after it show.
  unfoldable pub scan_page :
      (Str → ℤ → ℤ → S → List Frame × S)
      → ℤ
      → ℤ
      → Result Backend.Error ListObjectsOutput × S
      → List Frame × S
  scan_page rest scanned total (err e, s) = (failed ∷ [], s)
  scan_page rest scanned total (ok out, s) =
      let (c, b) = tally scanned total out.contents in
      let later = rest out.next_continuation_token c b s in
      if out.is_truncated
      then (progress c b ∷ later.0, later.1)
      else (progress c b ∷ done c b ∷ [], s)

  module _ (be : Backend S) where
    -- The loop over the pages, for a number of rounds.
    unfoldable pub scan : ℕ → ListObjectsInput → ℤ → ℤ → S → List Frame × S
    scan zero i scanned total s = (unfinished ∷ [], s)
    scan (suc n) i scanned total s =
        scan_page (λ token. scan n (record i { continuation_token = token })) scanned total
          (be.list_objects i s)

unfoldable pub size_input : Request → ResolvedBucket → ListObjectsInput
size_input r rb = record {
  bucket = rb.backend_bucket;
  prefix = prefix_key rb (get_value (bytes "prefix") r.query);
  delimiter = [];
  max_keys = pos 1000;
  start_after = [];
  continuation_token = [];
}

unfoldable pub event_stream : List Frame → Response
event_stream frames = record {
  status = 200;
  headers =
      (bytes "Content-Type", bytes "text/event-stream")
      ∷ (bytes "Cache-Control", bytes "no-cache")
      ∷ (bytes "Connection", bytes "keep-alive")
      ∷ (bytes "X-Accel-Buffering", bytes "no")
      ∷ [];
  body = events_body frames;
}

module _ {M S : Type 0} (api : Api M S) where
  abbrev pub take_backend : ResolvedBucket → Handler M S (Backend S)
  take_backend rb w = (
    or_respond (λ e. write_error 500 (bytes "failed to initialise backend"))
        (Pool.get api.providers rb w.pool).0,
    record w { pool = (Pool.get api.providers rb w.pool).1 },
  )

  unfoldable pub resolve_browse_context : Request → Handler M S (ResolvedBucket × Backend S)
  resolve_browse_context r = do
    s ← verify_store_ownership api r
    id ← uuid_param api r (bytes "mappingID") (bytes "mapping_id")
    bm ← ask (api.manager.get_bucket_mapping id s.id)
    be ← take_backend (resolved s bm)
    pure (resolved s bm, be)

  abbrev page_or_400 : Option ℕ → Handler M S ℕ
  page_or_400 (some n) w = (ok n, w)
  page_or_400 none w =
      (err (write_error 400 (bytes "max_keys must be an integer between 1 and 1000")), w)

  unfoldable pub browse_objects : Request → Handler M S Response
  browse_objects r = do
    target ← resolve_browse_context r
    n ← page_or_400 (max_keys r)
    out ← call upstream_failure (target.1.list_objects (list_input r target.0 n))
    pure (write_json 200 (listing_body (list_response r target.0 n out)))

  unfoldable pub browse_metadata : Request → Handler M S Response
  browse_metadata r = do
    target ← resolve_browse_context r
    guard (not (is_empty (get_value (bytes "key") r.query))) 400 (bytes "key is required")
    out ← call head_failure (
        target.1.head_object (record {
          bucket = target.0.backend_bucket;
          key = prefix_key target.0 (get_value (bytes "key") r.query);
        }))
    pure (write_json 200 (metadata_body (metadata_response (get_value (bytes "key") r.query) out)))

  unfoldable pub browse_presign : Request → Handler M S Response
  browse_presign r = do
    target ← resolve_browse_context r
    req ← read_body (api.json.presign r.body)
    guard (not (is_empty req.0)) 400 (bytes "key is required")
    guard (not (ltb_ℤ (expires_of req.1) (pos 1) || ltb_ℤ (pos presign_max_ttl) (expires_of req.1)))
        400 (bytes "expires_in must be between 1 and 604800 seconds")
    url ←
        call (λ e. write_error 400 (bytes "presigned URLs are not supported by this backend"))
          (target.1.presign_url (record {
            bucket = target.0.backend_bucket;
            key = prefix_key target.0 req.0;
            method = bytes "GET";
            expires = pos_part (expires_of req.1);
          }))
    pure (write_json 200 (url_body url (r.fresh.now + pos_part (expires_of req.1))))

  abbrev pub stream_sizes : ℕ → Request → ResolvedBucket → Backend S → Handler M S Response
  stream_sizes rounds r rb be w =
      let (frames, s) = scan be rounds (size_input r rb) (pos 0) (pos 0) w.upstream in
      (ok (event_stream frames), record w { upstream = s })

  unfoldable pub browse_size_stream : ℕ → Request → Handler M S Response
  browse_size_stream rounds r = do
    target ← resolve_browse_context r
    stream_sizes rounds r target.0 target.1
