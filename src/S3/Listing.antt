-- ===== src/S3/Listing.antt =====
-- internal/api/s3/buckets.go, listObjectsV2.
use storage_gateway.Prelude.{
  ℕ, ◌^◌, ◌&&◌, Option, some, [], Str, bytes, is_empty, map, leb, if◌then◌else◌, Exec, pure, ◌>>=◌,
}
use storage_gateway.Prelude.Int.{ℤ, pos}
use storage_gateway.Strconv.{parse_int}
use storage_gateway.Registry.{ResolvedBucket, prefix_key, strip_prefix}
use storage_gateway.Backend.{ListObjectsInput, ListObjectsOutput, ObjectInfo}
use storage_gateway.S3.Handler.{
  Request, Response, ListedObject, ListBucketResult, listing, World, Gateway, get_value,
  bucket_and_key, write_s3_xml, backend_err, call, resolve_bucket,
}
use storage_gateway.S3.Multipart.{quoted}

abbrev within : Option ℤ → ℕ
within (some (pos n)) = if leb 1 n && leb n 1000 then n else 1000
within _ = 1000

-- An empty max-keys does not parse either.
unfoldable pub max_keys : Request → ℕ
max_keys r = within (parse_int 10 (2 ^ 31) (get_value (bytes "max-keys") r.query))

unfoldable pub start_after : Request → ResolvedBucket → Str
start_after r rb =
    let sa = get_value (bytes "start-after") r.query in
    let m = get_value (bytes "marker") r.query in
    if is_empty sa then (if is_empty m then [] else prefix_key rb m) else prefix_key rb sa

unfoldable pub list_input : Request → ResolvedBucket → ListObjectsInput
list_input r rb = record {
  bucket = rb.backend_bucket;
  prefix = prefix_key rb (get_value (bytes "prefix") r.query);
  delimiter = get_value (bytes "delimiter") r.query;
  max_keys = pos (max_keys r);
  start_after = start_after r rb;
  continuation_token = get_value (bytes "continuation-token") r.query;
}

abbrev pub listed_object : ResolvedBucket → ObjectInfo → ListedObject
listed_object rb o = record {
  key = strip_prefix rb o.key;
  last_modified = o.last_modified;
  etag = quoted o.etag;
  size = o.size;
  storage_class = if is_empty o.storage_class then bytes "STANDARD" else o.storage_class;
}

unfoldable pub list_result : Request → ResolvedBucket → ListObjectsOutput → ListBucketResult
list_result r rb out = record {
  name = (bucket_and_key r).0;
  prefix = get_value (bytes "prefix") r.query;
  delimiter = get_value (bytes "delimiter") r.query;
  max_keys = max_keys r;
  key_count = out.key_count;
  is_truncated = out.is_truncated;
  continuation_token = get_value (bytes "continuation-token") r.query;
  start_after = get_value (bytes "start-after") r.query;
  next_continuation_token = if out.is_truncated then out.next_continuation_token else [];
  contents = map (listed_object rb) out.contents;
  common_prefixes = map (strip_prefix rb) out.common_prefixes;
}

module _ {M S : Type 0} (gw : Gateway M S) where
  unfoldable pub list_objects_v2 : Request → Exec (World M S) Response Response
  list_objects_v2 r = do
    target ← resolve_bucket gw r (bucket_and_key r).0
    out ← call (backend_err r) (target.1.list_objects (list_input r target.0))
    pure (write_s3_xml r 200 (listing (list_result r target.0 out)))
