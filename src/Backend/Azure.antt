-- ===== src/Backend/Azure.antt =====
-- internal/backend/azure.go: the operations of azureBackend over the calls of package azblob, the
-- temporary file of a part, base64 and the signing of a URL, which are a parameter with its own state.
pub mod Blocks
use storage_gateway.Prelude.{
  map_err, ℕ, zero, suc, ◌+◌, ◌-◌, ◌*◌, ◌/◌, ◌%◌, ◌^◌, ◌≤◌, ◌<◌, ◌≡◌, refl, sym, ap, ◌∙◌, fun_ext,
  ◌≢◌, ◌↔◌, ◌⊎◌, inl, inr, Bool, true, false, ◌&&◌, ◌||◌, not, Option, none, some, List, [], ◌∷◌,
  ◌++◌, map, append_assoc, append-nil, arith, ltb, leb, ◌==◌, if◌then◌else◌, Bool-cases,
  Option-cases, ltb→lt, lt→ltb, leb→le, Str, bytes, str_eq, str_eq_iff, str_eq_refl, is_empty,
  sort_strings, mem_str, str_leb, has_prefix, trim_prefix, cut_byte, IsFree, All, filter, find, any,
  length, take, drop, length-append, length-drop, take-append, drop-append, Result, ok, err,
  ok_injective, err-ne-ok, continue_ok, Exec, pure, raise, lift, continue, ◌>>=◌, ◌>>◌,
}
use mathlib.Core.Path.{subst}
use storage_gateway.Prelude.Int.{ℤ, pos}
use storage_gateway.Strconv.{format_nat, format_5_int}
use storage_gateway.Backend.{
  page_size, Error, object_not_found, bucket_not_found, access_denied, invalid_range,
  upstream_error, Time, Metadata, Body, ObjectRef, HeadObjectOutput, GetObjectInput,
  GetObjectOutput, PutObjectInput, DeleteObjectsInput, DeleteError, DeleteObjectsOutput,
  ListObjectsInput, ListObjectsOutput, ObjectInfo, CreateMultipartUploadInput, UploadPartInput,
  CompletedPart, CompleteMultipartUploadInput, AbortMultipartUploadInput, PresignInput,
}
use storage_gateway.S3.Chunked.{trim_left, trim_right}
use storage_gateway.Backend.Range.{parse_azure_range, RangeError}

-- An azcore.ResponseError with its status and code, or any other error.
pub data AzureError : Type 0 where
  response : ℕ → Str → AzureError
  transport : AzureError

unfoldable pub map_azure_err : AzureError → Error
map_azure_err (response status code) =
    if status == 404
    then (if str_eq code (bytes "BlobNotFound") then object_not_found else bucket_not_found)
    else if status == 403
    then access_denied
    else if status == 416
    then invalid_range
    else upstream_error
map_azure_err transport = upstream_error

-- The pointers of a response: a nil one is `none`.
pub record Properties : Type 0 where
  pub name : Option Str
  pub content_length : Option ℕ
  pub content_type : Option Str
  pub content_range : Option Str
  pub etag : Option Str
  pub last_modified : Option Time
  pub metadata : List (Str × Option Str)

pub record Page : Type 0 where
  pub blobs : List Properties
  pub prefixes : List (Option Str)
  pub next_marker : Option Str

-- A listing asks for a hierarchy if a delimiter is given; a nil prefix or marker is `none`.
pub record Client (S : Type 0) : Type 0 where
  pub get_properties : Str → Str → Exec S AzureError Properties
  pub download : Str → Str → Option (ℤ × ℤ) → Exec S AzureError (Properties × Str)
  pub upload_stream : Str → Str → Option Str → Metadata → Body → Exec S AzureError (Option Str)
  pub delete_blob : Str → Str → Exec S AzureError (Unit {0})
  pub container_properties : Str → Exec S AzureError (Unit {0})
  pub list_flat : Str → Option Str → ℕ → Option Str → Exec S AzureError Page
  pub list_hierarchy : Str → Str → Option Str → ℕ → Option Str → Exec S AzureError Page
  pub buffer : Body → S → Option Str × S
  pub stage_block : Str → Str → Str → Str → Exec S AzureError (Unit {0})
  pub commit_block_list : Str → Str → List Str → Exec S AzureError (Option Str)
  pub unix_nano : S → ℕ × S
  pub base64 : Str → Str
  pub service_url : Str
  pub sign : PresignInput → Bool → S → Option Str × S
  pub message : AzureError → Str

abbrev pub mapped : {S A : Type 0} → Result AzureError A × S → Result Error A × S
mapped = map_err map_azure_err

abbrev deref_str : Option Str → Str
deref_str none = []
deref_str (some s) = s

abbrev deref_nat : Option ℕ → ℕ
deref_nat none = 0
deref_nat (some n) = n

abbrev deref_time : Option Time → Time
deref_time none = none
deref_time (some t) = t

abbrev str_ptr : Str → Option Str
str_ptr s = if is_empty s then none else some s

abbrev is_quote : ℕ → Bool
is_quote c = c == b'"'

-- strings.Trim(s, `"`)
unfoldable pub strip_quotes : Str → Str
strip_quotes s = trim_right is_quote (trim_left is_quote s)

abbrev pub deref_etag : Option Str → Str
deref_etag none = []
deref_etag (some s) = strip_quotes s

abbrev known_metadata : List (Str × Option Str) → Metadata
known_metadata [] = []
known_metadata ((k, none) ∷ m) = known_metadata m
known_metadata ((k, some v) ∷ m) = (k, v) ∷ known_metadata m

abbrev head_output : Properties → HeadObjectOutput
head_output p = record {
  content_length = pos (deref_nat p.content_length);
  content_type = deref_str p.content_type;
  etag = deref_etag p.etag;
  last_modified = deref_time p.last_modified;
  metadata = known_metadata p.metadata;
}

abbrev get_output : Bool → Properties → Str → GetObjectOutput
get_output ranged p body = record {
  body = body;
  content_length = pos (deref_nat p.content_length);
  content_range = if ranged then deref_str p.content_range else [];
  content_type = deref_str p.content_type;
  etag = deref_etag p.etag;
  last_modified = deref_time p.last_modified;
  metadata = [];
}

abbrev blob_info : Properties → ObjectInfo
blob_info p = record {
  key = deref_str p.name;
  size = deref_nat p.content_length;
  etag = deref_etag p.etag;
  last_modified = deref_time p.last_modified;
  storage_class = [];
}

-- The common prefixes are read from a hierarchy only.
abbrev list_output : Bool → Page → ListObjectsOutput
list_output hierarchy p = record {
  contents = map blob_info p.blobs;
  common_prefixes = if hierarchy then map deref_str p.prefixes else [];
  is_truncated = not (is_empty (deref_str p.next_marker));
  next_continuation_token = deref_str p.next_marker;
  key_count = length p.blobs;
}

abbrev dash : ℕ → ℕ
dash c = if c == b'/' then b'-' else c

module _ {S : Type 0} (c : Client S) where
  unfoldable pub azure_block_id : ℤ → Str
  azure_block_id n = c.base64 (format_5_int n)

  unfoldable pub head_object : ObjectRef → Exec S Error HeadObjectOutput
  head_object o = do p ← λ s. mapped (c.get_properties o.bucket o.key s); pure (head_output p)

  abbrev download : GetObjectInput → Option (ℤ × ℤ) → Exec S Error GetObjectOutput
  download inp window = do
    p ← λ s. mapped (c.download inp.bucket inp.key window s)
    pure (get_output (not (is_empty inp.range)) p.0 p.1)

  abbrev ranged : GetObjectInput → Result RangeError (ℤ × ℤ) → Exec S Error GetObjectOutput
  ranged inp (err e) s = (err invalid_range, s)
  ranged inp (ok w) s = download inp (some w) s

  unfoldable pub get_object : GetObjectInput → Exec S Error GetObjectOutput
  get_object inp =
      if is_empty inp.range then download inp none else ranged inp (parse_azure_range inp.range)

  unfoldable pub put_object : PutObjectInput → Exec S Error Str
  put_object inp = do
    e ← λ s.
        mapped
          (c.upload_stream inp.bucket inp.key (str_ptr inp.content_type) inp.metadata inp.body s)
    pure (deref_etag e)

  abbrev absent_is_done : Result AzureError (Unit {0}) × S → Result AzureError (Unit {0}) × S
  absent_is_done (ok _, s) = (ok tt, s)
  absent_is_done (err (response status code), s) =
      if status == 404 then (ok tt, s) else (err (response status code), s)
  absent_is_done (err transport, s) = (err transport, s)

  unfoldable pub delete_object : ObjectRef → Exec S Error (Unit {0})
  delete_object o s = mapped (absent_is_done (c.delete_blob o.bucket o.key s))

  abbrev with_outcome :
      Bool → Str → Result AzureError (Unit {0}) → DeleteObjectsOutput → DeleteObjectsOutput
  with_outcome quiet key (err e) out = record out {
    errors = record { key = key; code = bytes "InternalError"; message = c.message e } ∷ out.errors;
  }
  with_outcome quiet key (ok _) out = record out {
    deleted = if quiet then out.deleted else key ∷ out.deleted;
  }

  unfoldable pub delete_loop : Str → Bool → List Str → S → DeleteObjectsOutput × S
  delete_loop bucket quiet [] s = (record { deleted = []; errors = [] }, s)
  delete_loop bucket quiet (key ∷ keys) s =
      let one = absent_is_done (c.delete_blob bucket key s) in
      let rest = delete_loop bucket quiet keys one.1 in
      (with_outcome quiet key one.0 rest.0, rest.1)

  unfoldable pub delete_objects : DeleteObjectsInput → Exec S Error DeleteObjectsOutput
  delete_objects inp s =
      let done = delete_loop inp.bucket inp.quiet inp.objects s in (ok done.0, done.1)

  unfoldable pub head_bucket : Str → Exec S Error (Unit {0})
  head_bucket bucket s = mapped (c.container_properties bucket s)

  -- The page is asked for without the StartAfter of the input.
  unfoldable pub list_objects : ListObjectsInput → Exec S Error ListObjectsOutput
  list_objects inp s =
      let results = page_size inp.max_keys in
      let prefix = str_ptr inp.prefix in
      let marker = str_ptr inp.continuation_token in
      if is_empty inp.delimiter
      then ((λ t. mapped (c.list_flat inp.bucket prefix results marker t)) >>= λ p.
            pure (list_output false p))
          s
      else ((λ t. mapped (c.list_hierarchy inp.bucket inp.delimiter prefix results marker t))
            >>= λ p. pure (list_output true p))
          s

  unfoldable pub create_multipart_upload : CreateMultipartUploadInput → Exec S Error Str
  create_multipart_upload inp s = (
    ok (bytes "sgw-" ++ (map dash inp.key ++ (b'-' ∷ format_nat (c.unix_nano s).0))),
    (c.unix_nano s).1,
  )

  abbrev pub buffered : Option Str × S → Result Error Str × S
  buffered (none, s) = (err upstream_error, s)
  buffered (some b, s) = (ok b, s)

  -- The part goes through a temporary file, and is staged as a block of the object.
  unfoldable pub upload_part : UploadPartInput → Exec S Error Str
  upload_part inp = do
    b ← λ s. buffered (c.buffer inp.body s)
    (λ s. mapped (c.stage_block inp.bucket inp.key (azure_block_id inp.part_number) b s))
    pure (azure_block_id inp.part_number)

  abbrev pub block_ids : List CompletedPart → List Str
  block_ids ps = map (λ (p : CompletedPart). azure_block_id p.part_number) ps

  unfoldable pub complete_multipart_upload : CompleteMultipartUploadInput → Exec S Error Str
  complete_multipart_upload inp = do
    e ← λ s. mapped (c.commit_block_list inp.bucket inp.key (block_ids inp.parts) s)
    pure (deref_etag e)

  -- Blocks that are not committed expire.
  unfoldable pub abort_multipart_upload : AbortMultipartUploadInput → Exec S Error (Unit {0})
  abort_multipart_upload inp = pure tt

  abbrev signed : PresignInput → Option Str × S → Result Error Str × S
  signed inp (none, s) = (err upstream_error, s)
  signed inp (some query, s) =
      (ok (c.service_url ++ (b'/' ∷ (inp.bucket ++ (b'/' ∷ (inp.key ++ (b'?' ∷ query)))))), s)

  -- The permissions are those to read for GET, and those to write for any other method.
  unfoldable pub presign_url : PresignInput → Exec S Error Str
  presign_url inp s = signed inp (c.sign inp (str_eq inp.method (bytes "GET")) s)
