-- ===== src/Backend/Gcs.antt =====
-- internal/backend/gcs.go: the operations of gcsBackend over the calls of package storage, which are
-- a parameter with its own state. Multipart uploads are in Gcs.Compose.
pub mod Compose
use storage_gateway.Prelude.{
  map_err, ℕ, zero, suc, ◌+◌, ◌-◌, ◌*◌, ◌/◌, ◌%◌, ◌^◌, ◌≤◌, ◌<◌, ◌≡◌, refl, sym, ap, ◌∙◌, fun_ext,
  ◌≢◌, ◌↔◌, ◌⊎◌, inl, inr, Bool, true, false, ◌&&◌, ◌||◌, not, Option, none, some, List, [], ◌∷◌,
  ◌++◌, map, append_assoc, append-nil, arith, ltb, leb, ◌==◌, if◌then◌else◌, Bool-cases,
  Option-cases, ltb→lt, lt→ltb, leb→le, Str, bytes, str_eq, str_eq_iff, str_eq_refl, is_empty,
  sort_strings, mem_str, str_leb, has_prefix, trim_prefix, cut_byte, IsFree, All, filter, find, any,
  length, take, drop, length-append, length-drop, take-append, drop-append, Result, ok, err,
  ok_injective, err-ne-ok, continue_ok, Exec, pure, raise, lift, continue, ◌>>=◌, ◌>>◌,
}
use mathlib.Core.Path.{subst}
use storage_gateway.Prelude.Int.{ℤ, pos, negsuc, ◌+ℤ◌, ◌-ℤ◌, wrap64, ltb_ℤ}
use storage_gateway.Strconv.{format_int}
use storage_gateway.Backend.{
  page_size, Error, object_not_found, bucket_not_found, access_denied, invalid_range,
  upstream_error, Time, Metadata, Body, ObjectRef, HeadObjectOutput, GetObjectInput,
  GetObjectOutput, PutObjectInput, DeleteObjectsInput, DeleteError, DeleteObjectsOutput,
  ListObjectsInput, ListObjectsOutput, ObjectInfo, PresignInput,
}
use storage_gateway.Backend.Range.{RangeError, parse_http_range}

-- An error of package storage, as errors.Is and errors.As tell it.
pub data GcsError : Type 0 where
  object_not_exist bucket_not_exist transport : GcsError
  api : ℕ → GcsError

unfoldable pub map_gcs_err : GcsError → Error
map_gcs_err object_not_exist = object_not_found
map_gcs_err bucket_not_exist = bucket_not_found
map_gcs_err (api code) =
    if code == 404
    then object_not_found
    else if code == 403
    then access_denied
    else if code == 416
    then invalid_range
    else upstream_error
map_gcs_err transport = upstream_error

-- What storage.ObjectAttrs holds; `prefix` is set for a common prefix of a listing.
pub record Attrs : Type 0 where
  pub prefix : Str
  pub name : Str
  pub size : ℕ
  pub content_type : Str
  pub etag : Str
  pub updated : Time
  pub metadata : Metadata

-- A storage.Reader.
pub record Reader : Type 0 where
  pub body : Str
  pub remain : ℤ
  pub size : ℤ
  pub content_type : Str
  pub generation : ℤ
  pub metageneration : ℤ
  pub last_modified : Time
  pub metadata : Metadata

-- The calls of storage.Client, by bucket and name. An iterator over objects hands out names until it
-- is done or fails; a page of a listing comes with the token of the next one.
pub record Client (S : Type 0) : Type 0 where
  pub attrs : Str → Str → Exec S GcsError Attrs
  pub new_range_reader : Str → Str → ℤ → ℤ → Exec S GcsError Reader
  pub new_reader : Str → Str → Exec S GcsError Reader
  pub copy : Str → Str → Str → Metadata → Body → Exec S GcsError (Unit {0})
  pub close : Str → Str → Exec S GcsError (Unit {0})
  pub delete : Str → Str → Exec S GcsError (Unit {0})
  pub compose : Str → List Str → Str → Exec S GcsError (Unit {0})
  pub bucket_attrs : Str → Exec S GcsError (Unit {0})
  pub objects : Str → Str → S → List Str × Option GcsError
  pub next_page : ListObjectsInput → ℕ → Exec S GcsError (List Attrs × Str)
  pub signed_url : PresignInput → Option Str
  pub unix_nano : S → ℕ × S
  pub message : GcsError → Str

abbrev pub mapped : {S A : Type 0} → Result GcsError A × S → Result Error A × S
mapped = map_err map_gcs_err

abbrev pub head_output : Attrs → HeadObjectOutput
head_output a = record {
  content_length = pos a.size;
  content_type = a.content_type;
  etag = a.etag;
  last_modified = a.updated;
  metadata = a.metadata;
}

-- The Content-Range of a range reader, where it knows how much it will return.
unfoldable pub range_header : ℤ → Reader → Str
range_header offset rc =
    if ltb_ℤ rc.remain (pos 0)
    then []
    else bytes "bytes "
      ++ (format_int offset
          ++ (b'-'
              ∷ (format_int (wrap64 (wrap64 (offset +ℤ rc.remain) -ℤ pos 1))
                  ++ (b'/' ∷ format_int rc.size))))

abbrev range_output : ℤ → Reader → GetObjectOutput
range_output offset rc = record {
  body = rc.body;
  content_length = rc.remain;
  content_range = range_header offset rc;
  content_type = rc.content_type;
  etag = format_int rc.generation ++ (b'-' ∷ format_int rc.metageneration);
  last_modified = rc.last_modified;
  metadata = rc.metadata;
}

abbrev full_output : Attrs → Reader → GetObjectOutput
full_output a rc = record {
  body = rc.body;
  content_length = pos a.size;
  content_range = [];
  content_type = a.content_type;
  etag = a.etag;
  last_modified = a.updated;
  metadata = a.metadata;
}

abbrev object_info : Attrs → ObjectInfo
object_info a = record {
  key = a.name;
  size = a.size;
  etag = a.etag;
  last_modified = a.updated;
  storage_class = [];
}

-- The loop over the page of a listing.
unfoldable pub split_page : List Attrs → List ObjectInfo × List Str
split_page [] = ([], [])
split_page (a ∷ page) =
    let rest = split_page page in
    if is_empty a.prefix then (object_info a ∷ rest.0, rest.1) else (rest.0, a.prefix ∷ rest.1)

abbrev list_output : List Attrs → Str → ListObjectsOutput
list_output page token = record {
  contents = (split_page page).0;
  common_prefixes = (split_page page).1;
  is_truncated = not (is_empty token);
  next_continuation_token = token;
  key_count = length (split_page page).0;
}

module _ {S : Type 0} (c : Client S) where
  unfoldable pub head_object : ObjectRef → Exec S Error HeadObjectOutput
  head_object o = do a ← λ s. mapped (c.attrs o.bucket o.key s); pure (head_output a)

  abbrev ranged : GetObjectInput → Result RangeError (ℤ × ℤ) → Exec S Error GetObjectOutput
  ranged inp (err e) s = (err invalid_range, s)
  ranged inp (ok (offset, n)) s =
      ((λ s. mapped (c.new_range_reader inp.bucket inp.key offset n s)) >>= λ rc.
      pure (range_output offset rc))
        s

  unfoldable pub full_read : GetObjectInput → Exec S Error GetObjectOutput
  full_read inp = do
    a ← λ s. mapped (c.attrs inp.bucket inp.key s)
    rc ← λ s. mapped (c.new_reader inp.bucket inp.key s)
    pure (full_output a rc)

  unfoldable pub get_object : GetObjectInput → Exec S Error GetObjectOutput
  get_object inp =
      if is_empty inp.range then full_read inp else ranged inp (parse_http_range inp.range)

  -- io.Copy into a new writer, which is closed whether the copy succeeds or not.
  abbrev closed : Str → Str → Result GcsError (Unit {0}) × S → Result Error (Unit {0}) × S
  closed bucket key (err e, s) = (err upstream_error, (c.close bucket key s).1)
  closed bucket key (ok _, s) = mapped (c.close bucket key s)

  unfoldable pub write_object : Str → Str → Str → Metadata → Body → Exec S Error Str
  write_object bucket key content_type metadata body = do
    (λ s. closed bucket key (c.copy bucket key content_type metadata body s))
    a ← λ s. mapped (c.attrs bucket key s)
    pure a.etag

  unfoldable pub put_object : PutObjectInput → Exec S Error Str
  put_object inp = write_object inp.bucket inp.key inp.content_type inp.metadata inp.body

  abbrev idempotent : Result GcsError (Unit {0}) × S → Result GcsError (Unit {0}) × S
  idempotent (ok _, s) = (ok tt, s)
  idempotent (err object_not_exist, s) = (ok tt, s)
  idempotent (err e, s) = (err e, s)

  unfoldable pub delete_object : ObjectRef → Exec S Error (Unit {0})
  delete_object o s = mapped (idempotent (c.delete o.bucket o.key s))

  abbrev with_outcome :
      Bool → Str → Result GcsError (Unit {0}) → DeleteObjectsOutput → DeleteObjectsOutput
  with_outcome quiet key (err e) out = record out {
    errors = record { key = key; code = bytes "InternalError"; message = c.message e } ∷ out.errors;
  }
  with_outcome quiet key (ok _) out = record out {
    deleted = if quiet then out.deleted else key ∷ out.deleted;
  }

  unfoldable pub delete_loop : Str → Bool → List Str → S → DeleteObjectsOutput × S
  delete_loop bucket quiet [] s = (record { deleted = []; errors = [] }, s)
  delete_loop bucket quiet (key ∷ keys) s =
      let one = idempotent (c.delete bucket key s) in
      let rest = delete_loop bucket quiet keys one.1 in
      (with_outcome quiet key one.0 rest.0, rest.1)

  unfoldable pub delete_objects : DeleteObjectsInput → Exec S Error DeleteObjectsOutput
  delete_objects inp s =
      let done = delete_loop inp.bucket inp.quiet inp.objects s in (ok done.0, done.1)

  unfoldable pub head_bucket : Str → Exec S Error (Unit {0})
  head_bucket bucket s = mapped (c.bucket_attrs bucket s)

  unfoldable pub list_objects : ListObjectsInput → Exec S Error ListObjectsOutput
  list_objects inp = do
    p ← λ s. mapped (c.next_page inp (page_size inp.max_keys) s)
    pure (list_output p.0 p.1)

  abbrev or_upstream : Option Str → Result Error Str
  or_upstream (some url) = ok url
  or_upstream none = err upstream_error

  unfoldable pub presign_url : PresignInput → Exec S Error Str
  presign_url inp = lift (or_upstream (c.signed_url inp))
