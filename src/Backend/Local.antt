-- ===== src/Backend/Local.antt =====
-- internal/backend/local.go: objects as files. What the file system answers to Open, Stat and Seek
-- is an argument; the md5 digest of package crypto is a parameter.
pub mod Window
pub mod Listing
pub mod Files
use storage_gateway.Prelude.{
  ℕ, zero, suc, ◌+◌, ◌-◌, ◌≡◌, Bool, true, false, ◌||◌, Option, none, some, List, [], ◌∷◌, ◌++◌,
  Str, bytes, is_empty, length, take, drop, if◌then◌else◌, Result, ok, err,
}
use storage_gateway.Prelude.Int.{ℤ, pos, negsuc, pos_part, neg_part, ◌+ℤ◌, ◌-ℤ◌, wrap64, ltb_ℤ}
use storage_gateway.Strconv.{format_nat, format_int}
use storage_gateway.Backend.{Error, object_not_found, upstream_error, invalid_range}
use storage_gateway.Backend.{GetObjectInput, GetObjectOutput}
use storage_gateway.Backend.Range.{RangeError, parse_http_range}

-- A file as os.FileInfo and its content show it; the times are in seconds and in nanoseconds.
pub record File : Type 0 where
  pub content : Str
  pub mod_time : ℕ
  pub mod_nano : ℕ

-- What os.Open and f.Stat answer.
pub data Opened : Type 0 where
  missing open_failed stat_failed : Opened
  opened : File → Opened

abbrev pub size_of : File → ℤ
size_of f = pos (length f.content)

-- io.LimitReader(f, length) after f.Seek(offset): nothing where the limit is not positive.
abbrev limit_reader : Str → ℤ → ℤ → Str
limit_reader content offset n = take (pos_part n) (drop (pos_part offset) content)

-- The length that is sent: to the end where the range is open or goes past it.
unfoldable pub clamp_length : ℤ → ℤ → ℤ → ℤ
unfolding ◌+ℤ◌ ◌-ℤ◌ wrap64
clamp_length offset n size =
    if ltb_ℤ n (pos 0) || ltb_ℤ size (wrap64 (offset +ℤ n)) then wrap64 (size -ℤ offset) else n

unfoldable pub content_range : ℤ → ℤ → ℤ → Str
unfolding ◌+ℤ◌ ◌-ℤ◌ wrap64 format_int
content_range offset n size =
    bytes "bytes "
    ++ (format_int offset
        ++ (b'-'
            ∷ (format_int (wrap64 (wrap64 (offset +ℤ n) -ℤ pos 1)) ++ (b'/' ∷ format_int size))))

module _ (md5_hex : Str → Str) where
  unfoldable pub local_etag : File → Str
  unfolding format_nat
  local_etag f = md5_hex (format_nat (length f.content) ++ (b'-' ∷ format_nat f.mod_nano))

  unfoldable pub whole_object : File → GetObjectOutput
  unfolding local_etag
  whole_object f = record {
    body = f.content;
    content_length = size_of f;
    content_range = [];
    content_type = bytes "application/octet-stream";
    etag = local_etag f;
    last_modified = some f.mod_time;
    metadata = [];
  }

  -- The block under `if in.Range != ""`, once the range is parsed.
  unfoldable pub ranged_object :
      File → Bool → Result RangeError (ℤ × ℤ) → Result Error GetObjectOutput
  unfolding whole_object clamp_length content_range
  ranged_object f seek_ok (err e) = err invalid_range
  ranged_object f seek_ok (ok (offset, n)) =
      if ltb_ℤ offset (size_of f)
      then (if seek_ok
          then (let sent = clamp_length offset n (size_of f) in
              ok (record (whole_object f) {
                body = limit_reader f.content offset sent;
                content_length = sent;
                content_range = content_range offset sent (size_of f);
              }))
          else err upstream_error)
      else err invalid_range

  unfoldable pub get_object : Opened → Bool → GetObjectInput → Result Error GetObjectOutput
  unfolding whole_object ranged_object parse_http_range
  get_object missing seek_ok inp = err object_not_found
  get_object open_failed seek_ok inp = err upstream_error
  get_object stat_failed seek_ok inp = err upstream_error
  get_object (opened f) seek_ok inp =
      if is_empty inp.range
      then ok (whole_object f)
      else ranged_object f seek_ok (parse_http_range inp.range)
