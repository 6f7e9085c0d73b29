-- ===== src/S3/Signature.antt =====
-- internal/api/s3/auth.go: the canonical request and the signature of version 4. HMAC-SHA256 and
-- SHA-256 of package crypto are a parameter. Letters are those of ASCII, as in the names of headers;
-- the pairs of the query are those that url.ParseQuery finds, in their order.
pub mod Encoding
pub mod Order
use storage_gateway.Prelude.{
  ℕ, zero, suc, ◌+◌, ◌-◌, ◌*◌, ◌/◌, ◌%◌, ◌^◌, ◌≤◌, ◌<◌, ◌≡◌, refl, sym, ap, ◌∙◌, fun_ext, ◌≢◌, ◌↔◌,
  ◌⊎◌, inl, inr, Bool, true, false, ◌&&◌, ◌||◌, not, Option, none, some, List, [], ◌∷◌, ◌++◌, map,
  append_assoc, append-nil, arith, ltb, leb, ◌==◌, if◌then◌else◌, Bool-cases, Option-cases, ltb→lt,
  lt→ltb, leb→le, Str, bytes, str_eq, str_eq_iff, str_eq_refl, is_empty, sort_strings, mem_str,
  str_leb, has_prefix, trim_prefix, cut_byte, IsFree, All, filter, find, any, length, take, drop,
  length-append, length-drop, take-append, drop-append, Result, ok, err, ok_injective, err-ne-ok,
  continue_ok, Exec, pure, raise, lift, continue, ◌>>=◌, ◌>>◌,
}
use mathlib.Core.Path.{subst}
use storage_gateway.Prelude.Int.{ℤ}
use storage_gateway.S3.Handler.{Request, get_value}
use storage_gateway.S3.Multipart.{to_lower}
use storage_gateway.S3.Chunked.{trim_left, trim_right, is_space}
use storage_gateway.Registry.Db.{sort_by}

pub record ParsedAuth : Type 0 where
  pub access_key_id : Str
  pub date : Str
  pub region : Str
  pub signed_headers : List Str
  pub signature : Str
  pub date_time : Str
  pub presigned : Bool
  pub expires : ℤ

-- strings.Split for a separator that is not empty: `skip` bytes of a separator are still to be
-- passed, and `piece` is what stands before the next one.
unfoldable pub split_from : Str → ℕ → Str → Str → List Str
split_from sep skip [] piece = piece ∷ []
split_from sep (suc k) (c ∷ s) piece = split_from sep k s piece
split_from sep zero (c ∷ s) piece = elim (has_prefix (c ∷ s) sep) [
  | true ↦ piece ∷ split_from sep (length sep - 1) s []
  | false ↦ split_from sep zero s (piece ++ c ∷ [])
]

unfoldable pub split : Str → Str → List Str
unfolding split_from
split sep s = split_from sep 0 s []

-- strings.Join
unfoldable pub join : Str → List Str → Str
join sep [] = []
join sep (s ∷ []) = s
join sep (s ∷ (t ∷ ss)) = s ++ (sep ++ join sep (t ∷ ss))

abbrev pub is_unreserved : ℕ → Bool
is_unreserved c =
    (leb b'A' c && leb c b'Z')
    || (leb b'a' c && leb c b'z')
    || (leb b'0' c && leb c b'9')
    || c == b'-'
    || c == b'.'
    || c == b'_'
    || c == b'~'

-- A digit of %02X, and of package hex.
abbrev pub upper_digit : ℕ → ℕ
upper_digit n = if ltb n 10 then b'0' + n else b'A' + (n - 10)

abbrev lower_digit : ℕ → ℕ
lower_digit n = if ltb n 10 then b'0' + n else b'a' + (n - 10)

unfoldable pub encode_byte : Bool → ℕ → Str
encode_byte encode_slash c =
    if is_unreserved c || (not encode_slash && c == b'/')
    then c ∷ []
    else b'%' ∷ (upper_digit (c / 16) ∷ (upper_digit (c % 16) ∷ []))

unfoldable pub uri_encode : Bool → Str → Str
uri_encode encode_slash [] = []
uri_encode encode_slash (c ∷ s) = encode_byte encode_slash c ++ uri_encode encode_slash s

-- hex.EncodeToString
unfoldable pub hex : Str → Str
hex [] = []
hex (c ∷ s) = lower_digit (c / 16) ∷ (lower_digit (c % 16) ∷ hex s)

unfoldable pub canonical_uri : Str → Str
canonical_uri path =
    if is_empty path
    then b'/' ∷ []
    else join (b'/' ∷ []) (map (uri_encode true) (split (b'/' ∷ []) path))

abbrev pub encode_pair : Str × Str → Str × Str
encode_pair (k, v) = (uri_encode true k, uri_encode true v)

-- The order of sort.Slice.
abbrev pub pair_leb : Str × Str → Str × Str → Bool
pair_leb (k, v) (l, w) = if str_eq k l then str_leb v w else str_leb k l

abbrev pub show_pair : Str × Str → Str
show_pair (k, v) = k ++ (b'=' ∷ v)

abbrev pub is_other : Str → Str × Str → Bool
is_other exclude p = not (str_eq p.0 exclude)

-- The map of the query is walked in any order; that the order does not matter is a theorem.
unfoldable pub canonical_query_excluding : Str → List (Str × Str) → Str
canonical_query_excluding exclude q =
    join (b'&' ∷ [])
      (map show_pair (sort_by pair_leb (map encode_pair (filter (is_other exclude) q))))

unfoldable pub canonical_query : List (Str × Str) → Str
canonical_query q = canonical_query_excluding [] q

-- Header.Get for a name in any case.
unfoldable pub get_header : Str → List (Str × Str) → Str
get_header name [] = []
get_header name ((k, v) ∷ hs) =
    let rest = get_header name hs in if str_eq (to_lower k) (to_lower name) then v else rest

abbrev signed_value : Request → Str → Str
signed_value r lower =
    if str_eq lower (bytes "host")
    then r.host
    else trim_right is_space (trim_left is_space (get_header lower r.headers))

-- The keys of the map: each lower-case name once.
unfoldable pub distinct : List Str → List Str
distinct [] = []
distinct (s ∷ ss) = let rest = distinct ss in if mem_str s rest then rest else s ∷ rest

unfoldable pub signed_names : List Str → List Str
signed_names names = sort_strings (distinct (map to_lower names))

unfoldable pub canonical_lines : Request → List Str → Str
canonical_lines r [] = []
canonical_lines r (k ∷ ks) = k ++ (b':' ∷ (signed_value r k ++ (10 ∷ canonical_lines r ks)))

unfoldable pub canonical_headers : Request → List Str → Str × Str
canonical_headers r names =
    let sorted = signed_names names in (canonical_lines r sorted, join (b';' ∷ []) sorted)

abbrev line_end : Str
line_end = 10 ∷ []

-- A presigned request carries its signature in the query, where it is left out.
abbrev pub query_of : ParsedAuth → List (Str × Str) → Str
query_of pa q =
    if pa.presigned
    then canonical_query_excluding (bytes "X-Amz-Signature") q
    else canonical_query q

unfoldable pub canonical_request : Request → ParsedAuth → Str → Str
canonical_request r pa payload_hash =
    let headers = canonical_headers r pa.signed_headers in
    join line_end (
      r.verb
      ∷ (canonical_uri r.path
          ∷ (query_of pa r.query ∷ (headers.0 ∷ (headers.1 ∷ (payload_hash ∷ []))))))

-- Package crypto's HMAC-SHA256, by key and message, and SHA-256.
pub record Digests : Type 0 where
  pub hmac_sha256 : Str → Str → Str
  pub sha256 : Str → Str

abbrev pub empty_hash : Str
empty_hash = bytes "e3b0c44298fc1c149afbf4c8996fb92427ae41e4649b934ca495991b7852b855"

unfoldable pub payload_hash : Request → ParsedAuth → Str
payload_hash r pa =
    let h = get_value (bytes "X-Amz-Content-Sha256") r.headers in
    if is_empty h then (if pa.presigned then bytes "UNSIGNED-PAYLOAD" else empty_hash) else h

module _ (d : Digests) where
  unfoldable pub signing_key : Str → Str → Str → Str → Str
  signing_key secret date region service =
      d.hmac_sha256
        (d.hmac_sha256 (d.hmac_sha256 (d.hmac_sha256 (bytes "AWS4" ++ secret) date) region) service)
        (bytes "aws4_request")

  abbrev string_to_sign : ParsedAuth → Str → Str
  string_to_sign pa request = join line_end (
      bytes "AWS4-HMAC-SHA256"
      ∷ (pa.date_time
          ∷ ((pa.date ++ (b'/' ∷ (pa.region ++ bytes "/s3/aws4_request")))
              ∷ (hex (d.sha256 request) ∷ []))))

  unfoldable pub compute_signature : Request → ParsedAuth → Str → Str
  compute_signature r pa secret = hex (
      d.hmac_sha256 (signing_key secret pa.date pa.region (bytes "s3"))
        (string_to_sign pa (canonical_request r pa (payload_hash r pa))))
