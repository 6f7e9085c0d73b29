-- ===== src/S3/Auth.antt =====
-- internal/api/s3/auth.go: the parsing of a request's credentials and authMiddleware. The digests,
-- the parsing of a date by package time, the clock in nanoseconds and the decryption of a secret are
-- arguments.
pub mod Admitted
pub mod Accepted
use storage_gateway.Prelude.{
  ℕ, zero, suc, ◌+◌, ◌-◌, ◌*◌, ◌/◌, ◌%◌, ◌^◌, ◌≤◌, ◌<◌, ◌≡◌, refl, sym, ap, ◌∙◌, fun_ext, ◌≢◌, ◌↔◌,
  ◌⊎◌, inl, inr, Bool, true, false, ◌&&◌, ◌||◌, not, Option, none, some, List, [], ◌∷◌, ◌++◌, map,
  append_assoc, append-nil, arith, ltb, leb, ◌==◌, if◌then◌else◌, Bool-cases, Option-cases, ltb→lt,
  lt→ltb, leb→le, Str, bytes, str_eq, str_eq_iff, str_eq_refl, is_empty, sort_strings, mem_str,
  str_leb, has_prefix, trim_prefix, cut_byte, IsFree, All, filter, find, any, length, take, drop,
  length-append, length-drop, take-append, drop-append, Result, ok, err, ok_injective, err-ne-ok,
  continue_ok, Exec, pure, raise, lift, continue, ◌>>=◌, ◌>>◌,
}
use mathlib.Core.Path.{subst}
use storage_gateway.Prelude.Int.{ℤ, pos, negsuc, ◌+ℤ◌, wrap64, ltb_ℤ}
use storage_gateway.Strconv.{parse_int}
use storage_gateway.Registry.{AccessKeyRow, Error, access_key_not_found}
use storage_gateway.S3.Signature.{ParsedAuth, Digests, compute_signature, split}
use storage_gateway.S3.Handler.{
  Manager, Request, Response, World, Gateway, get_value, write_s3_error, ask, guard, internal_error,
}

abbrev name_value : Option (Str × Str) → Option (Str × Str)
name_value none = none
name_value (some ([], v)) = none
name_value (some (c ∷ n, v)) = some (c ∷ n, v)

abbrev replace_if : Str → Option (Str × Str) → Str → Str
replace_if name none found = found
replace_if name (some (n, v)) found = if str_eq n name then v else found

-- parts[name], for the map of the name=value parts: the last one with the name.
unfoldable pub part_value : Str → List Str → Str → Str
part_value name [] found = found
part_value name (p ∷ ps) found =
    part_value name ps (replace_if name (name_value (cut_byte b'=' p)) found)

-- A credential with its five parts, the last two being s3 and aws4_request. The fifth part of SplitN
-- is the rest of the text, which aws4_request has no slash in.
unfoldable pub credential_of : List Str → Option (Str × (Str × Str))
credential_of (key ∷ (date ∷ (region ∷ (service ∷ (end ∷ []))))) =
    if str_eq service (bytes "s3") && str_eq end (bytes "aws4_request")
    then some (key, (date, region))
    else none
credential_of _ = none

abbrev header_auth : Str → Str → Str → Option (Str × (Str × Str)) → Option ParsedAuth
header_auth signed signature date_time none = none
header_auth signed signature date_time (some (key, (date, region))) =
    if is_empty date_time
    then none
    else some (record {
      access_key_id = key;
      date = date;
      region = region;
      signed_headers = split (b';' ∷ []) signed;
      signature = signature;
      date_time = date_time;
      presigned = false;
      expires = pos 0;
    })

abbrev from_parts : Request → List Str → Option ParsedAuth
from_parts r parts =
    let credential = part_value (bytes "Credential") parts [] in
    let signed = part_value (bytes "SignedHeaders") parts [] in
    let signature = part_value (bytes "Signature") parts [] in
    if is_empty credential || is_empty signed || is_empty signature
    then none
    else header_auth signed signature (get_value (bytes "X-Amz-Date") r.headers)
        (credential_of (split (b'/' ∷ []) credential))

-- Any error is none: each is answered with the same code.
unfoldable pub parse_header_auth : Request → Option ParsedAuth
parse_header_auth r =
    let prefix = bytes "AWS4-HMAC-SHA256 " in
    let value = get_value (bytes "Authorization") r.headers in
    if has_prefix value prefix
    then from_parts r (split (bytes ", ") (drop (length prefix) value))
    else none

abbrev presigned_auth : Str → Str → Str → Option (Str × (Str × Str)) → Option ℤ → Option ParsedAuth
presigned_auth signed signature date_time (some (key, (date, region))) (some expires) =
    some (record {
      access_key_id = key;
      date = date;
      region = region;
      signed_headers = split (b';' ∷ []) signed;
      signature = signature;
      date_time = date_time;
      presigned = true;
      expires = expires;
    })
presigned_auth signed signature date_time _ _ = none

unfoldable pub parse_presigned_auth : Request → Option ParsedAuth
parse_presigned_auth r =
    let credential = get_value (bytes "X-Amz-Credential") r.query in
    let date_time = get_value (bytes "X-Amz-Date") r.query in
    let signed = get_value (bytes "X-Amz-SignedHeaders") r.query in
    let signature = get_value (bytes "X-Amz-Signature") r.query in
    let expires = get_value (bytes "X-Amz-Expires") r.query in
    if not (str_eq (get_value (bytes "X-Amz-Algorithm") r.query) (bytes "AWS4-HMAC-SHA256"))
    then none
    else if is_empty credential
        || is_empty date_time
        || is_empty signed
        || is_empty signature
        || is_empty expires
    then none
    else presigned_auth signed signature date_time (credential_of (split (b'/' ∷ []) credential))
        (parse_int 10 (2 ^ 63) expires)

unfoldable pub parse_auth : Request → Option ParsedAuth
parse_auth r =
    if is_empty (get_value (bytes "X-Amz-Algorithm") r.query)
    then parse_header_auth r
    else parse_presigned_auth r

-- What the middleware takes from outside.
pub record Outside : Type 0 where
  pub decrypt : Str → Option Str
  pub parse_time : Str → Option ℤ
  pub now : ℤ
  pub digests : Digests

-- time.Duration(seconds) * time.Second, an int64.
unfoldable pub nanoseconds : ℤ → ℤ
nanoseconds (pos n) = wrap64 (pos (n * 1000000000))
nanoseconds (negsuc n) = wrap64 (negsuc (n * 1000000000 + 999999999))

unfoldable pub key_err : Request → Error → Response
key_err r access_key_not_found = write_s3_error r 403 (bytes "InvalidAccessKeyId")
key_err r _ = internal_error r

abbrev pub reads_only : Request → Bool
reads_only r = str_eq r.verb (bytes "GET") || str_eq r.verb (bytes "HEAD")

module _ {M S : Type 0} (gw : Gateway M S) (out : Outside) where
  -- A presigned request is good until its date and its life in seconds have passed.
  abbrev pub in_time : Request → ParsedAuth → Option ℤ → Exec (World M S) Response (Unit {0})
  in_time r pa none = raise (write_s3_error r 403 (bytes "AuthorizationQueryParametersError"))
  in_time r pa (some t) =
      guard (not (ltb_ℤ (t +ℤ nanoseconds pa.expires) out.now))
        (write_s3_error r 403 (bytes "RequestExpired"))

  abbrev pub expiry_of : Request → ParsedAuth → Bool → Exec (World M S) Response (Unit {0})
  expiry_of r pa true = in_time r pa (out.parse_time pa.date_time)
  expiry_of r pa false = pure tt

  abbrev pub check_expiry : Request → ParsedAuth → Exec (World M S) Response (Unit {0})
  check_expiry r pa = expiry_of r pa pa.presigned

  abbrev pub checked :
      Request → ParsedAuth → AccessKeyRow → Str → Exec (World M S) Response AccessKeyRow
  checked r pa row secret = do
    check_expiry r pa
    guard (str_eq pa.signature (compute_signature out.digests r pa secret))
        (write_s3_error r 403 (bytes "SignatureDoesNotMatch"))
    guard (not row.readonly || reads_only r) (write_s3_error r 403 (bytes "AccessDenied"))
    pure row

  abbrev pub with_secret :
      Request → ParsedAuth → AccessKeyRow → Option Str → Exec (World M S) Response AccessKeyRow
  with_secret r pa row none = raise (internal_error r)
  with_secret r pa row (some secret) = checked r pa row secret

  abbrev pub with_row :
      Request → ParsedAuth → Result Error AccessKeyRow → Exec (World M S) Response AccessKeyRow
  with_row r pa (err e) = raise (key_err r e)
  with_row r pa (ok row) = with_secret r pa row (out.decrypt row.secret_key_enc)

  abbrev pub with_auth : Request → Option ParsedAuth → Exec (World M S) Response AccessKeyRow
  with_auth r none w = (err (write_s3_error r 403 (bytes "InvalidSecurity")), w)
  with_auth r (some pa) w =
      let (res, m) = gw.manager.lookup_access_key pa.access_key_id w.mgr in
      with_row r pa res (record w { mgr = m })

  -- The checks in front of the handlers; the result is the row of the key that was used.
  unfoldable pub authenticate : Request → Exec (World M S) Response AccessKeyRow
  authenticate r = with_auth r (parse_auth r)

  -- authMiddleware(next): the next handler gets the request with the tenant of the key.
  unfoldable pub auth_middleware :
      (Request → Exec (World M S) Response Response) → Request → Exec (World M S) Response Response
  auth_middleware next r = authenticate r >>= λ row. next (record r { tenant = row.tenant_id })
