-- ===== src/Tests/Signing.antt =====
-- Signatures of a presigned request.
use storage_gateway.Prelude.{
  ◌≡◌, refl, true, some, List, [], ◌∷◌, arith, Str, bytes, str_eq, has_prefix, All, find,
}
use mathlib.Core.List.Perm
use storage_gateway.Prelude.Int.{pos, ◌+ℤ◌, wrap64}
use storage_gateway.Registry.{AccessKeyRow}
use storage_gateway.S3.Handler.{Request, World, get_value, bucket_and_key}
use storage_gateway.S3.Objects.{get_object}
use storage_gateway.S3.Signature.{ParsedAuth, Digests, compute_signature, uri_encode}
use storage_gateway.S3.Signature.Order.{compute_signature-presigned}
use storage_gateway.S3.Signature.Encoding.{
  uri_decode, is_encoded, uri_decode-uri_encode, uri_encode-All,
}
use storage_gateway.S3.Auth.{Outside, auth_middleware}
use storage_gateway.S3.Auth.Accepted.{IsSigned, auth_middleware-presigned}
use storage_gateway.Tests.Handlers.{gateway, world, database, key_row, request, digests}

uri_encode_slash : uri_encode true (bytes "a b/c") ≡ bytes "a%20b%2Fc"
unfolding uri_encode storage_gateway.S3.Signature.encode_byte
uri_encode_slash = refl

uri_encode-All_example : All (λ b. is_encoded b ≡ true) (uri_encode true (bytes "a b"))
uri_encode-All_example = uri_encode-All (bytes "a b") (omega arith)

uri_decode-uri_encode_example : uri_decode (uri_encode true (bytes "a b")) ≡ bytes "a b"
uri_decode-uri_encode_example = uri_decode-uri_encode true (bytes "a b") (omega arith)

abbrev unsigned : List (Str × Str)
unsigned =
    (bytes "X-Amz-Algorithm", bytes "AWS4-HMAC-SHA256")
    ∷ ((bytes "X-Amz-Credential", bytes "AK/20260101/r/s3/aws4_request")
        ∷ ((bytes "X-Amz-Date", bytes "20260101T000000Z")
            ∷ ((bytes "X-Amz-SignedHeaders", bytes "host")
                ∷ ((bytes "X-Amz-Expires", bytes "60") ∷ []))))

abbrev signature_pair : Str × Str
signature_pair = (bytes "X-Amz-Signature", bytes "73")

abbrev presigned : Request
presigned = record (request (bytes "/photos/a")) { query = signature_pair ∷ unsigned; headers = [] }

abbrev credentials : ParsedAuth
credentials = record {
  access_key_id = bytes "AK";
  date = bytes "20260101";
  region = bytes "r";
  signed_headers = bytes "host" ∷ [];
  signature = bytes "73";
  date_time = bytes "20260101T000000Z";
  presigned = true;
  expires = pos 60;
}

abbrev clock : Outside
clock = record {
  decrypt = λ sealed. some sealed;
  parse_time = λ s. some (pos 1000);
  now = pos 2000;
  digests = digests;
}

compute_signature-presigned_example :
    compute_signature digests presigned credentials (bytes "k")
    ≡ compute_signature digests (record presigned { query = unsigned }) credentials (bytes "k")
compute_signature-presigned_example =
    compute_signature-presigned digests (record presigned { query = unsigned }) credentials
      (bytes "k") (bytes "73") (signature_pair ∷ unsigned) refl
      (Perm.refl (signature_pair ∷ unsigned))

presigned-IsSigned : IsSigned gateway clock (world []) presigned credentials key_row (database [])
unfolding storage_gateway.S3.Auth.parse_auth get_value find str_eq
    storage_gateway.S3.Auth.parse_presigned_auth storage_gateway.S3.Auth.credential_of
    storage_gateway.S3.Signature.split has_prefix storage_gateway.Strconv.parse_int
    storage_gateway.S3.Handler.Managers.postgres_manager
    storage_gateway.Registry.Postgres.lookup_access_key storage_gateway.Registry.Db.active_key
presigned-IsSigned = record {
  parsed = refl;
  found = refl;
  secret = bytes "secret";
  opened = refl;
  permitted = λ h. refl;
}

auth_middleware-presigned_example :
    auth_middleware gateway clock (get_object gateway) presigned (world [])
    ≡ get_object gateway presigned (world [])
unfolding ◌+ℤ◌ storage_gateway.S3.Auth.nanoseconds wrap64 compute_signature
    storage_gateway.S3.Signature.hex
auth_middleware-presigned_example =
    auth_middleware-presigned gateway clock (world []) (get_object gateway) presigned credentials
      key_row (database []) (pos 1000) (bytes "73") unsigned presigned-IsSigned refl refl refl
      (Perm.refl (signature_pair ∷ unsigned)) refl
