-- ===== src/Admin/Keys.antt =====
-- internal/api/admin/keys.go: the handlers of access keys and the generation of keys. Encoding to
-- base64 is a parameter.
pub mod Usable
use storage_gateway.Prelude.{
  ℕ, zero, suc, ◌+◌, ◌-◌, ◌*◌, ◌/◌, ◌%◌, ◌^◌, ◌≤◌, ◌<◌, ◌≡◌, refl, sym, ap, ◌∙◌, fun_ext, ◌≢◌, ◌↔◌,
  ◌⊎◌, inl, inr, Bool, true, false, ◌&&◌, ◌||◌, not, Option, none, some, List, [], ◌∷◌, ◌++◌, map,
  append_assoc, append-nil, arith, ltb, leb, ◌==◌, if◌then◌else◌, Bool-cases, Option-cases, ltb→lt,
  lt→ltb, leb→le, Str, bytes, str_eq, str_eq_iff, str_eq_refl, is_empty, sort_strings, mem_str,
  str_leb, has_prefix, trim_prefix, cut_byte, IsFree, All, filter, find, any, length, take, drop,
  length-append, length-drop, take-append, drop-append, Result, ok, err, ok_injective, err-ne-ok,
  continue_ok, Exec, pure, raise, lift, continue, ◌>>=◌, ◌>>◌,
}
use storage_gateway.Registry.{AccessKeyRow}
use storage_gateway.Crypto.{encrypt}
use storage_gateway.Admin.{
  Request, Response, Decoded, end_of_body, malformed, decoded, key_body, keys_body,
  created_key_body, CreateKeyResponse, write_json, write_error, no_content, to_key_dto,
}
use storage_gateway.Admin.Access.{Api, Handler, ask, body_or, try_to, tenant_param, uuid_param}

abbrev pub alphabet : Str
alphabet = bytes "ABCDEFGHIJKLMNOPQRSTUVWXYZ0123456789"

-- s[i], for an index that the code keeps below the length.
abbrev pub byte_at : Str → ℕ → ℕ
byte_at [] i = 0
byte_at (x ∷ s) zero = x
byte_at (x ∷ s) (suc i) = byte_at s i

-- The loop over b[i] = alphabet[int(b[i])%len(alphabet)].
unfoldable pub letters : Str → Str
letters b = map (λ x. byte_at alphabet (x % length alphabet)) b

-- none is an error of rand.Read, and otherwise these are the 17 bytes that it wrote.
unfoldable pub generate_access_key_id : Option Str → Result (Unit {0}) Str
generate_access_key_id none = err tt
generate_access_key_id (some b) = ok (bytes "SGW" ++ letters b)

unfoldable pub generate_secret_key : (Str → Str) → Option Str → Result (Unit {0}) Str
generate_secret_key base64 none = err tt
generate_secret_key base64 (some b) = ok (base64 b)

-- An empty body is no error.
abbrev pub readonly_or_default : Decoded Bool → Decoded Bool
readonly_or_default end_of_body = decoded false
readonly_or_default malformed = malformed
readonly_or_default (decoded b) = decoded b

abbrev required : Decoded (Option Bool) → Decoded Bool
required (decoded (some b)) = decoded b
required _ = malformed

unfoldable pub created : ℕ → Str → AccessKeyRow → CreateKeyResponse
created tenant secret row = record {
  id = row.id;
  tenant_id = tenant;
  access_key = row.access_key;
  secret_key = secret;
  readonly = row.readonly;
  created_at = row.created_at;
}

module _ {M S : Type 0} (api : Api M S) where
  -- The last part of createAccessKey, with the new key.
  abbrev pub insert_key : Request → ℕ → Bool → Str → Str → Str → Handler M S Response
  insert_key r tenant readonly ak secret enc = do
    row ← ask (api.manager.create_access_key r.fresh.row_id tenant ak enc readonly)
    pure (write_json 201 (created_key_body (created tenant secret row)))

  -- createAccessKey, once the tenant is known to exist.
  unfoldable pub issue_key : Request → ℕ → Bool → Handler M S Response
  issue_key r tenant readonly = do
    ak ← try_to (bytes "failed to generate key") (generate_access_key_id r.fresh.key_bytes)
    secret ←
        try_to (bytes "failed to generate secret")
          (generate_secret_key api.base64 r.fresh.secret_bytes)
    enc ←
        try_to (bytes "failed to encrypt secret")
          (encrypt api.gcm r.fresh.nonce api.crypto_key secret)
    insert_key r tenant readonly ak secret enc

  unfoldable pub create_access_key : Request → Handler M S Response
  create_access_key r = do
    tenant ← tenant_param api r
    readonly ←
        body_or (bytes "invalid request body") (readonly_or_default (api.json.key_readonly r.body))
    ask (api.manager.get_tenant tenant)
    issue_key r tenant readonly

  unfoldable pub update_access_key_readonly : Request → Handler M S Response
  update_access_key_readonly r = do
    tenant ← tenant_param api r
    id ← uuid_param api r (bytes "keyID") (bytes "key_id")
    readonly ←
        body_or (bytes "readonly (boolean) is required") (required (api.json.new_readonly r.body))
    row ← ask (api.manager.update_access_key_readonly id tenant readonly)
    pure (write_json 200 (key_body (to_key_dto row)))

  unfoldable pub list_access_keys : Request → Handler M S Response
  list_access_keys r = do
    tenant ← tenant_param api r
    rows ← ask (api.manager.list_access_keys tenant)
    pure (write_json 200 (keys_body (map to_key_dto rows)))

  unfoldable pub revoke_access_key : Request → Handler M S Response
  revoke_access_key r = do
    tenant ← tenant_param api r
    id ← uuid_param api r (bytes "keyID") (bytes "key_id")
    ask (api.manager.revoke_access_key id tenant)
    pure no_content
