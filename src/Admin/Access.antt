-- ===== src/Admin/Access.antt =====
-- internal/api/admin/handler.go and response.go: what the handlers share. A handler runs over the
-- manager, the pool and the upstreams like those of S3.Handler, and a response that ends it early is
-- raised.
pub mod Passed
use storage_gateway.Prelude.{
  ℕ, zero, suc, ◌+◌, ◌-◌, ◌*◌, ◌/◌, ◌%◌, ◌^◌, ◌≤◌, ◌<◌, ◌≡◌, refl, sym, ap, ◌∙◌, fun_ext, ◌≢◌, ◌↔◌,
  ◌⊎◌, inl, inr, Bool, true, false, ◌&&◌, ◌||◌, not, Option, none, some, List, [], ◌∷◌, ◌++◌, map,
  append_assoc, append-nil, arith, ltb, leb, ◌==◌, if◌then◌else◌, Bool-cases, Option-cases, ltb→lt,
  lt→ltb, leb→le, Str, bytes, str_eq, str_eq_iff, str_eq_refl, is_empty, sort_strings, mem_str,
  str_leb, has_prefix, trim_prefix, cut_byte, IsFree, All, filter, find, any, length, take, drop,
  length-append, length-drop, take-append, drop-append, Result, ok, err, ok_injective, err-ne-ok,
  continue_ok, Exec, pure, raise, lift, continue, ◌>>=◌, ◌>>◌,
}
use storage_gateway.Registry.{Store, Error}
use storage_gateway.Registry.Cache.{Uuids}
use storage_gateway.Backend
use storage_gateway.Backend.{Backend}
use storage_gateway.Backend.Pool.{Pool, Providers}
use storage_gateway.Backend.Pool
use storage_gateway.Crypto.{Gcm}
use storage_gateway.S3.Handler.{World, get_value}
use storage_gateway.Admin.{
  Manager, Decoders, Decoded, decoded, Request, Response, write_error, handle_err,
}

-- The fields of Handler, with AES-GCM, the packages that parse and the constructors of the providers.
pub record Api (M S : Type 0) : Type 0 where
  pub manager : Manager M
  pub providers : Providers (Backend S)
  pub crypto_key : Str
  pub gcm : Gcm
  pub uuids : Uuids
  pub json : Decoders
  pub base64 : Str → Str

abbrev pub Handler : Type 0 → Type 0 → Type 0 → Type 0
Handler M S A = Exec (World M S) Response A

-- A result whose error becomes a response.
abbrev pub or_respond : {E A : Type 0} → (E → Response) → Result E A → Result Response A
or_respond f (ok a) = ok a
or_respond f (err e) = err (f e)

module _ {M S : Type 0} where
  -- A call of the manager whose error goes through handleErr.
  abbrev pub ask : {A : Type 0} → Exec M Error A → Handler M S A
  ask m w = (or_respond handle_err (m w.mgr).0, record w { mgr = (m w.mgr).1 })

  -- A call of an upstream.
  abbrev pub call :
      {A : Type 0} → (Backend.Error → Response) → Exec S Backend.Error A → Handler M S A
  call f m w = (or_respond f (m w.upstream).0, record w { upstream = (m w.upstream).1 })

  abbrev pub guard : Bool → ℕ → Str → Handler M S (Unit {0})
  guard true status message w = (ok tt, w)
  guard false status message w = (err (write_error status message), w)

  abbrev pub body_or : {A : Type 0} → Str → Decoded A → Handler M S A
  body_or message (decoded a) w = (ok a, w)
  body_or message _ w = (err (write_error 400 message), w)

  abbrev pub read_body : {A : Type 0} → Decoded A → Handler M S A
  read_body d = body_or (bytes "invalid request body") d

  -- A step whose error is answered with status 500 and this message.
  abbrev pub try_to : {E A : Type 0} → Str → Result E A → Handler M S A
  try_to message res w = (or_respond (λ _. write_error 500 message) res, w)

  abbrev pub evict_backend : ℕ → Handler M S (Unit {0})
  evict_backend id w = (ok tt, record w { pool = Pool.invalidate id w.pool })

  abbrev pub id_or : Str → Option ℕ → Handler M S ℕ
  id_or name (some id) w = (ok id, w)
  id_or name none w = (err (write_error 400 (bytes "invalid " ++ name)), w)

  module _ (api : Api M S) where
    -- uuidParam, with the response to its error, which has this name of the parameter.
    unfoldable pub uuid_param : Request → Str → Str → Handler M S ℕ
    uuid_param r key name = id_or name (api.uuids.parse (get_value key r.params))

    abbrev pub tenant_param : Request → Handler M S ℕ
    tenant_param r = uuid_param r (bytes "tenantID") (bytes "tenant_id")

    unfoldable pub verify_store_ownership : Request → Handler M S Store
    verify_store_ownership r = do
      tenant ← tenant_param r
      id ← uuid_param r (bytes "storeID") (bytes "store_id")
      s ← ask (api.manager.get_store id)
      guard (s.tenant_id == tenant) 404 (bytes "store not found")
      pure s
