-- ===== src/Admin/Stores.antt =====
-- internal/api/admin/stores.go: the handlers of stores.
pub mod Renewed
pub mod Stale
use storage_gateway.Prelude.{
  ℕ, zero, suc, ◌+◌, ◌-◌, ◌*◌, ◌/◌, ◌%◌, ◌^◌, ◌≤◌, ◌<◌, ◌≡◌, refl, sym, ap, ◌∙◌, fun_ext, ◌≢◌, ◌↔◌,
  ◌⊎◌, inl, inr, Bool, true, false, ◌&&◌, ◌||◌, not, Option, none, some, List, [], ◌∷◌, ◌++◌, map,
  append_assoc, append-nil, arith, ltb, leb, ◌==◌, if◌then◌else◌, Bool-cases, Option-cases, ltb→lt,
  lt→ltb, leb→le, Str, bytes, str_eq, str_eq_iff, str_eq_refl, is_empty, sort_strings, mem_str,
  str_leb, has_prefix, trim_prefix, cut_byte, IsFree, All, filter, find, any, length, take, drop,
  length-append, length-drop, take-append, drop-append, Result, ok, err, ok_injective, err-ne-ok,
  continue_ok, Exec, pure, raise, lift, continue, ◌>>=◌, ◌>>◌,
}
use storage_gateway.Registry.{
  BackendType, unknown_type, PresignedMode, proxy, redirect, unknown_mode, CreateStoreParams, Store,
}
use storage_gateway.Crypto.{encrypt}
use storage_gateway.Admin.{
  StoreBody, Request, Response, store_body, stores_body, origins_body, write_json, no_content,
  to_store_dto,
}
use storage_gateway.Admin.Access.{
  Api, Handler, ask, guard, read_body, try_to, evict_backend, tenant_param, verify_store_ownership,
}

abbrev pub valid_backend_type : BackendType → Bool
valid_backend_type (unknown_type _) = false
valid_backend_type _ = true

abbrev pub valid_presigned_mode : PresignedMode → Bool
valid_presigned_mode (unknown_mode _) = false
valid_presigned_mode _ = true

abbrev pub mode_or : PresignedMode → PresignedMode → PresignedMode
mode_or (unknown_mode []) standard = standard
mode_or mode standard = mode

-- len(req.BackendConfig) == 0 || string(req.BackendConfig) == "null"
abbrev pub lacks_config : Str → Bool
lacks_config config = is_empty config || str_eq config (bytes "null")

abbrev new_store : ℕ → StoreBody → Str → PresignedMode → CreateStoreParams
new_store tenant req config mode = record {
  tenant_id = tenant;
  name = req.name;
  backend_type = req.backend_type;
  backend_config_enc = config;
  presigned_mode = mode;
  allowed_origins = [];
}

module _ {M S : Type 0} (api : Api M S) where
  -- What createStore and updateStoreBackend do with the mode and the configuration of a body.
  abbrev pub sealed_config : Request → Str → PresignedMode → Handler M S Str
  sealed_config r config mode = do
    guard (valid_presigned_mode mode) 400 (bytes "presigned_mode must be proxy or redirect")
    try_to (bytes "failed to encrypt backend config")
        (encrypt api.gcm r.fresh.nonce api.crypto_key config)

  unfoldable pub create_store : Request → Handler M S Response
  create_store r = do
    tenant ← tenant_param api r
    req ← read_body (api.json.store r.body)
    guard (not (is_empty req.name)) 400 (bytes "name is required")
    guard (valid_backend_type req.backend_type) 400
        (bytes "backend_type must be one of: s3, gcs, r2, azure, local")
    guard (not (lacks_config req.backend_config)) 400 (bytes "backend_config is required")
    enc ← sealed_config r req.backend_config (mode_or req.presigned_mode proxy)
    s ← ask (
        api.manager.create_store r.fresh.row_id
          (new_store tenant req enc (mode_or req.presigned_mode proxy)))
    pure (write_json 201 (store_body (to_store_dto s)))

  unfoldable pub list_stores : Request → Handler M S Response
  list_stores r = do
    tenant ← tenant_param api r
    ss ← ask (api.manager.list_stores tenant)
    pure (write_json 200 (stores_body (map to_store_dto ss)))

  unfoldable pub get_store : Request → Handler M S Response
  get_store r = do
    s ← verify_store_ownership api r
    pure (write_json 200 (store_body (to_store_dto s)))

  -- updateStoreBackend, once the store is known to be the tenant's.
  unfoldable pub replace_backend : Request → Store → Handler M S Response
  replace_backend r s = do
    req ← read_body (api.json.backend r.body)
    guard (not (lacks_config req.0)) 400 (bytes "backend_config is required")
    enc ← sealed_config r req.0 (mode_or req.1 s.presigned_mode)
    ask (api.manager.update_store_backend s.id s.tenant_id enc (mode_or req.1 s.presigned_mode))
    evict_backend s.id
    pure no_content

  unfoldable pub update_store_backend : Request → Handler M S Response
  update_store_backend r = verify_store_ownership api r >>= replace_backend r

  unfoldable pub get_store_cors : Request → Handler M S Response
  get_store_cors r = do
    s ← verify_store_ownership api r
    pure (write_json 200 (origins_body s.allowed_origins))

  unfoldable pub update_store_cors : Request → Handler M S Response
  update_store_cors r = do
    s ← verify_store_ownership api r
    origins ← read_body (api.json.origins r.body)
    ask (api.manager.update_store_allowed_origins s.id s.tenant_id origins)
    pure no_content

  unfoldable pub delete_store : Request → Handler M S Response
  delete_store r = do
    s ← verify_store_ownership api r
    ask (api.manager.delete_store s.id s.tenant_id)
    evict_backend s.id
    pure no_content
