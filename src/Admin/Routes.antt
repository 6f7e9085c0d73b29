-- ===== src/Admin/Routes.antt =====
-- internal/api/admin/handler.go: New. The matching of a path with a pattern is package chi's; a
-- request comes here with the operation whose pattern it matched, or none.
pub mod Refused
use storage_gateway.Prelude.{
  ℕ, zero, suc, ◌+◌, ◌-◌, ◌*◌, ◌/◌, ◌%◌, ◌^◌, ◌≤◌, ◌<◌, ◌≡◌, refl, sym, ap, ◌∙◌, fun_ext, ◌≢◌, ◌↔◌,
  ◌⊎◌, inl, inr, Bool, true, false, ◌&&◌, ◌||◌, not, Option, none, some, List, [], ◌∷◌, ◌++◌, map,
  append_assoc, append-nil, arith, ltb, leb, ◌==◌, if◌then◌else◌, Bool-cases, Option-cases, ltb→lt,
  lt→ltb, leb→le, Str, bytes, str_eq, str_eq_iff, str_eq_refl, is_empty, sort_strings, mem_str,
  str_leb, has_prefix, trim_prefix, cut_byte, IsFree, All, filter, find, any, length, take, drop,
  length-append, length-drop, take-append, drop-append, Result, ok, err, ok_injective, err-ne-ok,
  continue_ok, Exec, pure, raise, lift, continue, ◌>>=◌, ◌>>◌,
}
use storage_gateway.S3.Handler.{World}
use storage_gateway.Admin.{Request, Response}
use storage_gateway.Admin.Access.{Api, Handler}
use storage_gateway.Admin.Middleware.{bearer_auth, cors_middleware, outcome}
use storage_gateway.Admin.Tenants
use storage_gateway.Admin.Keys
use storage_gateway.Admin.Stores
use storage_gateway.Admin.Buckets
use storage_gateway.Admin.Browse

-- The handlers that the routes name.
pub data Operation : Type 0 where
  list_tenants create_tenant get_tenant : Operation
  create_access_key list_access_keys update_access_key_readonly revoke_access_key : Operation
  create_store list_stores get_store update_store_backend : Operation
  get_store_cors update_store_cors delete_store : Operation
  create_bucket_mapping list_bucket_mappings delete_bucket_mapping : Operation
  browse_objects browse_metadata browse_presign browse_size_stream : Operation

abbrev pub trim_right : Str → Str
trim_right [] = []
trim_right (x ∷ s) = let rest = trim_right s in if is_empty rest && x == b'/' then [] else x ∷ rest

unfoldable pub normalise : Str → Str
normalise base =
    trim_right
      (if not (is_empty base) && not (has_prefix base (b'/' ∷ [])) then b'/' ∷ base else base)

abbrev tenant_path : Str
tenant_path = bytes "/tenants/{tenantID}"

abbrev store_path : Str
store_path = bytes "/tenants/{tenantID}/stores/{storeID}"

abbrev browse_path : Str
browse_path = bytes "/tenants/{tenantID}/stores/{storeID}/buckets/{mappingID}/browse"

abbrev under : Str → List (Str × Str × Operation) → List (Str × Str × Operation)
under path rs = map (λ (r : Str × Str × Operation). (r.0, path ++ r.1, r.2)) rs

-- Method, pattern and handler of each route.
unfoldable pub routes : Str → List (Str × Str × Operation)
routes base = under (normalise base) (
    (bytes "GET", bytes "/tenants/", list_tenants)
      ∷ (bytes "POST", bytes "/tenants/", create_tenant)
      ∷ (bytes "GET", tenant_path, get_tenant)
      ∷ under tenant_path (
          (bytes "POST", bytes "/keys/", create_access_key)
          ∷ (bytes "GET", bytes "/keys/", list_access_keys)
          ∷ (bytes "PUT", bytes "/keys/{keyID}/readonly", update_access_key_readonly)
          ∷ (bytes "DELETE", bytes "/keys/{keyID}", revoke_access_key)
          ∷ (bytes "POST", bytes "/stores/", create_store)
          ∷ (bytes "GET", bytes "/stores/", list_stores)
          ∷ [])
    ++ under store_path (
        (bytes "GET", [], get_store)
        ∷ (bytes "PUT", bytes "/backend", update_store_backend)
        ∷ (bytes "GET", bytes "/cors", get_store_cors)
        ∷ (bytes "PUT", bytes "/cors", update_store_cors)
        ∷ (bytes "DELETE", [], delete_store)
        ∷ (bytes "POST", bytes "/buckets/", create_bucket_mapping)
        ∷ (bytes "GET", bytes "/buckets/", list_bucket_mappings)
        ∷ (bytes "DELETE", bytes "/buckets/{mappingID}", delete_bucket_mapping)
        ∷ [])
    ++ under browse_path (
        (bytes "GET", b'/' ∷ [], browse_objects)
        ∷ (bytes "GET", bytes "/metadata", browse_metadata)
        ∷ (bytes "POST", bytes "/presign", browse_presign)
        ∷ (bytes "GET", bytes "/size-stream", browse_size_stream)
        ∷ []))

module _ {M S : Type 0} (api : Api M S) where
  -- The handler of an operation, with a number of rounds for the size stream.
  unfoldable pub handler : ℕ → Operation → Request → Handler M S Response
  handler n list_tenants = Tenants.list_tenants api
  handler n create_tenant = Tenants.create_tenant api
  handler n get_tenant = Tenants.get_tenant api
  handler n create_access_key = Keys.create_access_key api
  handler n list_access_keys = Keys.list_access_keys api
  handler n update_access_key_readonly = Keys.update_access_key_readonly api
  handler n revoke_access_key = Keys.revoke_access_key api
  handler n create_store = Stores.create_store api
  handler n list_stores = Stores.list_stores api
  handler n get_store = Stores.get_store api
  handler n update_store_backend = Stores.update_store_backend api
  handler n get_store_cors = Stores.get_store_cors api
  handler n update_store_cors = Stores.update_store_cors api
  handler n delete_store = Stores.delete_store api
  handler n create_bucket_mapping = Buckets.create_bucket_mapping api
  handler n list_bucket_mappings = Buckets.list_bucket_mappings api
  handler n delete_bucket_mapping = Buckets.delete_bucket_mapping api
  handler n browse_objects = Browse.browse_objects api
  handler n browse_metadata = Browse.browse_metadata api
  handler n browse_presign = Browse.browse_presign api
  handler n browse_size_stream = Browse.browse_size_stream api n

  -- A request whose path matched the pattern of an operation, behind the middleware of New.
  unfoldable pub serve : ℕ → Str → List Str → Operation → Request → World M S → Response × World M S
  serve n token origins op r w =
      let served = bearer_auth token (handler n op) r w in
      if is_empty origins
      then (outcome served.0, served.1)
      else cors_middleware origins (bearer_auth token (handler n op)) r w
