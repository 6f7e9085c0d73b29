-- ===== src/Admin/Routes/Refused.antt =====
-- internal/api/admin/handler.go: requests that no handler of the admin API acts on.
use storage_gateway.Prelude.{
  ℕ, ◌≡◌, refl, sym, ap, ◌∙◌, inl, inr, Bool, true, false, ◌&&◌, not, some, List, [], ◌∷◌, ◌++◌,
  ◌==◌, if◌then◌else◌, Bool-cases, Str, bytes, str_eq, is_empty, ok, err, pure, continue, ◌>>=◌,
  ◌>>◌,
}
use mathlib.Core.Bool.{true≢false}
use storage_gateway.Registry.{Store}
use storage_gateway.S3.Handler.{World, get_value}
use storage_gateway.Admin.{Request, Response, no_body, failure, write_error, write_json}
use storage_gateway.Admin.Access.{Api, Handler, guard, verify_store_ownership}
use storage_gateway.Admin.Access.Passed.{own_lookup}
use storage_gateway.Admin.Middleware.{bearer_auth, cors_middleware}
use storage_gateway.Admin.Browse.{resolve_browse_context}
use storage_gateway.Admin.Stores
use storage_gateway.Admin.Buckets
use storage_gateway.Admin.Browse
use storage_gateway.Admin.Routes.{
  Operation, list_tenants, create_tenant, get_tenant, create_access_key, list_access_keys,
  update_access_key_readonly, revoke_access_key, create_store, list_stores, get_store,
  update_store_backend, get_store_cors, update_store_cors, delete_store, create_bucket_mapping,
  list_bucket_mappings, delete_bucket_mapping, browse_objects, browse_metadata, browse_presign,
  browse_size_stream, handler, serve,
}

-- The operations whose pattern has a store.
unfoldable pub on_store : Operation → Bool
on_store list_tenants = false
on_store create_tenant = false
on_store get_tenant = false
on_store create_access_key = false
on_store list_access_keys = false
on_store update_access_key_readonly = false
on_store revoke_access_key = false
on_store create_store = false
on_store list_stores = false
on_store _ = true

module _ {M S : Type 0} where
  -- What ends a first part ends the whole.
  stops :
      {A B : Type 0} (m : Handler M S A) (f : A → Handler M S B) (w v : World M S) (res : Response)
      → m w ≡ (err res, v)
      → (m >>= f) w ≡ (err res, v)
  stops m f w v res h = ap (λ p. continue p.0 f p.1) h

  module _ (api : Api M S) (r : Request) (w : World M S) (v : World M S) (res : Response) where
    browse_stops :
        verify_store_ownership api r w ≡ (err res, v)
        → resolve_browse_context api r w ≡ (err res, v)
    unfolding resolve_browse_context
    browse_stops h = stops (verify_store_ownership api r) _ w v res h

    handler_stops :
        (n : ℕ) (op : Operation)
        → on_store op ≡ true
        → verify_store_ownership api r w ≡ (err res, v)
        → handler api n op r w ≡ (err res, v)
    unfolding handler on_store Stores.get_store Stores.update_store_backend Stores.get_store_cors
        Stores.update_store_cors Stores.delete_store Buckets.create_bucket_mapping
        Buckets.list_bucket_mappings Buckets.delete_bucket_mapping Browse.browse_objects
        Browse.browse_metadata Browse.browse_presign Browse.browse_size_stream
    handler_stops n get_store o h = stops (verify_store_ownership api r) _ w v res h
    handler_stops n update_store_backend o h = stops (verify_store_ownership api r) _ w v res h
    handler_stops n get_store_cors o h = stops (verify_store_ownership api r) _ w v res h
    handler_stops n update_store_cors o h = stops (verify_store_ownership api r) _ w v res h
    handler_stops n delete_store o h = stops (verify_store_ownership api r) _ w v res h
    handler_stops n create_bucket_mapping o h = stops (verify_store_ownership api r) _ w v res h
    handler_stops n list_bucket_mappings o h = stops (verify_store_ownership api r) _ w v res h
    handler_stops n delete_bucket_mapping o h = stops (verify_store_ownership api r) _ w v res h
    handler_stops n browse_objects o h =
        stops (resolve_browse_context api r) _ w v res (browse_stops h)
    handler_stops n browse_metadata o h =
        stops (resolve_browse_context api r) _ w v res (browse_stops h)
    handler_stops n browse_presign o h =
        stops (resolve_browse_context api r) _ w v res (browse_stops h)
    handler_stops n browse_size_stream o h =
        stops (resolve_browse_context api r) _ w v res (browse_stops h)
    handler_stops n _ o h = absurd (true≢false (sym o))

  -- A request on a store that GetStore finds with another tenant than the path's is answered with
  -- status 404 by every handler of the routes under a store, and nothing is changed beyond what
  -- GetStore did to the manager's state: no backend is built or dropped and no upstream is called.
  pub handler-foreign :
      (api : Api M S) (n : ℕ) (op : Operation) (r : Request) (w : World M S) (tenant id : ℕ) (m : M)
      (s : Store)
      → on_store op ≡ true
      → api.uuids.parse (get_value (bytes "tenantID") r.params) ≡ some tenant
      → api.uuids.parse (get_value (bytes "storeID") r.params) ≡ some id
      → api.manager.get_store id w.mgr ≡ (ok s, m)
      → (s.tenant_id == tenant) ≡ false
      → handler api n op r w
        ≡ (err (write_error 404 (bytes "store not found")), record w { mgr = m })
  handler-foreign api n op r w tenant id m s o t i g f =
      let v : World M S = record w { mgr = m } in
      let refused = (write_error 404 (bytes "store not found")) in
      handler_stops api r w v refused n op o (
        own_lookup api r w tenant id m s t i g
        ∙ ap (λ b. ((guard b 404 (bytes "store not found") >> pure s) v)) f)

  -- A request whose Authorization header is not "Bearer " and the admin token changes nothing,
  -- whatever its operation. It is answered with status 401 and an error, but for a preflight
  -- request while CORS is on, which gets status 204 and no body.
  pub serve-unauthorized :
      (api : Api M S) (n : ℕ) (token : Str) (origins : List Str) (op : Operation) (r : Request)
      (w : World M S)
      → str_eq (get_value (bytes "Authorization") r.headers) (bytes "Bearer " ++ token) ≡ false
      → ((serve api n token origins op r w).1 ≡ w)
        × ((serve api n token origins op r w).0.status
            ≡ (if not (is_empty origins) && str_eq r.verb (bytes "OPTIONS") then 204 else 401))
        × ((serve api n token origins op r w).0.body ≡ (
            if not (is_empty origins) && str_eq r.verb (bytes "OPTIONS")
            then no_body
            else failure (bytes "invalid or missing admin token")))
  unfolding serve cors_middleware bearer_auth write_error write_json
  serve-unauthorized api n token [] op r w h = rw h (refl, refl, refl)
  serve-unauthorized api n token (o ∷ origins) op r w h =
      elim (Bool-cases (str_eq r.verb (bytes "OPTIONS"))) [
        | inl preflight ↦ rw preflight (refl, refl, refl)
        | inr other ↦ rw (other, h) (refl, refl, refl)
      ]
