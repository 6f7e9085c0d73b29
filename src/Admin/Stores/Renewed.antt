-- ===== src/Admin/Stores/Renewed.antt =====
-- internal/api/admin/stores.go, updateStoreBackend: what the data plane reads after it.
use storage_gateway.Prelude.{
  ℕ, ◌≡◌, refl, sym, ap, ◌∙◌, Bool, true, false, not, some, List, [], ◌∷◌, ==_iff, Str, bytes, find,
  any, length, Result, ok, err, ok_injective, err-ne-ok, continue_ok, continue, ◌>>=◌, ◌>>◌,
}
use mathlib.Core.Path.{subst}
use storage_gateway.Registry.{Store, PresignedMode, BucketMapping, ResolvedBucket, Error}
use storage_gateway.Registry.Db.{Db, has_gateway_bucket, has_id}
use storage_gateway.Registry.Db.Attempts.{attempt_reads, find_passes, some_injective}
use storage_gateway.Registry.Postgres
use storage_gateway.Registry.Postgres.Updated.{
  update_store_backend-resolved, get_store-found, get_store-stores, get_store-mappings,
}
use storage_gateway.Registry.Cache.{
  Cached, Uuids, inner, best_effort, invalidate_all, invalidate_bucket,
  invalidate_buckets_for_store,
}
use storage_gateway.Registry.Cache
use storage_gateway.Registry.Cache.Delegated
use storage_gateway.Registry.Cache.Fresh.{update_store_backend-fresh}
use storage_gateway.Backend.{Backend}
use storage_gateway.Backend.Pool.{Pool, build}
use storage_gateway.Backend.Pool
use storage_gateway.Backend.Pool.Fresh.{get-invalidate}
use storage_gateway.Crypto.{encrypt, decrypt}
use storage_gateway.Crypto.RoundTrip.{decrypt-encrypted}
use storage_gateway.S3.Handler.{World, get_value}
use storage_gateway.Admin.{Request, Response, decoded, no_content}
use storage_gateway.Admin.Access.{Api, Handler, guard, try_to}
use storage_gateway.Admin.Access.Passed.{own_ok, body_ok, guard_ok, try_ok, ask_ok}
use storage_gateway.Admin.Managers.{cached_manager}
use storage_gateway.Admin.Stores.{
  replace_backend, update_store_backend, lacks_config, valid_presigned_mode, mode_or,
}

sealed_ok :
    {M S B E : Type 0} (w v : World M S) (b : B) (t : Bool) (status : ℕ) (message failure : Str)
    (res : Result E Str) (f : Str → Handler M S B)
    → ((guard t status message >> try_to failure res) >>= f) w ≡ (ok b, v)
    → (enc : Str) × (res ≡ ok enc) × (f enc w ≡ (ok b, v))
sealed_ok w v b true status message failure res f h = try_ok w v b failure res f h
sealed_ok w v b false status message failure res f h = absurd (err-ne-ok h)

module _ {M S : Type 0} (api : Api M S) (r : Request) (s : Store) (w v : World M S)
    (res : Response) where
  replace_backend-steps :
      replace_backend api r s w ≡ (ok res, v)
      → (config : Str) × (given : PresignedMode) × (enc : Str) × (api.json.backend r.body
          ≡ decoded (config, given))
        × (encrypt api.gcm r.fresh.nonce api.crypto_key config ≡ ok enc)
        × ((api.manager.update_store_backend s.id s.tenant_id enc
              (mode_or given s.presigned_mode)
              w.mgr).0
            ≡ ok tt)
        × ((api.manager.update_store_backend s.id s.tenant_id enc
              (mode_or given s.presigned_mode)
              w.mgr).1
            ≡ v.mgr)
        × (Pool.invalidate s.id w.pool ≡ v.pool)
        × (res ≡ no_content)
  unfolding replace_backend
  replace_backend-steps h =
      let body = body_ok w v res (bytes "invalid request body") (api.json.backend r.body) _ h in
      let given =
        guard_ok w v res (not (lacks_config body.0.0)) 400 (bytes "backend_config is required") _
          body.2 in
      let mode = mode_or body.0.1 s.presigned_mode in
      let enc =
        sealed_ok w v res (valid_presigned_mode mode) 400
          (bytes "presigned_mode must be proxy or redirect")
          (bytes "failed to encrypt backend config")
          (encrypt api.gcm r.fresh.nonce api.crypto_key body.0.0) _ given.1 in
      let last =
        ask_ok w v res (api.manager.update_store_backend s.id s.tenant_id enc.0 mode) _ enc.2 in
      (
        body.0.0,
        body.0.1,
        enc.0,
        body.1,
        enc.1,
        last.1,
        ap (λ p. p.1.mgr) last.2,
        ap (λ p. p.1.pool) last.2,
        sym (ok_injective (ap (λ p. p.0) last.2)),
      )

both : {A B : Type 0} (p : A × B) (a : A) (b : B) → p.0 ≡ a → p.1 ≡ b → p ≡ (a, b)
both p a b h k = cc

invalidate_all-db : (bms : List BucketMapping) (c : Cached) → (invalidate_all bms c).db ≡ c.db
unfolding invalidate_all invalidate_bucket
invalidate_all-db [] c = refl
invalidate_all-db (bm ∷ bms) c = invalidate_all-db bms (invalidate_bucket bm.gateway_bucket c)

evicted-stores :
    (res : Result Error (List BucketMapping)) (c : Cached)
    → (continue res (λ bms. best_effort (invalidate_all bms)) c).1.db.stores ≡ c.db.stores
evicted-stores (ok bms) c = ap (λ (d : Db). d.stores) (invalidate_all-db bms c)
evicted-stores (err e) c = refl

invalidated-stores :
    (id : ℕ) (c : Cached) → (invalidate_buckets_for_store id c).1.db.stores ≡ c.db.stores
unfolding invalidate_buckets_for_store Postgres.list_bucket_mappings
invalidated-stores id c =
    let listed = inner (Postgres.list_bucket_mappings id) c in
    evicted-stores listed.0 listed.1
    ∙ attempt_reads (λ d. d.stores) c.db.faults (λ d. ok (Postgres.mappings_of id d)) c.db
        (λ gs. refl)

get_store_named :
    (id : ℕ) (c : Cached) (s : Store) → (Delegated.get_store id c).0 ≡ ok s → s.id ≡ id
unfolding Delegated.get_store
get_store_named id c s g =
    (==_iff s.id id).0 (find_passes (has_id id) c.db.stores s (get_store-found id c.db s g))

module _ (u : Uuids) (ttl id : ℕ) (c t : Cached) (s : Store) (enc : Str)
    (mode : PresignedMode) where
  cached_update :
      (caller : ℕ) (gb : Str) (rb : ResolvedBucket)
      → c.redis.faults ≡ []
      → (Delegated.get_store id c).0 ≡ ok s
      → any (has_gateway_bucket gb) (Postgres.mappings_of id c.db) ≡ true
      → Cache.update_store_backend s.id s.tenant_id enc mode (Delegated.get_store id c).1
        ≡ (ok tt, t)
      → (Postgres.resolve_bucket caller gb t.db).0 ≡ ok rb
      → rb.store_id ≡ id
      → (rb.backend_config_enc ≡ enc) × ((Cache.resolve_bucket u ttl caller gb t).0 ≡ ok rb)
  unfolding Delegated.get_store Cache.update_store_backend
  cached_update caller gb rb up g mapped h found si =
      let d = (Delegated.get_store id c).1 in
      let same = get_store_named id c s g in
      let step =
        continue_ok (inner (Postgres.update_store_backend s.id s.tenant_id enc mode) d).0
          (λ x. invalidate_buckets_for_store s.id)
          (inner (Postgres.update_store_backend s.id s.tenant_id enc mode) d).1 t tt h in
      let there : find (has_id s.id) d.db.stores ≡ some s =
        ap (λ j. find (has_id j) d.db.stores) same
        ∙ ap (find (has_id id)) (get_store-stores id c.db)
        ∙ get_store-found id c.db s g in
      let still : any (has_gateway_bucket gb) (Postgres.mappings_of s.id d.db) ≡ true =
        ap (λ j. any (has_gateway_bucket gb) (Postgres.mappings_of j d.db)) same
        ∙ ap
            (λ bms.
              any (has_gateway_bucket gb)
                (Postgres.mappings_of id (record c.db { bucket_mappings = bms })))
            (get_store-mappings id c.db)
        ∙ mapped in
      (
        update_store_backend-resolved s.id s.tenant_id enc mode d.db s t.db caller gb rb there
            ((==_iff s.tenant_id s.tenant_id).1 refl) step.1
            (ap (λ p. p.1.db.stores) (sym step.2)
              ∙ invalidated-stores s.id
                  (inner (Postgres.update_store_backend s.id s.tenant_id enc mode) d).1)
            found (si ∙ sym same),
        update_store_backend-fresh u ttl s.id s.tenant_id enc mode caller gb d t up still h ∙ found,
      )

-- With the cache while Redis is up, and with nonces of twelve bytes: when updateStoreBackend returns
-- for a store to which a gateway bucket is mapped, it has answered with status 204. If Postgres then
-- resolves the bucket, for any tenant, to a bucket of that store from which a backend can be built, the
-- cache resolves it to the same, its configuration decrypts to the one of the request's body, and the
-- pool gives the backend that is built from it.
pub update_store_backend-renewed :
    {S : Type 0} (api : Api Cached S) (ttl : ℕ) (r : Request) (w v : World Cached S)
    (res : Response) (id caller : ℕ) (gb : Str) (rb : ResolvedBucket) (be : Backend S)
    → api.manager ≡ cached_manager
    → w.mgr.redis.faults ≡ []
    → ((n : Str) → r.fresh.nonce ≡ some n → length n ≡ 12)
    → api.uuids.parse (get_value (bytes "storeID") r.params) ≡ some id
    → any (has_gateway_bucket gb) (Postgres.mappings_of id w.mgr.db) ≡ true
    → update_store_backend api r w ≡ (ok res, v)
    → (Postgres.resolve_bucket caller gb v.mgr.db).0 ≡ ok rb
    → rb.store_id ≡ id
    → build api.providers rb ≡ ok be
    → (config : Str) × (given : PresignedMode) × (res ≡ no_content)
      × (api.json.backend r.body ≡ decoded (config, given))
      × (decrypt api.gcm api.crypto_key rb.backend_config_enc ≡ ok config)
      × ((Cache.resolve_bucket api.uuids ttl caller gb v.mgr).0 ≡ ok rb)
      × ((Pool.get api.providers rb v.pool).0 ≡ ok be)
unfolding update_store_backend cached_manager Delegated.get_store
update_store_backend-renewed api ttl r w v res id caller gb rb be cm up sized i mapped h found si
      bu =
    let own = own_ok w v res api r (replace_backend api r) h in
    let s = own.2 in
    let start : World Cached _ = record w { mgr = (api.manager.get_store own.1 w.mgr).1 } in
    let done = replace_backend-steps api r s start v res own.6 in
    let this : own.1 ≡ id = some_injective (sym own.3 ∙ i) in
    let got = subst (λ m. (m.get_store own.1 w.mgr).0 ≡ ok s) cm own.4 in
    let cached =
      cached_update api.uuids ttl own.1 w.mgr v.mgr s done.2 (mode_or done.1 s.presigned_mode)
        caller gb rb up got
        (subst (λ j. any (has_gateway_bucket gb) (Postgres.mappings_of j w.mgr.db) ≡ true)
          (sym this) mapped)
        (subst
          (λ m.
            m.update_store_backend s.id s.tenant_id done.2 (mode_or done.1 s.presigned_mode)
              (m.get_store own.1 w.mgr).1
            ≡ (ok tt, v.mgr))
          cm
          (both
            (api.manager.update_store_backend s.id s.tenant_id done.2
              (mode_or done.1 s.presigned_mode) start.mgr)
            (ok tt) v.mgr done.5 done.6))
        found (si ∙ sym this) in
    (
      done.0,
      done.1,
      done.8,
      done.3,
      subst (λ e. decrypt api.gcm api.crypto_key e ≡ ok done.0) (sym cached.0)
          (decrypt-encrypted api.gcm api.crypto_key done.0 done.2 r.fresh.nonce sized done.4),
      cached.1,
      ap (λ p. (Pool.get api.providers rb p).0)
            (sym done.7
              ∙ ap (λ j. Pool.invalidate j w.pool)
                  (get_store_named own.1 w.mgr s got ∙ this ∙ sym si))
          ∙ (get-invalidate api.providers rb rb w.pool be bu refl).0,
    )
