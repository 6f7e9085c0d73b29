-- ===== src/Admin/Stores/Stale.antt =====
-- internal/api/admin/stores.go, updateStoreBackend over cachedRegistry: the eviction that fails after
-- the UPDATE has succeeded.
use storage_gateway.Prelude.{
  ℕ, ◌≡◌, refl, sym, inl, inr, Bool, true, false, some, List, [], ◌∷◌, arith, Bool-cases, ==_iff,
  Str, bytes, find, any, ok, err,
}
use mathlib.Core.Path.{subst}
use storage_gateway.Registry.{Store, PresignedMode, proxy, redirect, unknown_mode, other}
use storage_gateway.Registry.Db.{has_id, own_store, update_where, known_mode}
use storage_gateway.Registry.Postgres
use storage_gateway.Registry.Postgres.Updated.{with_config}
use storage_gateway.Registry.Cache.{Cached, invalidate_buckets_for_store}
use storage_gateway.Registry.Cache
use storage_gateway.Registry.Cache.Delegated
use storage_gateway.Crypto.{encrypt}
use storage_gateway.S3.Handler.{World, get_value}
use storage_gateway.Admin.{Request, decoded, handle_err}
use storage_gateway.Admin.Access.{Api}
use storage_gateway.Admin.Access.Passed.{own_lookup}
use storage_gateway.Admin.Managers.{cached_manager}
use storage_gateway.Admin.Stores.{
  replace_backend, update_store_backend, lacks_config, valid_presigned_mode, mode_or,
}

valid→known : (m : PresignedMode) → valid_presigned_mode m ≡ true → known_mode m ≡ true
valid→known proxy h = refl
valid→known redirect h = refl
valid→known (unknown_mode _) h = h

found-any :
    {A : Type 0} (p q : A → Bool) (xs : List A) (x : A)
    → find p xs ≡ some x
    → q x ≡ true
    → any q xs ≡ true
unfolding find any
found-any p q [] x h t = cc
found-any p q (y ∷ xs) x h t = elim (Bool-cases (p y)) [
  | inl here ↦ ground (arith, rw here at h)
  | inr later ↦ ground (arith, found-any p q xs x (rw later at h) t)
]

-- The state after the UPDATE and the listing that fails.
abbrev pub written : Store → Str → PresignedMode → List Bool → Cached → Cached
written s enc mode fs c = record c {
  db = record c.db {
    stores = update_where (own_store s.id s.tenant_id) (with_config enc mode c.db.now) c.db.stores;
    faults = fs;
  };
}

module _ (s : Store) (enc : Str) (mode : PresignedMode) (fs : List Bool) (c : Cached) where
  lookup_runs :
      (id : ℕ) (gs : List Bool)
      → c.db.faults ≡ false ∷ gs
      → find (has_id id) c.db.stores ≡ some s
      → Delegated.get_store id c ≡ (ok s, record c { db = record c.db { faults = gs } })
  unfolding Delegated.get_store Postgres.get_store
  lookup_runs id gs h f = rw (h, f) refl

  update_fails :
      c.db.faults ≡ false ∷ true ∷ fs
      → any (own_store s.id s.tenant_id) c.db.stores ≡ true
      → known_mode mode ≡ true
      → Cache.update_store_backend s.id s.tenant_id enc mode c
        ≡ (err other, written s enc mode fs c)
  unfolding Cache.update_store_backend Postgres.update_store_backend invalidate_buckets_for_store
      Postgres.list_bucket_mappings
  update_fails h o k = rw (h, o, k) refl

-- With the cache, when the database answers GetStore and the UPDATE of updateStoreBackend and fails
-- the listing of the store's buckets behind them: a valid request of the store's tenant is answered
-- with status 500, although the row has the new configuration; nothing is taken out of Redis or of the
-- pool.
pub update_store_backend-unevicted :
    {S : Type 0} (api : Api Cached S) (r : Request) (w : World Cached S) (fs : List Bool)
    (tenant id : ℕ) (s : Store) (config enc : Str) (given : PresignedMode)
    → api.manager ≡ cached_manager
    → w.mgr.db.faults ≡ false ∷ false ∷ true ∷ fs
    → api.uuids.parse (get_value (bytes "tenantID") r.params) ≡ some tenant
    → api.uuids.parse (get_value (bytes "storeID") r.params) ≡ some id
    → find (has_id id) w.mgr.db.stores ≡ some s
    → s.tenant_id ≡ tenant
    → api.json.backend r.body ≡ decoded (config, given)
    → lacks_config config ≡ false
    → valid_presigned_mode (mode_or given s.presigned_mode) ≡ true
    → encrypt api.gcm r.fresh.nonce api.crypto_key config ≡ ok enc
    → update_store_backend api r w ≡ (
      err (handle_err other),
      record w { mgr = written s enc (mode_or given s.presigned_mode) fs w.mgr },
    )
unfolding update_store_backend replace_backend cached_manager
update_store_backend-unevicted api r w fs tenant id s config enc given cm h t i f o b l v e =
    let mode = mode_or given s.presigned_mode in
    let c : Cached = record w.mgr { db = record w.mgr.db { faults = false ∷ true ∷ fs } } in
    let own : any (own_store s.id s.tenant_id) w.mgr.db.stores ≡ true =
      found-any (has_id id) (own_store s.id s.tenant_id) w.mgr.db.stores s f (
        unfold own_store in
        rw ((==_iff s.id s.id).1 refl, (==_iff s.tenant_id s.tenant_id).1 refl) refl) in
    let g : api.manager.get_store id w.mgr ≡ (ok s, c) =
      subst (λ m. m.get_store id w.mgr ≡ (ok s, c)) (sym cm)
        (lookup_runs s enc mode fs w.mgr id (false ∷ true ∷ fs) h f) in
    let u : api.manager.update_store_backend s.id s.tenant_id enc mode c
        ≡ (err other, written s enc mode fs w.mgr) =
      subst
        (λ m.
          m.update_store_backend s.id s.tenant_id enc mode c
          ≡ (err other, written s enc mode fs w.mgr))
        (sym cm) (update_fails s enc mode fs c refl own (valid→known mode v)) in
    rw (own_lookup api r w tenant id c s t i g, (==_iff s.tenant_id tenant).1 o, b, l, v, e, u) refl
