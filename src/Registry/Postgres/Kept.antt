-- ===== src/Registry/Postgres/Kept.antt =====
-- internal/registry/postgres.go: the methods on tenants and access keys, and those that create or
-- update a store, keep the constraints of the schema.
use storage_gateway.Prelude.{
  ℕ, ◌≡◌, refl, Bool, ◌&&◌, ◌||◌, not, List, ◌∷◌, Str, str_eq, ◌==◌, any, find, arith, Bool-cases,
  Option-cases, inl, inr,
}
use storage_gateway.Registry.{Tenant, AccessKeyRow, Store, CreateStoreParams, PresignedMode}
use storage_gateway.Registry.Db.{
  Db, own_key, own_store, has_id, update_where, known_type, known_mode,
}
use storage_gateway.Registry.Db.WellFormed.{
  WellFormed, Keeps, statement-Keeps, Distinct-update, All-update, any-update, same_key, same_store,
  put_tenants, put_keys, put_stores, HasTenant, HasStore,
}
use storage_gateway.Registry.Postgres.{
  create_tenant, create_access_key, update_access_key_readonly, revoke_access_key, create_store,
  update_store_backend, update_store_allowed_origins, set_readonly, revoke_at, update_stores,
}

-- One more tenant keeps the references that hold.
pub more_tenants :
    (t : Tenant) (ts : List Tenant) (id : ℕ) → HasTenant ts id → HasTenant (t ∷ ts) id
unfolding any
more_tenants t ts id h = ground arith

pub more_stores : (s : Store) (ss : List Store) (id : ℕ) → HasStore ss id → HasStore (s ∷ ss) id
unfolding any
more_stores s ss id h = ground arith

pub create_tenant-Keeps : (id : ℕ) (name : Str) → Keeps (create_tenant id name)
unfolding create_tenant
create_tenant-Keeps id name = statement-Keeps _ λ db w.
    elim (Bool-cases (any (λ (t : Tenant). t.id == id || str_eq t.name name) db.tenants)) [
      | inl taken ↦ rw taken w
      | inr free ↦ rw free (put_tenants db w _ (free, w.tenants_unique) (more_tenants _ db.tenants))
    ]

pub create_access_key-Keeps :
    (id tenant : ℕ) (ak secret : Str) (b : Bool) → Keeps (create_access_key id tenant ak secret b)
unfolding create_access_key
create_access_key-Keeps id tenant ak secret b = statement-Keeps _ λ db w.
    elim (Bool-cases
      (any (λ (r : AccessKeyRow). r.id == id || str_eq r.access_key ak) db.access_keys)) [
        | inl taken ↦ rw taken w
        | inr free ↦ elim (Bool-cases (any (λ (t : Tenant). t.id == tenant) db.tenants)) [
          | inr missing ↦ rw (free, missing) w
          | inl there ↦
              rw (free, there) (put_keys db w _ (free, w.keys_unique) (there, w.key_tenants))
        ]
      ]

-- An update that leaves the key's id, name and tenant alone.
update_keys-WellFormed :
    (p : AccessKeyRow → Bool) (f : AccessKeyRow → AccessKeyRow)
    → ((r : AccessKeyRow) → (f r).id ≡ r.id)
    → ((r : AccessKeyRow) → (f r).access_key ≡ r.access_key)
    → ((r : AccessKeyRow) → (f r).tenant_id ≡ r.tenant_id)
    → (db : Db) → WellFormed db
    → WellFormed (record db { access_keys = update_where p f db.access_keys })
update_keys-WellFormed p f i k t db w =
    put_keys db w _
      (Distinct-update p f same_key db.access_keys (λ x y. rw (i x, k x) refl)
        (λ x y. rw (i y, k y) refl) w.keys_unique)
      (All-update p f _ db.access_keys (λ r h. rw (t r) h) w.key_tenants)

pub update_access_key_readonly-Keeps :
    (id tenant : ℕ) (b : Bool) → Keeps (update_access_key_readonly id tenant b)
unfolding update_access_key_readonly
update_access_key_readonly-Keeps id tenant b = statement-Keeps _ λ db w.
    elim (Option-cases (find (own_key id tenant) db.access_keys)) [
      | inl missing ↦ rw missing w
      | inr (r, found) ↦ rw found (
          update_keys-WellFormed (own_key id tenant) (set_readonly b) (λ r. refl) (λ r. refl)
            (λ r. refl) db w)
    ]

pub revoke_access_key-Keeps : (id tenant : ℕ) → Keeps (revoke_access_key id tenant)
unfolding revoke_access_key
revoke_access_key-Keeps id tenant = statement-Keeps _ λ db w.
    elim (Option-cases (find (own_key id tenant) db.access_keys)) [
      | inl missing ↦ rw missing w
      | inr (r, found) ↦ rw found (
          update_keys-WellFormed (own_key id tenant) (revoke_at db.now) (λ r. refl) (λ r. refl)
            (λ r. refl) db w)
    ]

pub create_store-Keeps : (id : ℕ) (p : CreateStoreParams) → Keeps (create_store id p)
unfolding create_store
create_store-Keeps id p = statement-Keeps _ λ db w.
    elim (Bool-cases (known_type p.backend_type && known_mode p.presigned_mode)) [
      | inr bad ↦ rw bad w
      | inl good ↦
          elim (Bool-cases (
            any (λ (s : Store). s.id == id || (s.tenant_id == p.tenant_id && str_eq s.name p.name))
              db.stores)) [
                | inl taken ↦ rw (good, taken) w
                | inr free ↦
                    elim (Bool-cases (any (λ (t : Tenant). t.id == p.tenant_id) db.tenants)) [
                      | inr missing ↦ rw (good, free, missing) w
                      | inl there ↦
                          rw (good, free, there)
                            (put_stores db w _ (free, w.stores_unique) (there, w.store_tenants)
                              (more_stores _ db.stores))
                    ]
              ]
    ]

-- An UPDATE of a store that leaves its id, name and tenant alone.
update_stores-WellFormed :
    (id tenant : ℕ) (f : Store → Store)
    → ((s : Store) → (f s).id ≡ s.id)
    → ((s : Store) → (f s).name ≡ s.name)
    → ((s : Store) → (f s).tenant_id ≡ s.tenant_id)
    → (db : Db) → WellFormed db
    → WellFormed (update_stores id tenant f db).1
update_stores-WellFormed id tenant f i n t db w =
    elim (Bool-cases (any (own_store id tenant) db.stores)) [
      | inr missing ↦ rw missing w
      | inl there ↦ rw there (
          put_stores db w _
            (Distinct-update (own_store id tenant) f same_store db.stores
              (λ x y. rw (i x, n x, t x) refl) (λ x y. rw (i y, n y, t y) refl) w.stores_unique)
            (All-update (own_store id tenant) f _ db.stores (λ s h. rw (t s) h) w.store_tenants)
            (λ k h.
              rw (any-update (own_store id tenant) f (has_id k) db.stores (λ s. rw (i s) refl)) h))
    ]

pub update_store_backend-Keeps :
    (id tenant : ℕ) (config : Str) (mode : PresignedMode)
    → Keeps (update_store_backend id tenant config mode)
unfolding update_store_backend
update_store_backend-Keeps id tenant config mode = statement-Keeps _ λ db w.
    elim (Bool-cases (any (own_store id tenant) db.stores && not (known_mode mode))) [
      | inl bad ↦ rw bad w
      | inr good ↦ rw good (
          update_stores-WellFormed id tenant
            (λ s. record s {
              backend_config_enc = config;
              presigned_mode = mode;
              updated_at = db.now;
            })
            (λ s. refl) (λ s. refl) (λ s. refl) db w)
    ]

pub update_store_allowed_origins-Keeps :
    (id tenant : ℕ) (origins : List Str) → Keeps (update_store_allowed_origins id tenant origins)
unfolding update_store_allowed_origins
update_store_allowed_origins-Keeps id tenant origins = statement-Keeps _ λ db w.
    update_stores-WellFormed id tenant
      (λ s. record s { allowed_origins = origins; updated_at = db.now }) (λ s. refl) (λ s. refl)
      (λ s. refl) db w
