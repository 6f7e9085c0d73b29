-- ===== src/Registry/Postgres/Updated.antt =====
-- internal/registry/postgres.go: what UpdateStoreBackend leaves for the resolutions after it.
use storage_gateway.Prelude.{
  ℕ, ◌≡◌, refl, sym, ap, ◌∙◌, inl, inr, Bool, true, false, ◌&&◌, not, Option, none, some, List, [],
  ◌∷◌, ◌==◌, if◌then◌else◌, Bool-cases, Option-cases, Str, find, any, Result, ok, err, ok_injective,
  result-err-ne-ok,
}
use mathlib.Core.Path.{subst}
use storage_gateway.Registry.{
  Store, BucketMapping, ResolvedBucket, PresignedMode, Error, other, store_not_found,
}
use storage_gateway.Registry.Db.{
  Db, find_bucket, has_id, has_gateway_bucket, own_store, update_where, known_mode,
}
use storage_gateway.Registry.Db.Attempts.{
  attempt_ok, attempt_reads, find_passes, find-update_where, some_injective,
}
use storage_gateway.Registry.Postgres.{
  resolve_bucket, check_tenant, resolved, update_store_backend, get_store,
}

-- The row that FROM … JOIN gives has the store that its mapping names.
find_bucket-store :
    (gb : Str) (ss : List Store) (bms : List BucketMapping) (bm : BucketMapping) (s : Store)
    → find_bucket gb ss bms ≡ some (bm, s)
    → find (has_id bm.store_id) ss ≡ some s
unfolding find_bucket
find_bucket-store gb ss [] bm s h = cc
find_bucket-store gb ss (b ∷ bms) bm s h = elim (Bool-cases (has_gateway_bucket gb b)) [
  | inr apart ↦ find_bucket-store gb ss bms bm s (rw apart at h)
  | inl named ↦ elim (Option-cases (find (has_id b.store_id) ss)) [
    | inl dangling ↦ find_bucket-store gb ss bms bm s (rw (named, dangling) at h)
    | inr (t, there) ↦
        let same : ◌≡◌ {A = Option (BucketMapping × Store)} (some (b, t)) (some (bm, s)) =
          rw (named, there) at h in
        let row : ◌≡◌ {A = BucketMapping × Store} (b, t) (bm, s) = cc in
        subst (λ q. find (has_id q.0.store_id) ss ≡ some q.1) row there
  ]
]

module _ (tenant : ℕ) (gb : Str) (db : Db) (rb : ResolvedBucket) where
  checked :
      (o : Option (BucketMapping × Store))
      → find_bucket gb db.stores db.bucket_mappings ≡ o
      → check_tenant tenant gb o ≡ ok rb
      → (s : Store) × (find (has_id rb.store_id) db.stores ≡ some s)
        × (rb.backend_config_enc ≡ s.backend_config_enc)
  unfolding check_tenant
  checked none e h = absurd (result-err-ne-ok h)
  checked (some (bm, s)) e h = elim (Bool-cases (s.tenant_id == tenant)) [
    | inr foreign ↦ absurd (result-err-ne-ok (rw foreign at h))
    | inl own ↦
        let same : resolved gb bm s ≡ rb = ok_injective (rw own at h) in
        let at_store = find_bucket-store gb db.stores db.bucket_mappings bm s e in
        (
          s,
          subst (λ (q : ResolvedBucket). find (has_id q.store_id) db.stores ≡ some s) same at_store,
          ap (λ (q : ResolvedBucket). q.backend_config_enc) (sym same),
        )
  ]

  resolve_bucket-store :
      (resolve_bucket tenant gb db).0 ≡ ok rb
      → (s : Store) × (find (has_id rb.store_id) db.stores ≡ some s)
        × (rb.backend_config_enc ≡ s.backend_config_enc)
  unfolding resolve_bucket
  resolve_bucket-store h =
      let step = attempt_ok db.faults _ db rb h in
      checked (find_bucket gb db.stores db.bucket_mappings) refl (ap (λ p. p.0) (sym step.1) ∙ h)

abbrev pub with_config : Str → PresignedMode → ℕ → Store → Store
with_config config mode t s = record s {
  backend_config_enc = config;
  presigned_mode = mode;
  updated_at = t;
}

abbrev choose : Bool → Bool → List Store → Db → Result Error (Unit {0}) × Db
choose a b rows d =
    if a
    then (err other, d)
    else if b
    then (ok tt, record d { stores = rows })
    else (err store_not_found, d)

chosen :
    (a b : Bool) (rows : List Store) (d : Db)
    → (choose a b rows d).0 ≡ ok tt
    → (choose a b rows d).1.stores ≡ rows
chosen true b rows d h = absurd (result-err-ne-ok h)
chosen false true rows d h = refl
chosen false false rows d h = absurd (result-err-ne-ok h)

module _ (id tenant : ℕ) (config : Str) (mode : PresignedMode) (db : Db) where
  update_store_backend-rows :
      (update_store_backend id tenant config mode db).0 ≡ ok tt
      → (update_store_backend id tenant config mode db).1.stores
        ≡ update_where (own_store id tenant) (with_config config mode db.now) db.stores
  unfolding update_store_backend
  update_store_backend-rows h =
      let step = attempt_ok db.faults _ db tt h in
      ap (λ p. p.1.stores) step.1
      ∙ chosen (any (own_store id tenant) db.stores && not (known_mode mode))
          (any (own_store id tenant) db.stores)
          (update_where (own_store id tenant) (with_config config mode db.now) db.stores)
          (record db { faults = step.0 }) (ap (λ p. p.0) (sym step.1) ∙ h)

  -- A resolution that gives a bucket of the updated store gives it the new configuration.
  pub update_store_backend-resolved :
      (s : Store) (after : Db) (caller : ℕ) (gb : Str) (rb : ResolvedBucket)
      → find (has_id id) db.stores ≡ some s
      → (s.tenant_id == tenant) ≡ true
      → (update_store_backend id tenant config mode db).0 ≡ ok tt
      → after.stores ≡ (update_store_backend id tenant config mode db).1.stores
      → (resolve_bucket caller gb after).0 ≡ ok rb
      → rb.store_id ≡ id
      → rb.backend_config_enc ≡ config
  unfolding own_store
  update_store_backend-resolved s after caller gb rb f t u e h i =
      let row = resolve_bucket-store caller gb after rb h in
      let new =
        find-update_where (has_id id) (own_store id tenant) (with_config config mode db.now)
          db.stores s (λ y. refl) f (rw (find_passes (has_id id) db.stores s f, t) refl) in
      let same : some row.0 ≡ some (with_config config mode db.now s) =
        sym row.1
        ∙ ap (λ j. find (has_id j) after.stores) i
        ∙ ap (find (has_id id)) (e ∙ update_store_backend-rows u)
        ∙ new in
      row.2 ∙ ap (λ (o : Store). o.backend_config_enc) (some_injective same)

-- GetStore gives the row with the id, and reads.
pub get_store-found :
    (id : ℕ) (db : Db) (s : Store)
    → (get_store id db).0 ≡ ok s
    → find (has_id id) db.stores ≡ some s
unfolding get_store
get_store-found id db s h =
    let step = attempt_ok db.faults _ db s h in
    elim (Option-cases (find (has_id id) db.stores)) [
      | inl missing ↦ absurd (result-err-ne-ok (rw missing at (ap (λ p. p.0) (sym step.1) ∙ h)))
      | inr (t, there) ↦
          let same : ◌≡◌ {A = Result Error Store} (ok t) (ok s) =
            rw there at (ap (λ p. p.0) (sym step.1) ∙ h) in
          there ∙ ap some (ok_injective same)
    ]

pub get_store-stores : (id : ℕ) (db : Db) → (get_store id db).1.stores ≡ db.stores
unfolding get_store
get_store-stores id db = attempt_reads (λ d. d.stores) db.faults _ db (λ gs. refl)

pub get_store-mappings :
    (id : ℕ) (db : Db) → (get_store id db).1.bucket_mappings ≡ db.bucket_mappings
unfolding get_store
get_store-mappings id db = attempt_reads (λ d. d.bucket_mappings) db.faults _ db (λ gs. refl)
