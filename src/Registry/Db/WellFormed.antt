-- ===== src/Registry/Db/WellFormed.antt =====
-- The constraints of internal/db/migrations as an invariant: primary keys, unique names and
-- references. The lemmas say how the statements act on them.
use storage_gateway.Prelude.{
  ℕ, ◌≡◌, refl, fun_ext, Bool, true, false, ◌&&◌, ◌||◌, List, [], ◌∷◌, str_eq, ◌==◌, any, filter,
  All, arith, Bool-cases, inl, inr, Exec,
}
use storage_gateway.Registry.{Tenant, AccessKeyRow, Store, BucketMapping, MultipartUpload, Error}
use storage_gateway.Registry.Db.{Db, attempt, statement, has_gateway_bucket, has_id, update_where}

-- No row collides with a later one.
abbrev pub Distinct : {A : Type 0} → (A → A → Bool) → List A → Type 0
Distinct same [] = Unit
Distinct same (x ∷ xs) = (any (same x) xs ≡ false) × Distinct same xs

module _ {A : Type 0} where
  pub any-filter : (p q : A → Bool) (xs : List A) → any p xs ≡ false → any p (filter q xs) ≡ false
  unfolding any filter
  any-filter p q [] h = refl
  any-filter p q (x ∷ xs) h = ground (arith, any-filter p q xs)

  pub Distinct-filter :
      (same : A → A → Bool) (q : A → Bool) (xs : List A)
      → Distinct same xs
      → Distinct same (filter q xs)
  unfolding filter
  Distinct-filter same q [] h = tt
  Distinct-filter same q (x ∷ xs) (n, h) = elim (Bool-cases (q x)) [
    | inl keep ↦ rw keep (any-filter (same x) q xs n, Distinct-filter same q xs h)
    | inr drop ↦ rw drop (Distinct-filter same q xs h)
  ]

  pub All-filter : (P : A → Type 0) (q : A → Bool) (xs : List A) → All P xs → All P (filter q xs)
  unfolding filter
  All-filter P q [] h = tt
  All-filter P q (x ∷ xs) (p, h) = elim (Bool-cases (q x)) [
    | inl keep ↦ rw keep (p, All-filter P q xs h)
    | inr drop ↦ rw drop (All-filter P q xs h)
  ]

  -- What holds where the filter passes holds of all that is left.
  pub All-filter_pass :
      (P Q : A → Type 0) (q : A → Bool) (xs : List A)
      → ((x : A) → q x ≡ true → P x → Q x)
      → All P xs
      → All Q (filter q xs)
  unfolding filter
  All-filter_pass P Q q [] f h = tt
  All-filter_pass P Q q (x ∷ xs) f (p, h) = elim (Bool-cases (q x)) [
    | inl keep ↦ rw keep (f x keep p, All-filter_pass P Q q xs f h)
    | inr drop ↦ rw drop (All-filter_pass P Q q xs f h)
  ]

  pub All-imp : (P Q : A → Type 0) (xs : List A) → ((x : A) → P x → Q x) → All P xs → All Q xs
  All-imp P Q [] f h = tt
  All-imp P Q (x ∷ xs) f (p, h) = (f x p, All-imp P Q xs f h)

  pub any-filter_pass :
      (p q : A → Bool) (xs : List A)
      → ((x : A) → p x ≡ true → q x ≡ true)
      → any p xs ≡ true
      → any p (filter q xs) ≡ true
  unfolding any filter
  any-filter_pass p q [] f h = cc
  any-filter_pass p q (x ∷ xs) f h = ground (arith, f x, any-filter_pass p q xs f)

  module _ (p : A → Bool) (f : A → A) where
    pub any-update :
        (q : A → Bool) (xs : List A)
        → ((x : A) → q (f x) ≡ q x)
        → any q (update_where p f xs) ≡ any q xs
    unfolding any update_where
    any-update q [] k = refl
    any-update q (x ∷ xs) k = ground (arith, k x, any-update q xs k)

    pub All-update :
        (P : A → Type 0) (xs : List A)
        → ((x : A) → P x → P (f x))
        → All P xs
        → All P (update_where p f xs)
    unfolding update_where
    All-update P [] k h = tt
    All-update P (x ∷ xs) k (q, h) = elim (Bool-cases (p x)) [
      | inl yes' ↦ rw yes' (k x q, All-update P xs k h)
      | inr no' ↦ rw no' (q, All-update P xs k h)
    ]

    -- An update that leaves alone what the test of collision reads.
    pub Distinct-update :
        (same : A → A → Bool) (xs : List A)
        → ((x y : A) → same (f x) y ≡ same x y)
        → ((x y : A) → same x (f y) ≡ same x y)
        → Distinct same xs
        → Distinct same (update_where p f xs)
    unfolding update_where
    Distinct-update same [] k l h = tt
    Distinct-update same (x ∷ xs) k l (n, h) = elim (Bool-cases (p x)) [
      | inl yes' ↦ rw yes' (
        rw (any-update (same (f x)) xs (l (f x))) (rw (fun_ext (k x)) n),
        Distinct-update same xs k l h,
      )
      | inr no' ↦ rw no' (rw (any-update (same x) xs (l x)) n, Distinct-update same xs k l h)
    ]

abbrev pub same_tenant : Tenant → Tenant → Bool
same_tenant a b = b.id == a.id || str_eq b.name a.name

abbrev pub same_key : AccessKeyRow → AccessKeyRow → Bool
same_key a b = b.id == a.id || str_eq b.access_key a.access_key

abbrev pub same_store : Store → Store → Bool
same_store a b = b.id == a.id || (b.tenant_id == a.tenant_id && str_eq b.name a.name)

abbrev pub same_mapping : BucketMapping → BucketMapping → Bool
same_mapping a b = b.id == a.id || has_gateway_bucket a.gateway_bucket b

abbrev pub same_upload : MultipartUpload → MultipartUpload → Bool
same_upload a b = b.id == a.id || str_eq b.gateway_upload_id a.gateway_upload_id

abbrev pub HasTenant : List Tenant → ℕ → Type 0
HasTenant ts id = any (λ (t : Tenant). t.id == id) ts ≡ true

abbrev pub HasStore : List Store → ℕ → Type 0
HasStore ss id = any (has_id id) ss ≡ true

pub record WellFormed (db : Db) : Type 0 where
  pub tenants_unique : Distinct same_tenant db.tenants
  pub keys_unique : Distinct same_key db.access_keys
  pub stores_unique : Distinct same_store db.stores
  pub mappings_unique : Distinct same_mapping db.bucket_mappings
  pub uploads_unique : Distinct same_upload db.multipart_uploads
  pub key_tenants : All (λ (r : AccessKeyRow). HasTenant db.tenants r.tenant_id) db.access_keys
  pub store_tenants : All (λ (s : Store). HasTenant db.tenants s.tenant_id) db.stores
  pub mapping_stores :
      All (λ (bm : BucketMapping). HasStore db.stores bm.store_id) db.bucket_mappings
  pub upload_stores :
      All (λ (u : MultipartUpload). HasStore db.stores u.store_id) db.multipart_uploads

-- The schedule of faults is no part of the data.
pub WellFormed-faults :
    (db : Db) (fs : List Bool) → WellFormed db → WellFormed (record db { faults = fs })
WellFormed-faults db fs w = record {
  tenants_unique = w.tenants_unique;
  keys_unique = w.keys_unique;
  stores_unique = w.stores_unique;
  mappings_unique = w.mappings_unique;
  uploads_unique = w.uploads_unique;
  key_tenants = w.key_tenants;
  store_tenants = w.store_tenants;
  mapping_stores = w.mapping_stores;
  upload_stores = w.upload_stores;
}

-- The constraints after one table is replaced.
module _ (db : Db) (w : WellFormed db) where
  pub put_tenants :
      (ts : List Tenant)
      → Distinct same_tenant ts
      → ((id : ℕ) → HasTenant db.tenants id → HasTenant ts id)
      → WellFormed (record db { tenants = ts })
  put_tenants ts d f = record {
    tenants_unique = d;
    keys_unique = w.keys_unique;
    stores_unique = w.stores_unique;
    mappings_unique = w.mappings_unique;
    uploads_unique = w.uploads_unique;
    key_tenants = All-imp _ _ db.access_keys (λ r. f r.tenant_id) w.key_tenants;
    store_tenants = All-imp _ _ db.stores (λ s. f s.tenant_id) w.store_tenants;
    mapping_stores = w.mapping_stores;
    upload_stores = w.upload_stores;
  }

  pub put_keys :
      (ks : List AccessKeyRow)
      → Distinct same_key ks
      → All (λ (r : AccessKeyRow). HasTenant db.tenants r.tenant_id) ks
      → WellFormed (record db { access_keys = ks })
  put_keys ks d r = record {
    tenants_unique = w.tenants_unique;
    keys_unique = d;
    stores_unique = w.stores_unique;
    mappings_unique = w.mappings_unique;
    uploads_unique = w.uploads_unique;
    key_tenants = r;
    store_tenants = w.store_tenants;
    mapping_stores = w.mapping_stores;
    upload_stores = w.upload_stores;
  }

  pub put_stores :
      (ss : List Store)
      → Distinct same_store ss
      → All (λ (s : Store). HasTenant db.tenants s.tenant_id) ss
      → ((id : ℕ) → HasStore db.stores id → HasStore ss id)
      → WellFormed (record db { stores = ss })
  put_stores ss d r f = record {
    tenants_unique = w.tenants_unique;
    keys_unique = w.keys_unique;
    stores_unique = d;
    mappings_unique = w.mappings_unique;
    uploads_unique = w.uploads_unique;
    key_tenants = w.key_tenants;
    store_tenants = r;
    mapping_stores = All-imp _ _ db.bucket_mappings (λ bm. f bm.store_id) w.mapping_stores;
    upload_stores = All-imp _ _ db.multipart_uploads (λ u. f u.store_id) w.upload_stores;
  }

  pub put_mappings :
      (bms : List BucketMapping)
      → Distinct same_mapping bms
      → All (λ (bm : BucketMapping). HasStore db.stores bm.store_id) bms
      → WellFormed (record db { bucket_mappings = bms })
  put_mappings bms d r = record {
    tenants_unique = w.tenants_unique;
    keys_unique = w.keys_unique;
    stores_unique = w.stores_unique;
    mappings_unique = d;
    uploads_unique = w.uploads_unique;
    key_tenants = w.key_tenants;
    store_tenants = w.store_tenants;
    mapping_stores = r;
    upload_stores = w.upload_stores;
  }

  pub put_uploads :
      (us : List MultipartUpload)
      → Distinct same_upload us
      → All (λ (u : MultipartUpload). HasStore db.stores u.store_id) us
      → WellFormed (record db { multipart_uploads = us })
  put_uploads us d r = record {
    tenants_unique = w.tenants_unique;
    keys_unique = w.keys_unique;
    stores_unique = w.stores_unique;
    mappings_unique = w.mappings_unique;
    uploads_unique = d;
    key_tenants = w.key_tenants;
    store_tenants = w.store_tenants;
    mapping_stores = w.mapping_stores;
    upload_stores = r;
  }

-- A method keeps the constraints, whether it returns or fails.
abbrev pub Keeps : {A : Type 0} → Exec Db Error A → Type 0
Keeps m = (db : Db) → WellFormed db → WellFormed (m db).1

attempt-Keeps :
    {A : Type 0} (fs : List Bool) (m : Exec Db Error A)
    → Keeps m
    → (db : Db) → WellFormed db
    → WellFormed (attempt fs m db).1
attempt-Keeps [] m k db w = k db w
attempt-Keeps (true ∷ fs) m k db w = WellFormed-faults db fs w
attempt-Keeps (false ∷ fs) m k db w = k (record db { faults = fs }) (WellFormed-faults db fs w)

pub statement-Keeps : {A : Type 0} (m : Exec Db Error A) → Keeps m → Keeps (statement m)
statement-Keeps m k db w = attempt-Keeps db.faults m k db w
