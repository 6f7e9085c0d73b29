-- ===== src/Registry/Postgres/Invariant.antt =====
-- internal/registry/postgres.go: every method keeps the constraints of the schema.
use storage_gateway.Prelude.{
  ℕ, ◌≡◌, Bool, true, ◌||◌, not, List, [], ◌∷◌, Str, str_eq, ◌==◌, any, filter, arith, Bool-cases,
  inl, inr,
}
use storage_gateway.Registry.{
  Store, CreateStoreParams, BucketMapping, MultipartUpload, PresignedMode,
}
use storage_gateway.Registry.Db.{Db, own_store, own_mapping, has_id}
use storage_gateway.Registry.Db.WellFormed.{
  WellFormed, Keeps, statement-Keeps, Distinct-filter, All-filter, All-filter_pass, any-filter_pass,
  same_store, same_mapping, put_mappings, put_uploads, same_upload, HasStore,
}
use storage_gateway.Registry.Postgres.{
  create_tenant, create_access_key, update_access_key_readonly, revoke_access_key, create_store,
  update_store_backend, update_store_allowed_origins, delete_store, create_bucket_mapping,
  delete_bucket_mapping, create_multipart_upload, delete_multipart_upload,
}
use storage_gateway.Registry.Postgres.Kept.{
  create_tenant-Keeps, create_access_key-Keeps, update_access_key_readonly-Keeps,
  revoke_access_key-Keeps, create_store-Keeps, update_store_backend-Keeps,
  update_store_allowed_origins-Keeps,
}

-- A row that refers to another store does not lose it.
other_store :
    (id tenant : ℕ) (ss : List Store) (k : ℕ)
    → not (k == id) ≡ true
    → HasStore ss k
    → HasStore (filter (λ s. not (own_store id tenant s)) ss) k
other_store id tenant ss k n h =
    any-filter_pass (has_id k) (λ s. not (own_store id tenant s)) ss
      (λ s e. unfold own_store in ground arith) h

delete_store-Keeps : (id tenant : ℕ) → Keeps (delete_store id tenant)
unfolding delete_store
delete_store-Keeps id tenant = statement-Keeps _ λ db w.
    elim (Bool-cases (any (own_store id tenant) db.stores)) [
      | inr missing ↦ rw missing w
      | inl there ↦ rw there (record {
        tenants_unique = w.tenants_unique;
        keys_unique = w.keys_unique;
        stores_unique = Distinct-filter same_store _ db.stores w.stores_unique;
        mappings_unique = Distinct-filter same_mapping _ db.bucket_mappings w.mappings_unique;
        uploads_unique = Distinct-filter same_upload _ db.multipart_uploads w.uploads_unique;
        key_tenants = w.key_tenants;
        store_tenants = All-filter _ _ db.stores w.store_tenants;
        mapping_stores =
            All-filter_pass _ _ (λ (bm : BucketMapping). not (bm.store_id == id)) db.bucket_mappings
              (λ bm. other_store id tenant db.stores bm.store_id) w.mapping_stores;
        upload_stores =
            All-filter_pass _ _ (λ (u : MultipartUpload). not (u.store_id == id))
              db.multipart_uploads (λ u. other_store id tenant db.stores u.store_id)
              w.upload_stores;
      })
    ]

create_bucket_mapping-Keeps :
    (id store : ℕ) (gb bb : Str) → Keeps (create_bucket_mapping id store gb bb)
unfolding create_bucket_mapping
create_bucket_mapping-Keeps id store gb bb = statement-Keeps _ λ db w.
    elim (Bool-cases (
      any (λ (bm : BucketMapping). bm.id == id || str_eq bm.gateway_bucket gb)
        db.bucket_mappings)) [
          | inl taken ↦ rw taken w
          | inr free ↦ elim (Bool-cases (any (has_id store) db.stores)) [
            | inr missing ↦ rw (free, missing) w
            | inl there ↦
                rw (free, there)
                  (put_mappings db w _ (free, w.mappings_unique) (there, w.mapping_stores))
          ]
        ]

delete_bucket_mapping-Keeps : (id store : ℕ) → Keeps (delete_bucket_mapping id store)
unfolding delete_bucket_mapping
delete_bucket_mapping-Keeps id store = statement-Keeps _ λ db w.
    elim (Bool-cases (any (own_mapping id store) db.bucket_mappings)) [
      | inr missing ↦ rw missing w
      | inl there ↦ rw there (
          put_mappings db w _ (Distinct-filter same_mapping _ db.bucket_mappings w.mappings_unique)
            (All-filter _ _ db.bucket_mappings w.mapping_stores))
    ]

create_multipart_upload-Keeps : (u : MultipartUpload) → Keeps (create_multipart_upload u)
unfolding create_multipart_upload
create_multipart_upload-Keeps u = statement-Keeps _ λ db w.
    elim (Bool-cases (
      any (λ (v : MultipartUpload). v.id == u.id || str_eq v.gateway_upload_id u.gateway_upload_id)
        db.multipart_uploads)) [
          | inl taken ↦ rw taken w
          | inr free ↦ elim (Bool-cases (any (has_id u.store_id) db.stores)) [
            | inr missing ↦ rw (free, missing) w
            | inl there ↦
                rw (free, there)
                  (put_uploads db w _ (free, w.uploads_unique) (there, w.upload_stores))
          ]
        ]

delete_multipart_upload-Keeps : (id : Str) → Keeps (delete_multipart_upload id)
unfolding delete_multipart_upload
delete_multipart_upload-Keeps id = statement-Keeps _ λ db w.
    put_uploads db w _ (Distinct-filter same_upload _ db.multipart_uploads w.uploads_unique)
      (All-filter _ _ db.multipart_uploads w.upload_stores)

-- The calls that change the database, in any order, and the state after them.
pub data Write : Type 0 where
  new_tenant : ℕ → Str → Write
  new_key : ℕ → ℕ → Str → Str → Bool → Write
  readonly_key : ℕ → ℕ → Bool → Write
  revoke_key : ℕ → ℕ → Write
  new_store : ℕ → CreateStoreParams → Write
  store_backend : ℕ → ℕ → Str → PresignedMode → Write
  store_origins : ℕ → ℕ → List Str → Write
  drop_store : ℕ → ℕ → Write
  new_mapping : ℕ → ℕ → Str → Str → Write
  drop_mapping : ℕ → ℕ → Write
  new_upload : MultipartUpload → Write
  drop_upload : Str → Write

unfoldable pub perform : Write → Db → Db
perform (new_tenant id name) db = (create_tenant id name db).1
perform (new_key id tenant ak secret b) db = (create_access_key id tenant ak secret b db).1
perform (readonly_key id tenant b) db = (update_access_key_readonly id tenant b db).1
perform (revoke_key id tenant) db = (revoke_access_key id tenant db).1
perform (new_store id p) db = (create_store id p db).1
perform (store_backend id tenant config mode) db = (update_store_backend id tenant config mode db).1
perform (store_origins id tenant origins) db = (update_store_allowed_origins id tenant origins db).1
perform (drop_store id tenant) db = (delete_store id tenant db).1
perform (new_mapping id store gb bb) db = (create_bucket_mapping id store gb bb db).1
perform (drop_mapping id store) db = (delete_bucket_mapping id store db).1
perform (new_upload u) db = (create_multipart_upload u db).1
perform (drop_upload id) db = (delete_multipart_upload id db).1

perform-WellFormed : (c : Write) (db : Db) → WellFormed db → WellFormed (perform c db)
unfolding perform
perform-WellFormed (new_tenant id name) = create_tenant-Keeps id name
perform-WellFormed (new_key id tenant ak secret b) = create_access_key-Keeps id tenant ak secret b
perform-WellFormed (readonly_key id tenant b) = update_access_key_readonly-Keeps id tenant b
perform-WellFormed (revoke_key id tenant) = revoke_access_key-Keeps id tenant
perform-WellFormed (new_store id p) = create_store-Keeps id p
perform-WellFormed (store_backend id tenant config mode) =
    update_store_backend-Keeps id tenant config mode
perform-WellFormed (store_origins id tenant origins) =
    update_store_allowed_origins-Keeps id tenant origins
perform-WellFormed (drop_store id tenant) = delete_store-Keeps id tenant
perform-WellFormed (new_mapping id store gb bb) = create_bucket_mapping-Keeps id store gb bb
perform-WellFormed (drop_mapping id store) = delete_bucket_mapping-Keeps id store
perform-WellFormed (new_upload u) = create_multipart_upload-Keeps u
perform-WellFormed (drop_upload id) = delete_multipart_upload-Keeps id

abbrev pub empty_db : ℕ → List Bool → Db
empty_db now faults = record {
  tenants = [];
  access_keys = [];
  stores = [];
  bucket_mappings = [];
  multipart_uploads = [];
  now = now;
  faults = faults;
}

unfoldable pub run : List Write → Db → Db
run [] db = db
run (c ∷ cs) db = run cs (perform c db)

run-WellFormed_from : (cs : List Write) (db : Db) → WellFormed db → WellFormed (run cs db)
unfolding run
run-WellFormed_from [] db w = w
run-WellFormed_from (c ∷ cs) db w =
    run-WellFormed_from cs (perform c db) (perform-WellFormed c db w)

-- From the empty database, whatever the calls, their arguments and the statements that the server
-- fails, tenant names, access keys, a tenant's store names, gateway buckets and upload ids stay
-- unique, and every reference to a tenant or a store has its row.
pub run-WellFormed :
    (cs : List Write) (now : ℕ) (faults : List Bool) → WellFormed (run cs (empty_db now faults))
run-WellFormed cs now faults = run-WellFormed_from cs (empty_db now faults) (record {
  tenants_unique = tt;
  keys_unique = tt;
  stores_unique = tt;
  mappings_unique = tt;
  uploads_unique = tt;
  key_tenants = tt;
  store_tenants = tt;
  mapping_stores = tt;
  upload_stores = tt;
})
