-- ===== src/Registry/Postgres.antt =====
-- internal/registry/postgres.go: pgManager, one function for each method. A fresh uuid and the rows'
-- default times come in as arguments and from the state's clock.
pub mod Kept
pub mod Invariant
pub mod Updated
pub mod Uploads
use storage_gateway.Prelude.{
  ℕ, Bool, true, false, ◌&&◌, ◌||◌, not, Option, none, some, List, [], ◌∷◌, ◌++◌, map, Str, str_eq,
  str_leb, ◌==◌, leb, any, find, filter, is_empty, if◌then◌else◌, Result, ok, err, Exec,
}
use storage_gateway.Registry.{
  Tenant, AccessKeyRow, Store, CreateStoreParams, BucketMapping, ResolvedBucket, GatewayBucket,
  MultipartUpload, BackendType, PresignedMode, parse_backend_bucket, Error, access_key_not_found,
  tenant_not_found, store_not_found, bucket_not_found, multipart_not_found, unauthorized,
  unique_violation, other,
}
use storage_gateway.Registry.Db.{
  Db, statement, active_key, own_key, own_store, own_mapping, has_gateway_bucket, has_id,
  find_bucket, sort_by, update_where, known_type, known_mode,
}

-- QueryRow and Scan: pgx.ErrNoRows becomes the method's own error.
abbrev pub row_or : {A B : Type 0} → Error → (A → B) → Option A → Result Error B
row_or e f none = err e
row_or e f (some a) = ok (f a)

-- The columns that LookupAccessKey selects.
abbrev pub lookup_columns : Str → AccessKeyRow → AccessKeyRow
lookup_columns ak r = record r { access_key = ak; revoked_at = none }

unfoldable pub lookup_access_key : Str → Exec Db Error AccessKeyRow
lookup_access_key ak = statement λ db.
    (row_or access_key_not_found (lookup_columns ak) (find (active_key ak) db.access_keys), db)

abbrev pub resolved : Str → BucketMapping → Store → ResolvedBucket
resolved gb bm s = record {
  store_id = bm.store_id;
  tenant_id = s.tenant_id;
  backend_type = s.backend_type;
  backend_config_enc = s.backend_config_enc;
  gateway_bucket = gb;
  backend_bucket = (parse_backend_bucket bm.backend_bucket).0;
  backend_prefix = (parse_backend_bucket bm.backend_bucket).1;
  presigned_mode = s.presigned_mode;
  allowed_origins = s.allowed_origins;
}

unfoldable pub check_tenant : ℕ → Str → Option (BucketMapping × Store) → Result Error ResolvedBucket
check_tenant tenant gb none = err bucket_not_found
check_tenant tenant gb (some (bm, s)) =
    if s.tenant_id == tenant then ok (resolved gb bm s) else err unauthorized

unfoldable pub resolve_bucket : ℕ → Str → Exec Db Error ResolvedBucket
resolve_bucket tenant gb =
    statement λ db. (check_tenant tenant gb (find_bucket gb db.stores db.bucket_mappings), db)

abbrev origins_of : Option (BucketMapping × Store) → List Str
origins_of none = []
origins_of (some (bm, s)) = s.allowed_origins

-- A bucket that is not there has no origins, and that is no error.
unfoldable pub get_bucket_allowed_origins : Str → Exec Db Error (List Str)
get_bucket_allowed_origins gb =
    statement λ db. (ok (origins_of (find_bucket gb db.stores db.bucket_mappings)), db)

unfoldable pub create_tenant : ℕ → Str → Exec Db Error Tenant
create_tenant id name = statement λ db.
    if any (λ (t : Tenant). t.id == id || str_eq t.name name) db.tenants
    then (err unique_violation, db)
    else (let t : Tenant = record { id = id; name = name; created_at = db.now } in
        (ok t, record db { tenants = t ∷ db.tenants }))

unfoldable pub list_tenants : Exec Db Error (List Tenant)
list_tenants =
    statement λ db. (ok (sort_by (λ (a b : Tenant). str_leb a.name b.name) db.tenants), db)

unfoldable pub get_tenant : ℕ → Exec Db Error Tenant
get_tenant id =
    statement
      λ db. (row_or tenant_not_found (λ t. t) (find (λ (t : Tenant). t.id == id) db.tenants), db)

abbrev pub tenant_exists : ℕ → Db → Bool
tenant_exists id db = any (λ (t : Tenant). t.id == id) db.tenants

abbrev pub store_exists : ℕ → Db → Bool
store_exists id db = any (has_id id) db.stores

unfoldable pub create_access_key : ℕ → ℕ → Str → Str → Bool → Exec Db Error AccessKeyRow
create_access_key id tenant ak secret readonly = statement λ db.
    if any (λ (r : AccessKeyRow). r.id == id || str_eq r.access_key ak) db.access_keys
    then (err unique_violation, db)
    else if tenant_exists tenant db
    then (let r : AccessKeyRow = record {
      id = id;
      tenant_id = tenant;
      access_key = ak;
      secret_key_enc = secret;
      readonly = readonly;
      created_at = db.now;
      revoked_at = none;
    } in
        (ok r, record db { access_keys = r ∷ db.access_keys }))
    else (err other, db)

-- The columns of the list hold no secret.
abbrev pub without_secret : AccessKeyRow → AccessKeyRow
without_secret r = record r { secret_key_enc = [] }

unfoldable pub list_access_keys : ℕ → Exec Db Error (List AccessKeyRow)
list_access_keys tenant = statement λ db. (
  ok (
      map without_secret (
        sort_by (λ (a b : AccessKeyRow). leb b.created_at a.created_at)
          (filter (λ (r : AccessKeyRow). r.tenant_id == tenant) db.access_keys))),
  db,
)

abbrev pub set_readonly : Bool → AccessKeyRow → AccessKeyRow
set_readonly b r = record r { readonly = b }

unfoldable pub update_access_key_readonly : ℕ → ℕ → Bool → Exec Db Error AccessKeyRow
update_access_key_readonly id tenant b = statement λ db.
    elim (find (own_key id tenant) db.access_keys) [
      | none ↦ (err access_key_not_found, db)
      | some r ↦ (
        ok (without_secret (set_readonly b r)),
        record db {
          access_keys = update_where (own_key id tenant) (set_readonly b) db.access_keys;
        },
      )
    ]

abbrev pub revoke_at : ℕ → AccessKeyRow → AccessKeyRow
revoke_at t r = record r { revoked_at = some t }

unfoldable pub revoke_access_key : ℕ → ℕ → Exec Db Error (Unit {0})
revoke_access_key id tenant = statement λ db. elim (find (own_key id tenant) db.access_keys) [
  | none ↦ (err access_key_not_found, db)
  | some r ↦ (
    ok tt,
    record db { access_keys = update_where (own_key id tenant) (revoke_at db.now) db.access_keys },
  )
]

-- The server tests a CHECK before it looks for another row.
unfoldable pub create_store : ℕ → CreateStoreParams → Exec Db Error Store
create_store id p = statement λ db.
    if not (known_type p.backend_type && known_mode p.presigned_mode)
    then (err other, db)
    else if any (λ (s : Store). s.id == id || (s.tenant_id == p.tenant_id && str_eq s.name p.name))
        db.stores
    then (err unique_violation, db)
    else if tenant_exists p.tenant_id db
    then (let s : Store = record {
      id = id;
      tenant_id = p.tenant_id;
      name = p.name;
      backend_type = p.backend_type;
      backend_config_enc = p.backend_config_enc;
      presigned_mode = p.presigned_mode;
      allowed_origins = p.allowed_origins;
      created_at = db.now;
      updated_at = db.now;
    } in
        (ok s, record db { stores = s ∷ db.stores }))
    else (err other, db)

unfoldable pub get_store : ℕ → Exec Db Error Store
get_store id = statement λ db. (row_or store_not_found (λ s. s) (find (has_id id) db.stores), db)

unfoldable pub list_stores : ℕ → Exec Db Error (List Store)
list_stores tenant = statement λ db. (
  ok (
      sort_by (λ (a b : Store). str_leb a.name b.name)
        (filter (λ (s : Store). s.tenant_id == tenant) db.stores)),
  db,
)

-- Exec of an UPDATE: no row affected is the method's own error.
abbrev pub update_stores : ℕ → ℕ → (Store → Store) → Db → Result Error (Unit {0}) × Db
update_stores id tenant f db =
    if any (own_store id tenant) db.stores
    then (ok tt, record db { stores = update_where (own_store id tenant) f db.stores })
    else (err store_not_found, db)

unfoldable pub update_store_backend : ℕ → ℕ → Str → PresignedMode → Exec Db Error (Unit {0})
update_store_backend id tenant config mode = statement λ db.
    if any (own_store id tenant) db.stores && not (known_mode mode)
    then (err other, db)
    else update_stores id tenant
        (λ s. record s { backend_config_enc = config; presigned_mode = mode; updated_at = db.now })
        db

unfoldable pub update_store_allowed_origins : ℕ → ℕ → List Str → Exec Db Error (Unit {0})
update_store_allowed_origins id tenant origins = statement λ db.
    update_stores id tenant (λ s. record s { allowed_origins = origins; updated_at = db.now }) db

-- ON DELETE CASCADE takes the mappings and the uploads of the store along.
unfoldable pub delete_store : ℕ → ℕ → Exec Db Error (Unit {0})
delete_store id tenant = statement λ db.
    if any (own_store id tenant) db.stores
    then (
      ok tt,
      record db {
        stores = filter (λ s. not (own_store id tenant s)) db.stores;
        bucket_mappings =
            filter (λ (bm : BucketMapping). not (bm.store_id == id)) db.bucket_mappings;
        multipart_uploads =
            filter (λ (u : MultipartUpload). not (u.store_id == id)) db.multipart_uploads;
      },
    )
    else (err store_not_found, db)

unfoldable pub create_bucket_mapping : ℕ → ℕ → Str → Str → Exec Db Error BucketMapping
create_bucket_mapping id store gb bb = statement λ db.
    if any (λ (bm : BucketMapping). bm.id == id || has_gateway_bucket gb bm) db.bucket_mappings
    then (err unique_violation, db)
    else if store_exists store db
    then (let bm : BucketMapping = record {
      id = id;
      store_id = store;
      gateway_bucket = gb;
      backend_bucket = bb;
      created_at = db.now;
    } in
        (ok bm, record db { bucket_mappings = bm ∷ db.bucket_mappings }))
    else (err other, db)

unfoldable pub get_bucket_mapping : ℕ → ℕ → Exec Db Error BucketMapping
get_bucket_mapping id store =
    statement λ db.
      (row_or bucket_not_found (λ bm. bm) (find (own_mapping id store) db.bucket_mappings), db)

abbrev pub mappings_of : ℕ → Db → List BucketMapping
mappings_of store db =
    sort_by (λ (a b : BucketMapping). str_leb a.gateway_bucket b.gateway_bucket)
      (filter (λ (bm : BucketMapping). bm.store_id == store) db.bucket_mappings)

unfoldable pub list_bucket_mappings : ℕ → Exec Db Error (List BucketMapping)
list_bucket_mappings store = statement λ db. (ok (mappings_of store db), db)

unfoldable pub delete_bucket_mapping : ℕ → ℕ → Exec Db Error (Unit {0})
delete_bucket_mapping id store = statement λ db.
    if any (own_mapping id store) db.bucket_mappings
    then (
      ok tt,
      record db {
        bucket_mappings = filter (λ bm. not (own_mapping id store bm)) db.bucket_mappings;
      },
    )
    else (err bucket_not_found, db)

unfoldable pub create_multipart_upload : MultipartUpload → Exec Db Error (Unit {0})
create_multipart_upload u = statement λ db.
    if any (λ (v : MultipartUpload). v.id == u.id || str_eq v.gateway_upload_id u.gateway_upload_id)
      db.multipart_uploads
    then (err unique_violation, db)
    else if store_exists u.store_id db
    then (
      ok tt,
      record db { multipart_uploads = record u { created_at = db.now } ∷ db.multipart_uploads },
    )
    else (err other, db)

abbrev pub has_upload_id : Str → MultipartUpload → Bool
has_upload_id id u = str_eq u.gateway_upload_id id

unfoldable pub get_multipart_upload : Str → Exec Db Error MultipartUpload
get_multipart_upload id =
    statement
      λ db. (row_or multipart_not_found (λ u. u) (find (has_upload_id id) db.multipart_uploads), db)

unfoldable pub delete_multipart_upload : Str → Exec Db Error (Unit {0})
delete_multipart_upload id = statement λ db. (
  ok tt,
  record db { multipart_uploads = filter (λ u. not (has_upload_id id u)) db.multipart_uploads },
)

abbrev bucket_of_tenant : ℕ → List Store → List BucketMapping → List GatewayBucket
bucket_of_tenant tenant stores [] = []
bucket_of_tenant tenant stores (bm ∷ bms) =
    let rest = bucket_of_tenant tenant stores bms in
    if any (λ (s : Store). s.id == bm.store_id && s.tenant_id == tenant) stores
    then record { name = bm.gateway_bucket; created_at = bm.created_at } ∷ rest
    else rest

unfoldable pub list_gateway_buckets : ℕ → Exec Db Error (List GatewayBucket)
list_gateway_buckets tenant = statement λ db. (
  ok (
      sort_by (λ (a b : GatewayBucket). str_leb a.name b.name)
        (bucket_of_tenant tenant db.stores db.bucket_mappings)),
  db,
)
