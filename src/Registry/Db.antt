-- ===== src/Registry/Db.antt =====
-- The tables of internal/db/migrations and the statements that internal/registry/postgres.go runs
-- on them. Rows carry no order of their own. `faults` says, one for each statement, whether the
-- server fails it; a statement that fails changes nothing.
pub mod WellFormed
pub mod Attempts
use storage_gateway.Prelude.{
  ℕ, Bool, true, false, ◌&&◌, ◌||◌, not, Option, none, some, List, [], ◌∷◌, Str, str_eq, ◌==◌, any,
  find, filter, map, if◌then◌else◌, Result, ok, err, Exec,
}
use storage_gateway.Registry.{
  Tenant, AccessKeyRow, Store, BucketMapping, MultipartUpload, BackendType, PresignedMode, Error,
  unique_violation, other, unknown_type, unknown_mode,
}

pub record Db : Type 0 where
  pub tenants : List Tenant
  pub access_keys : List AccessKeyRow
  pub stores : List Store
  pub bucket_mappings : List BucketMapping
  pub multipart_uploads : List MultipartUpload
  pub now : ℕ
  pub faults : List Bool

-- One round trip to the server, with what is left of the schedule of faults.
abbrev pub attempt : {A : Type 0} → List Bool → Exec Db Error A → Exec Db Error A
attempt [] m db = m db
attempt (true ∷ fs) m db = (err other, record db { faults = fs })
attempt (false ∷ fs) m db = m (record db { faults = fs })

abbrev pub statement : {A : Type 0} → Exec Db Error A → Exec Db Error A
statement m db = attempt db.faults m db

abbrev pub is_active : AccessKeyRow → Bool
is_active r = elim r.revoked_at [ none ↦ true | some _ ↦ false ]

-- WHERE access_key = $1 AND revoked_at IS NULL
unfoldable pub active_key : Str → AccessKeyRow → Bool
active_key ak r = str_eq r.access_key ak && is_active r

-- WHERE id = $1 AND tenant_id = $2 AND revoked_at IS NULL
unfoldable pub own_key : ℕ → ℕ → AccessKeyRow → Bool
own_key id tenant r = r.id == id && r.tenant_id == tenant && is_active r

-- WHERE id = $1 AND tenant_id = $2
unfoldable pub own_store : ℕ → ℕ → Store → Bool
own_store id tenant s = s.id == id && s.tenant_id == tenant

-- WHERE id = $1 AND store_id = $2
unfoldable pub own_mapping : ℕ → ℕ → BucketMapping → Bool
own_mapping id store bm = bm.id == id && bm.store_id == store

abbrev pub has_gateway_bucket : Str → BucketMapping → Bool
has_gateway_bucket gb bm = str_eq bm.gateway_bucket gb

abbrev pub has_id : ℕ → Store → Bool
has_id id s = s.id == id

-- FROM bucket_mappings bm JOIN stores s ON s.id = bm.store_id WHERE bm.gateway_bucket = $1, the
-- first row.
unfoldable pub find_bucket : Str → List Store → List BucketMapping → Option (BucketMapping × Store)
find_bucket gb stores [] = none
find_bucket gb stores (bm ∷ bms) =
    let rest = find_bucket gb stores bms in
    if has_gateway_bucket gb bm
    then elim (find (has_id bm.store_id) stores) [ none ↦ rest | some s ↦ some (bm, s) ]
    else rest

-- ORDER BY a key on which `le` is the order.
unfoldable pub insert_by : {A : Type 0} → (A → A → Bool) → A → List A → List A
insert_by le x [] = x ∷ []
insert_by le x (y ∷ ys) = let rest = insert_by le x ys in if le x y then x ∷ y ∷ ys else y ∷ rest

unfoldable pub sort_by : {A : Type 0} → (A → A → Bool) → List A → List A
unfolding insert_by
sort_by le [] = []
sort_by le (x ∷ xs) = insert_by le x (sort_by le xs)

-- UPDATE … WHERE: every row that passes is replaced.
unfoldable pub update_where : {A : Type 0} → (A → Bool) → (A → A) → List A → List A
update_where p f [] = []
update_where p f (x ∷ xs) = (if p x then f x else x) ∷ update_where p f xs

abbrev pub known_type : BackendType → Bool
known_type (unknown_type _) = false
known_type _ = true

abbrev pub known_mode : PresignedMode → Bool
known_mode (unknown_mode _) = false
known_mode _ = true
