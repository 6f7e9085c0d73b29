-- ===== src/Admin.antt =====
-- internal/api/admin/handler.go and response.go: requests and responses of the admin API, and what its
-- handlers share. What package uuid parses and what encoding/json decodes are parameters, and so is
-- what chi finds in a path. The text of an upstream's error is left out of a message.
pub mod Access
pub mod Middleware
pub mod Tenants
pub mod Keys
pub mod Stores
pub mod Buckets
pub mod Browse
pub mod Routes
pub mod Managers
use storage_gateway.Prelude.{
  ℕ, zero, suc, ◌+◌, ◌-◌, ◌*◌, ◌/◌, ◌%◌, ◌^◌, ◌≤◌, ◌<◌, ◌≡◌, refl, sym, ap, ◌∙◌, fun_ext, ◌≢◌, ◌↔◌,
  ◌⊎◌, inl, inr, Bool, true, false, ◌&&◌, ◌||◌, not, Option, none, some, List, [], ◌∷◌, ◌++◌, map,
  append_assoc, append-nil, arith, ltb, leb, ◌==◌, if◌then◌else◌, Bool-cases, Option-cases, ltb→lt,
  lt→ltb, leb→le, Str, bytes, str_eq, str_eq_iff, str_eq_refl, is_empty, sort_strings, mem_str,
  str_leb, has_prefix, trim_prefix, cut_byte, IsFree, All, filter, find, any, length, take, drop,
  length-append, length-drop, take-append, drop-append, Result, ok, err, ok_injective, err-ne-ok,
  continue_ok, Exec, pure, raise, lift, continue, ◌>>=◌, ◌>>◌,
}
use mathlib.Core.Path.{subst}
use storage_gateway.Prelude.Int.{ℤ}
use storage_gateway.Registry.{
  Tenant, AccessKeyRow, Store, CreateStoreParams, BucketMapping, BackendType, PresignedMode, Error,
  access_key_not_found, tenant_not_found, store_not_found, bucket_not_found, unique_violation,
}
use storage_gateway.Backend
use storage_gateway.Backend.{Backend}
use storage_gateway.Backend.Pool.{Pool, PoolError, Providers}
use storage_gateway.Backend.Pool
use storage_gateway.Crypto.{Gcm}
use storage_gateway.S3.Handler.{World, or_respond, get_value}

-- registry.Manager, as far as the handlers call it. The database draws the ids of new rows; they are
-- arguments of the methods that insert.
pub record Manager (M : Type 0) : Type 0 where
  pub create_tenant : ℕ → Str → Exec M Error Tenant
  pub get_tenant : ℕ → Exec M Error Tenant
  pub list_tenants : Exec M Error (List Tenant)
  pub create_access_key : ℕ → ℕ → Str → Str → Bool → Exec M Error AccessKeyRow
  pub update_access_key_readonly : ℕ → ℕ → Bool → Exec M Error AccessKeyRow
  pub list_access_keys : ℕ → Exec M Error (List AccessKeyRow)
  pub revoke_access_key : ℕ → ℕ → Exec M Error (Unit {0})
  pub create_store : ℕ → CreateStoreParams → Exec M Error Store
  pub get_store : ℕ → Exec M Error Store
  pub list_stores : ℕ → Exec M Error (List Store)
  pub update_store_backend : ℕ → ℕ → Str → PresignedMode → Exec M Error (Unit {0})
  pub update_store_allowed_origins : ℕ → ℕ → List Str → Exec M Error (Unit {0})
  pub delete_store : ℕ → ℕ → Exec M Error (Unit {0})
  pub create_bucket_mapping : ℕ → ℕ → Str → Str → Exec M Error BucketMapping
  pub get_bucket_mapping : ℕ → ℕ → Exec M Error BucketMapping
  pub list_bucket_mappings : ℕ → Exec M Error (List BucketMapping)
  pub delete_bucket_mapping : ℕ → ℕ → Exec M Error (Unit {0})

-- What json.Decoder makes of a body: io.EOF for an empty one, another error, or the structure.
pub data Decoded (A : Type 0) : Type 0 where
  end_of_body malformed : Decoded A
  decoded : A → Decoded A

-- A structure of a body; a field that the body leaves out is empty, or `none` for a pointer.
pub record StoreBody : Type 0 where
  pub name : Str
  pub backend_type : BackendType
  pub backend_config : Str
  pub presigned_mode : PresignedMode

-- encoding/json, for the structures of the bodies.
pub record Decoders : Type 0 where
  pub tenant_name : Str → Decoded Str
  pub key_readonly : Str → Decoded Bool
  pub new_readonly : Str → Decoded (Option Bool)
  pub store : Str → Decoded StoreBody
  pub backend : Str → Decoded (Str × PresignedMode)
  pub origins : Str → Decoded (List Str)
  pub mapping : Str → Decoded (Str × Str)
  pub presign : Str → Decoded (Str × ℤ)

-- What rand.Read, the database and the clock give while the request is served; none is an error of
-- rand.
pub record Fresh : Type 0 where
  pub row_id : ℕ
  pub key_bytes : Option Str
  pub secret_bytes : Option Str
  pub nonce : Option Str
  pub now : ℕ

-- `params` are what chi finds in the path. Names of headers are in the canonical form.
pub record Request : Type 0 where
  pub verb : Str
  pub headers : List (Str × Str)
  pub query : List (Str × Str)
  pub params : List (Str × Str)
  pub body : Str
  pub fresh : Fresh

-- The DTOs. No one of them has a field for an encrypted value.
pub record TenantDto : Type 0 where
  pub id : ℕ
  pub name : Str
  pub created_at : ℕ

pub record KeyDto : Type 0 where
  pub id : ℕ
  pub tenant_id : ℕ
  pub access_key : Str
  pub readonly : Bool
  pub created_at : ℕ
  pub revoked_at : Option ℕ

pub record CreateKeyResponse : Type 0 where
  pub id : ℕ
  pub tenant_id : ℕ
  pub access_key : Str
  pub secret_key : Str
  pub readonly : Bool
  pub created_at : ℕ

pub record StoreDto : Type 0 where
  pub id : ℕ
  pub tenant_id : ℕ
  pub name : Str
  pub backend_type : BackendType
  pub presigned_mode : PresignedMode
  pub allowed_origins : List Str
  pub created_at : ℕ
  pub updated_at : ℕ

pub record BucketMappingDto : Type 0 where
  pub id : ℕ
  pub store_id : ℕ
  pub gateway_bucket : Str
  pub backend_bucket : Str
  pub created_at : ℕ

pub record BrowseObject : Type 0 where
  pub key : Str
  pub size : ℕ
  pub last_modified : Option ℕ
  pub etag : Str
  pub storage_class : Str

pub record BrowseListResponse : Type 0 where
  pub prefix : Str
  pub delimiter : Str
  pub max_keys : ℕ
  pub key_count : ℕ
  pub is_truncated : Bool
  pub next_continuation_token : Option Str
  pub objects : List BrowseObject
  pub common_prefixes : List Str

pub record BrowseMetadata : Type 0 where
  pub key : Str
  pub size : ℤ
  pub last_modified : Option ℕ
  pub etag : Str
  pub content_type : Str
  pub storage_class : Str
  pub user_metadata : List (Str × Str)

-- A frame of the event stream; `failed` leaves out the text of the upstream's error, and `unfinished`
-- stands for what follows the last round of the model.
pub data Frame : Type 0 where
  progress done : ℤ → ℤ → Frame
  failed unfinished : Frame

pub data Body : Type 0 where
  no_body : Body
  failure : Str → Body
  tenant_body : TenantDto → Body
  tenants_body : List TenantDto → Body
  key_body : KeyDto → Body
  keys_body : List KeyDto → Body
  created_key_body : CreateKeyResponse → Body
  store_body : StoreDto → Body
  stores_body : List StoreDto → Body
  origins_body : List Str → Body
  mapping_body : BucketMappingDto → Body
  mappings_body : List BucketMappingDto → Body
  listing_body : BrowseListResponse → Body
  metadata_body : BrowseMetadata → Body
  url_body : Str → ℕ → Body
  events_body : List Frame → Body

pub record Response : Type 0 where
  pub status : ℕ
  pub headers : List (Str × Str)
  pub body : Body

unfoldable pub write_json : ℕ → Body → Response
write_json status body = record {
  status = status;
  headers = (bytes "Content-Type", bytes "application/json") ∷ [];
  body = body;
}

unfoldable pub write_error : ℕ → Str → Response
write_error status message = write_json status (failure message)

-- w.WriteHeader(http.StatusNoContent)
abbrev pub no_content : Response
no_content = record { status = 204; headers = []; body = no_body }

unfoldable pub handle_err : Error → Response
handle_err unique_violation = write_error 409 (bytes "resource already exists")
handle_err tenant_not_found = write_error 404 (bytes "tenant not found")
handle_err store_not_found = write_error 404 (bytes "store not found")
handle_err bucket_not_found = write_error 404 (bytes "gateway bucket not found")
handle_err access_key_not_found = write_error 404 (bytes "access key not found or revoked")
handle_err _ = write_error 500 (bytes "internal error")

abbrev pub to_tenant_dto : Tenant → TenantDto
to_tenant_dto t = record { id = t.id; name = t.name; created_at = t.created_at }

abbrev pub to_key_dto : AccessKeyRow → KeyDto
to_key_dto k = record {
  id = k.id;
  tenant_id = k.tenant_id;
  access_key = k.access_key;
  readonly = k.readonly;
  created_at = k.created_at;
  revoked_at = k.revoked_at;
}

abbrev pub to_store_dto : Store → StoreDto
to_store_dto s = record {
  id = s.id;
  tenant_id = s.tenant_id;
  name = s.name;
  backend_type = s.backend_type;
  presigned_mode = s.presigned_mode;
  allowed_origins = s.allowed_origins;
  created_at = s.created_at;
  updated_at = s.updated_at;
}

abbrev pub to_bucket_mapping_dto : BucketMapping → BucketMappingDto
to_bucket_mapping_dto bm = record {
  id = bm.id;
  store_id = bm.store_id;
  gateway_bucket = bm.gateway_bucket;
  backend_bucket = bm.backend_bucket;
  created_at = bm.created_at;
}
