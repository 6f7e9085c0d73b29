-- ===== src/Registry.antt =====
-- internal/registry/models.go and errors.go: the rows, the resolved bucket with its key prefix, and
-- the errors. A uuid is a number, a time a number of seconds.
pub mod Prefix
pub mod Db
pub mod Postgres
pub mod Cache
use storage_gateway.Prelude.{
  ℕ, Bool, true, false, Option, none, some, List, [], ◌∷◌, ◌++◌, Str, bytes, is_empty, cut_byte,
  trim_prefix, if◌then◌else◌,
}

pub data BackendType : Type 0 where
  s3 gcs r2 azure local_fs : BackendType
  unknown_type : Str → BackendType

pub data PresignedMode : Type 0 where
  proxy redirect : PresignedMode
  unknown_mode : Str → PresignedMode

-- The sentinel errors; `unique_violation` is a PgError 23505, `other` an error that wraps neither.
pub data Error : Type 0 where
  access_key_not_found tenant_not_found store_not_found bucket_not_found : Error
  multipart_not_found unauthorized unique_violation other : Error

pub record Tenant : Type 0 where
  pub id : ℕ
  pub name : Str
  pub created_at : ℕ

pub record AccessKeyRow : Type 0 where
  pub id : ℕ
  pub tenant_id : ℕ
  pub access_key : Str
  pub secret_key_enc : Str
  pub readonly : Bool
  pub created_at : ℕ
  pub revoked_at : Option ℕ

pub record Store : Type 0 where
  pub id : ℕ
  pub tenant_id : ℕ
  pub name : Str
  pub backend_type : BackendType
  pub backend_config_enc : Str
  pub presigned_mode : PresignedMode
  pub allowed_origins : List Str
  pub created_at : ℕ
  pub updated_at : ℕ

pub record CreateStoreParams : Type 0 where
  pub tenant_id : ℕ
  pub name : Str
  pub backend_type : BackendType
  pub backend_config_enc : Str
  pub presigned_mode : PresignedMode
  pub allowed_origins : List Str

pub record BucketMapping : Type 0 where
  pub id : ℕ
  pub store_id : ℕ
  pub gateway_bucket : Str
  pub backend_bucket : Str
  pub created_at : ℕ

pub record ResolvedBucket : Type 0 where
  pub store_id : ℕ
  pub tenant_id : ℕ
  pub backend_type : BackendType
  pub backend_config_enc : Str
  pub gateway_bucket : Str
  pub backend_bucket : Str
  pub backend_prefix : Str
  pub presigned_mode : PresignedMode
  pub allowed_origins : List Str

pub record GatewayBucket : Type 0 where
  pub name : Str
  pub created_at : ℕ

pub record MultipartUpload : Type 0 where
  pub id : ℕ
  pub store_id : ℕ
  pub gateway_upload_id : Str
  pub backend_upload_id : Str
  pub gateway_bucket : Str
  pub backend_bucket : Str
  pub object_key : Str
  pub created_at : ℕ

unfoldable pub prefix_key : ResolvedBucket → Str → Str
prefix_key rb key =
    if is_empty rb.backend_prefix
    then key
    else if is_empty key
    then rb.backend_prefix ++ b'/' ∷ []
    else rb.backend_prefix ++ (b'/' ∷ key)

unfoldable pub strip_prefix : ResolvedBucket → Str → Str
strip_prefix rb key =
    if is_empty rb.backend_prefix then key else trim_prefix key (rb.backend_prefix ++ b'/' ∷ [])

abbrev bucket_parts : Str → Option (Str × Str) → Str × Str
bucket_parts raw none = (raw, [])
bucket_parts raw (some parts) = parts

unfoldable pub parse_backend_bucket : Str → Str × Str
parse_backend_bucket raw = bucket_parts raw (cut_byte b'/' raw)
