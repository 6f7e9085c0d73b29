-- ===== src/Backend/Config.antt =====
-- internal/backend/factory.go: the configurations of the providers, and what New makes of their JSON
-- before it calls a constructor. encoding/json and the constructors are parameters; none is an error.
pub mod Credentials
use storage_gateway.Prelude.{
  ℕ, zero, suc, ◌+◌, ◌-◌, ◌*◌, ◌/◌, ◌%◌, ◌^◌, ◌≤◌, ◌<◌, ◌≡◌, refl, sym, ap, ◌∙◌, fun_ext, ◌≢◌, ◌↔◌,
  ◌⊎◌, inl, inr, Bool, true, false, ◌&&◌, ◌||◌, not, Option, none, some, List, [], ◌∷◌, ◌++◌, map,
  append_assoc, append-nil, arith, ltb, leb, ◌==◌, if◌then◌else◌, Bool-cases, Option-cases, ltb→lt,
  lt→ltb, leb→le, Str, bytes, str_eq, str_eq_iff, str_eq_refl, is_empty, sort_strings, mem_str,
  str_leb, has_prefix, trim_prefix, cut_byte, IsFree, All, filter, find, any, length, take, drop,
  length-append, length-drop, take-append, drop-append, Result, ok, err, ok_injective, err-ne-ok,
  result-err-ne-ok, bind_ok, continue_ok, Exec, pure, raise, lift, continue, ◌>>=◌, ◌>>◌,
}
use storage_gateway.Backend.Pool.{Providers}

pub record S3Config : Type 0 where
  pub region : Str
  pub endpoint : Str
  pub access_key_id : Str
  pub secret_access_key : Str
  pub force_path_style : Bool

pub record GcsConfig : Type 0 where
  pub credentials_json : Str

pub record AzureConfig : Type 0 where
  pub account_name : Str
  pub account_key : Str
  pub service_url : Str

pub record LocalConfig : Type 0 where
  pub root_path : Str

-- json.Unmarshal into each structure; `type_of` decodes the field type, and `string` a JSON string.
pub record Json : Type 0 where
  pub s3 : Str → Option S3Config
  pub gcs : Str → Option GcsConfig
  pub azure : Str → Option AzureConfig
  pub local_fs : Str → Option LocalConfig
  pub string : Str → Option Str
  pub type_of : Str → Option Str

pub record Constructors (B : Type 0) : Type 0 where
  pub new_s3_backend : S3Config → Option B
  pub new_gcs_backend : GcsConfig → Option B
  pub new_azure_backend : AzureConfig → Option B
  pub new_local_backend : LocalConfig → Option B

-- len(creds) == 0 || string(creds) == "null"
abbrev pub lacks : Str → Bool
lacks creds = is_empty creds || str_eq creds (bytes "null")

abbrev pub bind : {A B : Type 0} → Option A → (A → Option B) → Option B
bind none f = none
bind (some a) f = f a

module _ (json : Json) where
  -- One level of quoting is taken off.
  unfoldable pub unwrap : Str → Option Str
  unwrap [] = some []
  unwrap (x ∷ creds) = if x == b'"' then json.string (x ∷ creds) else some (x ∷ creds)

  abbrev pub is_account : Option Str → Bool
  is_account none = false
  is_account (some ty) = str_eq ty (bytes "service_account")

  -- The whole configuration, where it is a bare key.
  unfoldable pub or_bare : Str → Str → Str
  or_bare config creds = if lacks creds && is_account (json.type_of config) then config else creds

  abbrev pub required : Str → Option Str
  required creds = if lacks creds then none else some creds

  unfoldable pub normalize_gcs_credentials : Str → Option Str
  normalize_gcs_credentials config =
      bind (json.gcs config)
        λ cfg. bind (unwrap cfg.credentials_json) λ creds. required (or_bare config creds)

  -- The cases of New.
  unfoldable pub parsed_providers : {B : Type 0} → (Str → Option Str) → Constructors B → Providers B
  parsed_providers decrypt new = record {
    decrypt = decrypt;
    open_s3 = λ config. bind (json.s3 config) new.new_s3_backend;
    open_gcs = λ config.
        bind (normalize_gcs_credentials config)
          λ creds. new.new_gcs_backend (record { credentials_json = creds });
    open_azure = λ config. bind (json.azure config) new.new_azure_backend;
    open_local = λ config. bind (json.local_fs config) new.new_local_backend;
  }
