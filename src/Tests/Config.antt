-- ===== src/Tests/Config.antt =====
-- Configurations of a provider: a service-account key that was pasted as a JSON string.
use storage_gateway.Prelude.{◌≡◌, refl, Option, none, some, [], if◌then◌else◌, Str, bytes, str_eq}
use storage_gateway.Backend.Config.{
  Json, Constructors, unwrap, or_bare, normalize_gcs_credentials, parsed_providers,
}
use storage_gateway.Backend.Config.Credentials.{IsGiven, get-IsGiven}
use storage_gateway.Backend.Pool.{get, build, new_backend, publish, lookup}
use storage_gateway.Registry.{ResolvedBucket, gcs, proxy}

-- The one text that this decoder reads as a configuration, and the one it reads as a string.
abbrev config : Str
config = bytes "{\"credentials_json\":\"{}\"}"

abbrev quoted : Str
quoted = bytes "\"{}\""

abbrev json : Json
json = record {
  s3 = λ _. none;
  gcs = λ t. if str_eq t config then some (record { credentials_json = quoted }) else none;
  azure = λ _. none;
  local_fs = λ _. none;
  string = λ t. if str_eq t quoted then some (bytes "{}") else none;
  type_of = λ _. some [];
}

abbrev new : Constructors Str
new = record {
  new_s3_backend = λ _. none;
  new_gcs_backend = λ cfg. some cfg.credentials_json;
  new_azure_backend = λ _. none;
  new_local_backend = λ _. none;
}

abbrev row : ResolvedBucket
row = record {
  store_id = 1;
  tenant_id = 1;
  backend_type = gcs;
  backend_config_enc = config;
  gateway_bucket = bytes "photos";
  backend_bucket = bytes "upstream";
  backend_prefix = [];
  presigned_mode = proxy;
  allowed_origins = [];
}

get-IsGiven_example :
    (text : Str) × (creds : Str) × (◌≡◌ {A = Option Str} (some config) (some text))
    × IsGiven json text creds
    × (new.new_gcs_backend (record { credentials_json = creds }) ≡ some (bytes "{}"))
unfolding get build new_backend publish lookup parsed_providers unwrap or_bare
    normalize_gcs_credentials str_eq
get-IsGiven_example = get-IsGiven json some new row [] (bytes "{}") refl refl refl
