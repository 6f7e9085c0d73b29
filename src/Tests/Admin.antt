-- ===== src/Tests/Admin.antt =====
-- Requests of the admin API over a registry with one tenant, one store and one mapped bucket.
use storage_gateway.Prelude.{
  ℕ, zero, suc, ◌+◌, ◌-◌, ◌*◌, ◌/◌, ◌%◌, ◌^◌, ◌≤◌, ◌<◌, ◌≡◌, refl, sym, ap, ◌∙◌, fun_ext, ◌≢◌, ◌↔◌,
  ◌⊎◌, inl, inr, Bool, true, false, ◌&&◌, ◌||◌, not, Option, none, some, List, [], ◌∷◌, ◌++◌, map,
  append_assoc, append-nil, arith, ltb, leb, ◌==◌, if◌then◌else◌, Bool-cases, Option-cases, ltb→lt,
  lt→ltb, leb→le, Str, bytes, str_eq, str_eq_iff, str_eq_refl, is_empty, sort_strings, mem_str,
  str_leb, has_prefix, trim_prefix, cut_byte, IsFree, All, filter, find, any, length, take, drop,
  length-append, length-drop, take-append, drop-append, Result, ok, err, ok_injective, err-ne-ok,
  result-err-ne-ok, bind_ok, continue_ok, Exec, pure, raise, lift, continue, ◌>>=◌, ◌>>◌,
}
use storage_gateway.Prelude.Int.{pos}
use storage_gateway.Registry.{
  access_key_not_found, Tenant, PresignedMode, proxy, redirect, unknown_mode, local_fs,
  AccessKeyRow, ResolvedBucket,
}
use storage_gateway.Registry
use storage_gateway.Registry.Db.{Db, own_key}
use storage_gateway.Registry.Db.WellFormed.{WellFormed}
use storage_gateway.Registry.Cache.Revoked.{revoke_access_key-refused}
use storage_gateway.Registry.Db.Attempts.{some_injective}
use storage_gateway.Registry.Postgres
use storage_gateway.Registry.Cache.{Cached}
use storage_gateway.Registry.Cache
use storage_gateway.Crypto.{decrypt}
use storage_gateway.Backend.{Backend, ObjectInfo, ListObjectsOutput}
use storage_gateway.Backend.Pool.{Pool}
use storage_gateway.Backend.Pool
use storage_gateway.S3.Handler.{World, get_value}
use storage_gateway.Admin.{
  Manager, Decoders, decoded, malformed, Request, Response, CreateKeyResponse, Frame, done,
  progress, created_key_body, no_content, write_json, write_error, handle_err, no_body, failure,
}
use storage_gateway.Admin.Access.{Api}
use storage_gateway.Admin.Managers.{postgres_manager, cached_manager}
use storage_gateway.Admin.Keys.{create_access_key, generate_access_key_id}
use storage_gateway.Admin.Keys.Usable.{
  create_access_key-lookup, generate_access_key_id-shape, all_bytes, is_key_letter,
}
use storage_gateway.Admin.Stores.{update_store_backend}
use storage_gateway.Admin.Stores.Renewed.{update_store_backend-renewed}
use storage_gateway.Admin.Stores.Stale.{update_store_backend-unevicted, written}
use storage_gateway.Admin.Browse.{browse_size_stream, event_stream, size_input}
use storage_gateway.Admin.Browse
use storage_gateway.Admin.Middleware.{outcome}
use storage_gateway.Admin.Browse.Sizes.{
  browse_size_stream-totals, last_page, next_page, objects_of, bytes_of, totals_of, done_with,
}
use storage_gateway.Admin.Routes.{browse_presign, handler, serve}
use storage_gateway.Admin.Routes.Refused.{on_store, handler-foreign, serve-unauthorized}
use storage_gateway.Tests.Registry.{uuids, disk, scoped}
use storage_gateway.Tests.Handlers.{Keys, memory, providers, database}
use storage_gateway.Tests.Sealing.{tagging, tag}

abbrev json : Decoders
json = record {
  tenant_name = λ body. decoded body;
  key_readonly = λ body. decoded true;
  new_readonly = λ body. decoded (some true);
  store = λ body. malformed;
  backend = λ body. decoded (body, unknown_mode []);
  origins = λ body. decoded [];
  mapping = λ body. decoded (body, body);
  presign = λ body. decoded (body, pos 60);
}

abbrev api_of : {M : Type 0} → Manager M → Api M Keys
api_of m = record {
  manager = m;
  providers = providers;
  crypto_key = bytes "0123456789abcdef";
  gcm = tagging;
  uuids = uuids;
  json = json;
  base64 = λ b. b;
}

abbrev some_bytes : Option Str
some_bytes = some (bytes "abcdefghijklmnopq")

abbrev request : Str → Str → Request
request tenant body = record {
  verb = bytes "PUT";
  headers = (bytes "Authorization", bytes "Bearer wrong") ∷ [];
  query = [];
  params =
      (bytes "tenantID", tenant)
      ∷ (bytes "storeID", uuids.to_string 20)
      ∷ (bytes "mappingID", uuids.to_string 30)
      ∷ [];
  body = body;
  fresh = record {
    row_id = 50;
    key_bytes = some_bytes;
    secret_bytes = some_bytes;
    nonce = some (bytes "nonce-of-12b");
    now = 9;
  };
}

abbrev owner : Tenant
owner = record { id = 1; name = bytes "t"; created_at = 1 }

abbrev tables : List Bool → Db
tables faults = record (database faults) { tenants = owner ∷ [] }

abbrev postgres_world : World Db Keys
postgres_world = record { mgr = tables []; pool = (20, memory) ∷ []; upstream = [] }

abbrev cached_world : List Bool → World Cached Keys
cached_world faults = record {
  mgr = record { db = tables faults; redis = record { items = []; clock = 9; faults = [] } };
  pool = (20, memory) ∷ [];
  upstream = [];
}

handler-foreign_example :
    handler
      (api_of postgres_manager)
      5
      browse_presign
      (request (uuids.to_string 2) [])
      postgres_world
    ≡ (err (write_error 404 (bytes "store not found")), postgres_world)
unfolding on_store get_value find str_eq postgres_manager Postgres.get_store
handler-foreign_example =
    handler-foreign (api_of postgres_manager) 5 browse_presign (request (uuids.to_string 2) [])
      postgres_world 2 20 (tables []) (record disk { allowed_origins = bytes "https://a" ∷ [] })
      refl refl refl refl refl

serve-unauthorized_example :
    ((serve
        (api_of postgres_manager)
        5
        (bytes "right")
        (bytes "*" ∷ [])
        browse_presign
        (request (uuids.to_string 1) [])
        postgres_world).1
      ≡ postgres_world)
    × ((serve
          (api_of postgres_manager)
          5
          (bytes "right")
          (bytes "*" ∷ [])
          browse_presign
          (request (uuids.to_string 1) [])
          postgres_world).0.status
        ≡ 401)
    × ((serve
          (api_of postgres_manager)
          5
          (bytes "right")
          (bytes "*" ∷ [])
          browse_presign
          (request (uuids.to_string 1) [])
          postgres_world).0.body
        ≡ failure (bytes "invalid or missing admin token"))
unfolding str_eq get_value find
serve-unauthorized_example =
    serve-unauthorized (api_of postgres_manager) 5 (bytes "right") (bytes "*" ∷ []) browse_presign
      (request (uuids.to_string 1) []) postgres_world refl

generate_access_key_id-shape_example :
    (k : Str) × (generate_access_key_id (some (bytes "abcdefghijklmnopq")) ≡ ok (bytes "SGW" ++ k))
    × (all_bytes is_key_letter k ≡ true)
    × (length (bytes "SGW" ++ k) ≡ 20)
    × (generate_access_key_id none ≡ err tt)
generate_access_key_id-shape_example = generate_access_key_id-shape (bytes "abcdefghijklmnopq") refl

abbrev made : Result Response Response × World Db Keys
made = create_access_key (api_of postgres_manager) (request (uuids.to_string 1) []) postgres_world

twelve : (n : Str) → some (bytes "nonce-of-12b") ≡ some n → length n ≡ 12
twelve n e = sym (ap length (some_injective e))

create_access_key-lookup_example :
    (key : CreateKeyResponse) × (row : AccessKeyRow) × (outcome made.0
      ≡ write_json 201 (created_key_body key))
    × (uuids.parse (uuids.to_string 1) ≡ some key.tenant_id)
    × ((Postgres.lookup_access_key key.access_key (record made.1.mgr { faults = [] })).0 ≡ ok row)
    × (row.tenant_id ≡ key.tenant_id)
    × (row.readonly ≡ key.readonly)
    × (decrypt tagging (bytes "0123456789abcdef") row.secret_key_enc ≡ ok key.secret_key)
unfolding create_access_key storage_gateway.Admin.Access.uuid_param get_value find str_eq
    postgres_manager Postgres.get_tenant storage_gateway.Admin.Keys.issue_key generate_access_key_id
    storage_gateway.Admin.Keys.generate_secret_key storage_gateway.Crypto.encrypt
    storage_gateway.Crypto.valid_key Postgres.create_access_key any
create_access_key-lookup_example =
    create_access_key-lookup (api_of postgres_manager) (request (uuids.to_string 1) [])
      postgres_world made.1 (outcome made.0) refl twelve refl

abbrev new_config : Request
new_config = request (uuids.to_string 1) (bytes "new")

abbrev replaced : Result Response Response × World Cached Keys
replaced = update_store_backend (api_of cached_manager) new_config (cached_world [])

abbrev sealed : Str
sealed = bytes "nonce-of-12b" ++ (bytes "new" ++ tag)

abbrev new_bucket : ResolvedBucket
new_bucket =
    Postgres.resolved (bytes "photos") scoped
      (record disk { backend_config_enc = sealed; allowed_origins = bytes "https://a" ∷ [] })

update_store_backend-renewed_example :
    (config : Str) × (given : PresignedMode) × (outcome replaced.0 ≡ no_content)
    × (json.backend (bytes "new") ≡ decoded (config, given))
    × (decrypt tagging (bytes "0123456789abcdef") new_bucket.backend_config_enc ≡ ok config)
    × ((Cache.resolve_bucket uuids 60 1 (bytes "photos") replaced.1.mgr).0 ≡ ok new_bucket)
    × ((Pool.get providers new_bucket replaced.1.pool).0 ≡ ok memory)
unfolding get_value find str_eq any filter update_store_backend
    storage_gateway.Admin.Access.verify_store_ownership storage_gateway.Admin.Access.uuid_param
    cached_manager storage_gateway.Registry.Cache.Delegated.get_store Postgres.get_store
    storage_gateway.Admin.Stores.replace_backend storage_gateway.Crypto.encrypt
    storage_gateway.Crypto.valid_key Cache.update_store_backend Postgres.update_store_backend
    storage_gateway.Registry.Db.own_store storage_gateway.Registry.Db.update_where
    storage_gateway.Registry.Db.sort_by storage_gateway.Registry.Db.insert_by
    Cache.invalidate_buckets_for_store Postgres.list_bucket_mappings Cache.invalidate_all
    Cache.invalidate_bucket storage_gateway.Registry.Cache.Keyspace.del
    storage_gateway.Registry.Cache.Keyspace.remove_items Pool.invalidate Pool.evict
    Postgres.resolve_bucket Postgres.check_tenant storage_gateway.Registry.Db.find_bucket Pool.build
    Pool.new_backend Registry.parse_backend_bucket storage_gateway.Prelude.cut_byte
update_store_backend-renewed_example =
    update_store_backend-renewed (api_of cached_manager) 60 new_config (cached_world []) replaced.1
      (outcome replaced.0) 20 1 (bytes "photos") new_bucket memory refl refl twelve refl refl refl
      refl refl refl

update_store_backend-unevicted_example :
    update_store_backend
      (api_of cached_manager)
      new_config
      (cached_world (false ∷ false ∷ true ∷ []))
    ≡ (
      err (handle_err Registry.other),
      record (cached_world []) {
        mgr =
            written
              (record disk { allowed_origins = bytes "https://a" ∷ [] })
              sealed
              proxy
              []
              (cached_world []).mgr;
      },
    )
unfolding get_value find str_eq storage_gateway.Crypto.encrypt storage_gateway.Crypto.valid_key
update_store_backend-unevicted_example =
    update_store_backend-unevicted (api_of cached_manager) new_config
      (cached_world (false ∷ false ∷ true ∷ [])) [] 1 20
      (record disk { allowed_origins = bytes "https://a" ∷ [] }) (bytes "new") sealed
      (unknown_mode []) refl refl refl refl refl refl refl refl refl refl

-- An upstream of two pages.
abbrev item : Str → ℕ → ObjectInfo
item key size = record {
  key = key;
  size = size;
  etag = [];
  last_modified = none;
  storage_class = [];
}

abbrev page : Str → List ObjectInfo → Bool → ListObjectsOutput
page token contents more = record {
  contents = contents;
  common_prefixes = [];
  is_truncated = more;
  next_continuation_token = token;
  key_count = length contents;
}

abbrev first_page : List ObjectInfo
first_page = item (bytes "a") 3 ∷ (item (bytes "b") 4 ∷ [])

abbrev second_page : List ObjectInfo
second_page = item (bytes "c") 5 ∷ []

abbrev paged : Backend Keys
paged = record memory {
  list_objects = λ i s.
      if is_empty i.continuation_token
      then (ok (page (bytes "t") first_page true), s)
      else (ok (page [] second_page false), s);
}

abbrev paged_api : Api Db Keys
paged_api = record (api_of postgres_manager) {
  providers = record providers { open_local = λ config. some paged };
}

abbrev empty_pool : World Db Keys
empty_pool = record postgres_world { pool = [] }

abbrev browsed : ResolvedBucket
browsed = Browse.resolved (record disk { allowed_origins = bytes "https://a" ∷ [] }) scoped

browse_size_stream-totals_example :
    browse_size_stream paged_api 2 (request (uuids.to_string 1) []) empty_pool ≡ (
      ok (
          event_stream (
            totals_of [] (first_page ∷ (second_page ∷ []))
            ++ done_with (first_page ++ second_page) ∷ [])),
      record empty_pool { pool = (20, paged) ∷ [] },
    )
unfolding Browse.resolve_browse_context storage_gateway.Admin.Access.verify_store_ownership
    storage_gateway.Admin.Access.uuid_param get_value find str_eq postgres_manager
    Postgres.get_store Postgres.get_bucket_mapping storage_gateway.Registry.Db.own_mapping Pool.get
    Pool.lookup Pool.build Pool.new_backend Browse.resolved Pool.publish size_input objects_of
    bytes_of
browse_size_stream-totals_example =
    browse_size_stream-totals paged_api 2 (request (uuids.to_string 1) []) empty_pool
      (record empty_pool { pool = (20, paged) ∷ [] }) browsed paged
      (first_page ∷ (second_page ∷ [])) [] refl
      (next_page (size_input (request (uuids.to_string 1) []) browsed) [] [] []
        (page (bytes "t") first_page true) (second_page ∷ []) refl refl
        (last_page
          (record (size_input (request (uuids.to_string 1) []) browsed) {
            continuation_token = bytes "t";
          })
          [] [] (page [] second_page false) refl refl))
      (omega arith) (omega arith) (omega arith)

abbrev kept_key : World Cached Keys
kept_key = record (cached_world []) {
  mgr = (Cache.lookup_access_key uuids 60 (bytes "AK") (cached_world []).mgr).1;
}

tables-WellFormed : WellFormed (tables [])
unfolding any
tables-WellFormed = record {
  tenants_unique = (refl, tt);
  keys_unique = (refl, tt);
  stores_unique = (refl, tt);
  mappings_unique = (refl, tt);
  uploads_unique = (refl, tt);
  key_tenants = (refl, tt);
  store_tenants = (refl, tt);
  mapping_stores = (refl, tt);
  upload_stores = (refl, tt);
}

revoke_access_key-refused_example :
    (row : AccessKeyRow) × (find (own_key 10 1) (tables []).access_keys ≡ some row)
    × ((Cache.lookup_access_key uuids 60 row.access_key
          (Cache.revoke_access_key 10 1 kept_key.mgr).1).0
        ≡ err access_key_not_found)
unfolding Cache.lookup_access_key Cache.key_hit storage_gateway.Registry.Cache.Keyspace.fetch
    storage_gateway.Registry.Cache.Keyspace.value_at
    storage_gateway.Registry.Cache.Keyspace.lookup_items Postgres.lookup_access_key
    Cache.remember_key find storage_gateway.Registry.Db.active_key str_eq
    storage_gateway.Registry.Cache.Keyspace.set Cache.revoke_access_key Postgres.list_access_keys
    Postgres.revoke_access_key own_key Cache.invalidate_key_of Cache.invalidate_access_key
    storage_gateway.Registry.Db.sort_by storage_gateway.Registry.Db.insert_by filter
    storage_gateway.Registry.Cache.Keyspace.del storage_gateway.Registry.Cache.Keyspace.remove_items
    storage_gateway.Registry.Db.update_where
revoke_access_key-refused_example =
    revoke_access_key-refused uuids 60 10 1 kept_key.mgr
      (Cache.revoke_access_key 10 1 kept_key.mgr).1 tables-WellFormed refl refl refl
