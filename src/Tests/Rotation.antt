-- ===== src/Tests/Rotation.antt =====
-- A rotation of one store and one access key.
use storage_gateway.Prelude.{
  ℕ, ◌≡◌, refl, Bool, false, none, some, List, [], ◌∷◌, ◌++◌, Str, bytes, filter, any, length,
}
use mathlib.Core.Path.{subst}
use storage_gateway.Registry.{Tenant, Store, AccessKeyRow, local_fs, proxy}
use storage_gateway.Registry.Db.{Db}
use storage_gateway.Registry.Db.WellFormed.{WellFormed}
use storage_gateway.Crypto.{decrypt}
use storage_gateway.Rotate.{Keys, rotate, committed, store_column, key_column}
use storage_gateway.Rotate.Column.{sealed_at}
use storage_gateway.Rotate.Committed.{Carried, rotate-IsResealed}
use storage_gateway.Tests.Sealing.{tagging, append_tag}

abbrev keys : Keys
keys = record {
  gcm = tagging;
  old = bytes "0123456789abcdef";
  new = bytes "fedcba9876543210";
  nonces = λ n. some (bytes "nonce-of-12b");
}

abbrev sealed : Str → Str
sealed s = bytes "nonce-of-12b" ++ append_tag [] [] s

abbrev acme : Tenant
acme = record { id = 1; name = bytes "acme"; created_at = 1 }

abbrev store : Store
store = record {
  id = 20;
  tenant_id = 1;
  name = bytes "disk";
  backend_type = local_fs;
  backend_config_enc = sealed (bytes "cfg");
  presigned_mode = proxy;
  allowed_origins = [];
  created_at = 4;
  updated_at = 4;
}

abbrev key : AccessKeyRow
key = record {
  id = 10;
  tenant_id = 1;
  access_key = bytes "AK";
  secret_key_enc = sealed (bytes "sec");
  readonly = false;
  created_at = 3;
  revoked_at = none;
}

abbrev database : List Bool → Db
database faults = record {
  tenants = acme ∷ [];
  access_keys = key ∷ [];
  stores = store ∷ [];
  bucket_mappings = [];
  multipart_uploads = [];
  now = 9;
  faults = faults;
}

database-WellFormed : WellFormed (database [])
unfolding any
database-WellFormed = record {
  tenants_unique = (refl, tt);
  keys_unique = (refl, tt);
  stores_unique = (refl, tt);
  mappings_unique = tt;
  uploads_unique = tt;
  key_tenants = (refl, tt);
  store_tenants = (refl, tt);
  mapping_stores = tt;
  upload_stores = tt;
}

nonces_sized : (n : ℕ) (s : Str) → some (bytes "nonce-of-12b") ≡ some s → length s ≡ 12
nonces_sized n s h = subst (λ o. length (elim o [ none ↦ [] | some t ↦ t ]) ≡ 12) h refl

committed_run :
    rotate keys false false (database []) ≡ (committed, (rotate keys false false (database [])).1)
unfolding rotate storage_gateway.Rotate.sanity_probe store_column decrypt
    storage_gateway.Crypto.valid_key storage_gateway.Rotate.reencrypt_all
    storage_gateway.Rotate.reencrypt_stores storage_gateway.Rotate.reencrypt
    storage_gateway.Registry.Db.sort_by storage_gateway.Rotate.reseal storage_gateway.Crypto.encrypt
    storage_gateway.Rotate.reencrypt_access_keys storage_gateway.Rotate.put_store key_column filter
    storage_gateway.Rotate.put_key
committed_run = refl

rotate-IsResealed_example :
    Carried keys
      (sealed_at 20 (store_column (database [])))
      (sealed_at 20 (store_column (rotate keys false false (database [])).1))
    × Carried keys
        (sealed_at 20 (key_column (database [])))
        (sealed_at 20 (key_column (rotate keys false false (database [])).1))
rotate-IsResealed_example =
    rotate-IsResealed keys nonces_sized false (database [])
      (rotate keys false false (database [])).1 20 database-WellFormed committed_run
