-- ===== src/Rotate.antt =====
-- cmd/rotate-key/main.go: the program that encrypts every secret again under a new master key. It runs
-- in one transaction on the tables of Registry.Db; AES-GCM is the parameter of Crypto, and the nonces
-- that package rand gives are an argument, one for each row.
pub mod Column
pub mod Loop
pub mod Probe
pub mod Committed
pub mod Flush
use storage_gateway.Prelude.{
  ℕ, ◌+◌, ◌≡◌, Bool, true, false, Option, none, some, List, [], ◌∷◌, Str, ◌==◌, leb, length, filter,
  map, if◌then◌else◌, Result, ok, err, Exec, pure, raise, lift, ◌>>=◌, ◌>>◌,
}
use storage_gateway.Crypto.{Gcm, CryptoError, encrypt, decrypt}
use storage_gateway.Registry.{Store, AccessKeyRow}
use storage_gateway.Registry.Db.{Db, is_active, has_id, sort_by, update_where}

pub data RotateError : Type 0 where
  querying probing beginning updating committing : RotateError
  decrypting encrypting : CryptoError → RotateError

-- One statement of the transaction, which the server may fail.
abbrev pub attempt : {A : Type 0} → RotateError → List Bool → (Db → A × Db) → Exec Db RotateError A
attempt e [] f db = (ok (f db).0, (f db).1)
attempt e (true ∷ fs) f db = (err e, record db { faults = fs })
attempt e (false ∷ fs) f db =
    (ok (f (record db { faults = fs })).0, (f (record db { faults = fs })).1)

abbrev pub statement : {A : Type 0} → RotateError → (Db → A × Db) → Exec Db RotateError A
statement e f db = attempt e db.faults f db

-- The columns that the two queries select: a row's id and its ciphertext.
abbrev pub Column : Type 0
Column = List (ℕ × Str)

abbrev pub store_cell : Store → ℕ × Str
store_cell s = (s.id, s.backend_config_enc)

abbrev pub key_cell : AccessKeyRow → ℕ × Str
key_cell k = (k.id, k.secret_key_enc)

-- SELECT id, backend_config_enc FROM stores
unfoldable pub store_column : Db → Column
store_column db = map store_cell db.stores

-- SELECT id, secret_key_enc FROM access_keys WHERE revoked_at IS NULL
unfoldable pub key_column : Db → Column
key_column db = map key_cell (filter is_active db.access_keys)

abbrev pub by_id : ℕ × Str → ℕ × Str → Bool
by_id a b = leb a.0 b.0

abbrev pub seal_store : Str → Store → Store
seal_store enc s = record s { backend_config_enc = enc }

abbrev pub seal_key : Str → AccessKeyRow → AccessKeyRow
seal_key enc k = record k { secret_key_enc = enc }

-- UPDATE stores SET backend_config_enc = $1 WHERE id = $2
unfoldable pub put_store : ℕ → Str → Db → Db
put_store id enc db = record db { stores = update_where (has_id id) (seal_store enc) db.stores }

abbrev pub has_key_id : ℕ → AccessKeyRow → Bool
has_key_id id k = k.id == id

-- UPDATE access_keys SET secret_key_enc = $1 WHERE id = $2
unfoldable pub put_key : ℕ → Str → Db → Db
put_key id enc db = record db {
  access_keys = update_where (has_key_id id) (seal_key enc) db.access_keys;
}

abbrev pub or_fail :
    {A : Type 0} → (CryptoError → RotateError) → Result CryptoError A → Result RotateError A
or_fail f (ok a) = ok a
or_fail f (err e) = err (f e)

-- The keys derived from the two master keys, and the nonces.
pub record Keys : Type 0 where
  pub gcm : Gcm
  pub old : Str
  pub new : Str
  pub nonces : ℕ → Option Str

-- What main prints and how it exits.
pub data Exit : Type 0 where
  failed : RotateError → Exit
  verified : Exit
  committed : Exit

-- The transaction's work on a copy of the tables is kept by COMMIT only; the deferred Rollback drops
-- it. What the server fails meanwhile stays in the schedule. Where COMMIT fails, `lost` says whether the
-- server had applied it and only its answer was lost.
abbrev pub rolled_back : Db → Db → Db
rolled_back before after = record before { faults = after.faults }

abbrev pub commit : Bool → Db → List Bool → Db → Exit × Db
commit lost before (true ∷ fs) after =
    (failed committing, record (if lost then after else before) { faults = fs })
commit lost before (false ∷ fs) after = (committed, record after { faults = fs })
commit lost before [] after = (committed, after)

abbrev pub finish : Bool → Bool → Db → Result RotateError (ℕ × ℕ) × Db → Exit × Db
finish lost dry before (err e, after) = (failed e, rolled_back before after)
finish lost true before (ok _, after) = (verified, rolled_back before after)
finish lost false before (ok _, after) = commit lost before after.faults after

module _ (k : Keys) where
  abbrev pub resealed_with : ℕ → Result CryptoError Str → Result RotateError Str
  resealed_with n (err e) = err (decrypting e)
  resealed_with n (ok plain) = or_fail encrypting (encrypt k.gcm (k.nonces n) k.new plain)

  -- One row: decrypted with the old key, encrypted with the new one.
  unfoldable pub reseal : ℕ → Str → Result RotateError Str
  reseal n enc = resealed_with n (decrypt k.gcm k.old enc)

  module _ (put : ℕ → Str → Db → Db) where
    abbrev pub write_row :
        (ℕ → Exec Db RotateError ℕ) → ℕ → ℕ → Result RotateError Str → Exec Db RotateError ℕ
    write_row go id n (err e) db = (err e, db)
    write_row go id n (ok enc) db = (statement updating (λ d. (tt, put id enc d)) >> go (n + 1)) db

    -- The loop over the rows that were read; `n` counts the nonces that are used up.
    unfoldable pub reencrypt : Column → ℕ → Exec Db RotateError ℕ
    reencrypt [] n = pure n
    reencrypt ((id, enc) ∷ rows) n = write_row (reencrypt rows) id n (reseal n enc)

  unfoldable pub reencrypt_stores : ℕ → Exec Db RotateError ℕ
  reencrypt_stores n = do
    rows ← statement querying (λ db. (sort_by by_id (store_column db), db))
    reencrypt put_store rows n

  unfoldable pub reencrypt_access_keys : ℕ → Exec Db RotateError ℕ
  reencrypt_access_keys n = do
    rows ← statement querying (λ db. (sort_by by_id (key_column db), db))
    reencrypt put_key rows n

  abbrev pub probe_row : Column → Result RotateError (Unit {0})
  probe_row [] = ok tt
  probe_row ((id, enc) ∷ rows) = elim (decrypt k.gcm k.old enc) [
    | err e ↦ err probing
    | ok plain ↦ ok tt
  ]

  -- sanityProbe: the first store row, if there is one, decrypts with the old key.
  unfoldable pub sanity_probe : Exec Db RotateError (Unit {0})
  sanity_probe = do rows ← statement querying (λ db. (store_column db, db)); lift (probe_row rows)

  unfoldable pub reencrypt_all : Exec Db RotateError (ℕ × ℕ)
  reencrypt_all = do n ← reencrypt_stores 0; m ← reencrypt_access_keys n; pure (n, m)

  abbrev pub begin_then : Bool → Bool → Result RotateError (Unit {0}) × Db → Exit × Db
  begin_then lost dry (err e, db) = (failed e, db)
  begin_then lost dry (ok _, db) = finish lost dry db (reencrypt_all db)

  -- main, from the probe to the commit; BEGIN is a statement of its own.
  unfoldable pub rotate : Bool → Bool → Db → Exit × Db
  rotate lost dry db = begin_then lost dry ((sanity_probe >> statement beginning (λ d. (tt, d))) db)
