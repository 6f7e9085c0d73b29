-- ===== src/Admin/Keys/Usable.antt =====
-- internal/api/admin/keys.go: the key that createAccessKey shows is one that the registry knows.
use storage_gateway.Prelude.{
  ℕ, zero, suc, ◌%◌, ◌<◌, ◌≡◌, refl, sym, ap, ◌∙◌, Bool, true, false, ◌&&◌, ◌||◌, none, some, List,
  [], ◌∷◌, ◌++◌, arith, leb, ◌==◌, if◌then◌else◌, Str, bytes, str_eq, str_eq_refl, find, any,
  length, Result, ok, err, ok_injective, result-err-ne-ok,
}
use mathlib.Core.Path.{subst}
use storage_gateway.Registry.{AccessKeyRow, Error, access_key_not_found, other, unique_violation}
use storage_gateway.Registry.Db.{Db, active_key}
use storage_gateway.Registry.Db.Attempts.{attempt_ok}
use storage_gateway.Registry.Postgres
use storage_gateway.Crypto.{encrypt, decrypt}
use storage_gateway.Crypto.RoundTrip.{decrypt-encrypted}
use storage_gateway.S3.Handler.{World, get_value}
use storage_gateway.Admin.{Request, Response, CreateKeyResponse, created_key_body, write_json}
use storage_gateway.Admin.Access.{Api}
use storage_gateway.Admin.Access.Passed.{ask_ok, body_ok, try_ok, param_ok}
use storage_gateway.Admin.Managers.{postgres_manager}
use storage_gateway.Admin.Keys.{
  generate_access_key_id, generate_secret_key, created, issue_key, readonly_or_default,
  create_access_key, byte_at, alphabet, letters,
}

module _ {M S : Type 0} (api : Api M S) (r : Request) (tenant : ℕ) (readonly : Bool) where
  -- What a run of issueKey that ends with a response went through.
  issue_key-steps :
      (w v : World M S) (res : Response)
      → issue_key api r tenant readonly w ≡ (ok res, v)
      → (ak : Str) × (secret : Str) × (enc : Str) × (row : AccessKeyRow) × (generate_access_key_id
            r.fresh.key_bytes
          ≡ ok ak)
        × (encrypt api.gcm r.fresh.nonce api.crypto_key secret ≡ ok enc)
        × ((api.manager.create_access_key r.fresh.row_id tenant ak enc readonly w.mgr).0 ≡ ok row)
        × ((api.manager.create_access_key r.fresh.row_id tenant ak enc readonly w.mgr).1 ≡ v.mgr)
        × (res ≡ write_json 201 (created_key_body (created tenant secret row)))
  unfolding issue_key
  issue_key-steps w v res h =
      let a =
        try_ok w v res (bytes "failed to generate key") (generate_access_key_id r.fresh.key_bytes) _
          h in
      let b =
        try_ok w v res (bytes "failed to generate secret")
          (generate_secret_key api.base64 r.fresh.secret_bytes) _ a.2 in
      let c =
        try_ok w v res (bytes "failed to encrypt secret")
          (encrypt api.gcm r.fresh.nonce api.crypto_key b.0) _ b.2 in
      let d =
        ask_ok w v res (api.manager.create_access_key r.fresh.row_id tenant a.0 c.0 readonly) _
          c.2 in
      (
        a.0,
        b.0,
        c.0,
        d.0,
        a.1,
        c.1,
        d.1,
        ap (λ p. p.1.mgr) d.2,
        sym (ok_injective (ap (λ p. p.0) d.2)),
      )

found :
    (ak : Str) (row : AccessKeyRow) (rows : List AccessKeyRow)
    → row.access_key ≡ ak
    → row.revoked_at ≡ none
    → find (active_key ak) (row ∷ rows) ≡ some row
unfolding find active_key
found ak row rows k a = rw (k, a, str_eq_refl ak) refl

-- An INSERT that two tests may refuse.
abbrev choose : {A T : Type 0} → Bool → Bool → Error → Error → A → T → T → Result Error A × T
choose b c e f x s t = if b then (err e, s) else if c then (ok x, t) else (err f, s)

accepted :
    {A T : Type 0} (b c : Bool) (e f : Error) (x y : A) (s t : T)
    → (choose b c e f x s t).0 ≡ ok y
    → (choose b c e f x s t ≡ (ok y, t)) × (x ≡ y)
accepted true c e f x y s t h = absurd (result-err-ne-ok h)
accepted false true e f x y s t h = (ap (λ a. (a, t)) h, ok_injective h)
accepted false false e f x y s t h = absurd (result-err-ne-ok h)

module _ (id tenant : ℕ) (ak enc : Str) (readonly : Bool) (db : Db) where
  abbrev new_row : AccessKeyRow
  new_row = record {
    id = id;
    tenant_id = tenant;
    access_key = ak;
    secret_key_enc = enc;
    readonly = readonly;
    created_at = db.now;
    revoked_at = none;
  }

  inserted :
      (row : AccessKeyRow)
      → (Postgres.create_access_key id tenant ak enc readonly db).0 ≡ ok row
      → (new_row ≡ row)
        × ((Postgres.create_access_key id tenant ak enc readonly db).1.access_keys
            ≡ new_row ∷ db.access_keys)
  unfolding Postgres.create_access_key
  inserted row h =
      let step = attempt_ok db.faults _ db row h in
      let d : Db = record db { faults = step.0 } in
      let run =
        accepted (any (λ (r : AccessKeyRow). r.id == id || str_eq r.access_key ak) db.access_keys)
          (Postgres.tenant_exists tenant db) unique_violation other new_row row d
          (record d { access_keys = new_row ∷ db.access_keys }) (ap (λ p. p.0) (sym step.1) ∙ h) in
      (run.1, ap (λ p. p.1.access_keys) (step.1 ∙ run.0))

-- Over Postgres, and with nonces of twelve bytes: when createAccessKey returns, it has answered with
-- status 201 and a key of the tenant of the path, and a lookup of its access key that the server does
-- not fail finds a row of that tenant with the same readonly flag, whose secret decrypts to the secret
-- key that the response shows.
pub create_access_key-lookup :
    {S : Type 0} (api : Api Db S) (r : Request) (w v : World Db S) (res : Response)
    → api.manager ≡ postgres_manager
    → ((n : Str) → r.fresh.nonce ≡ some n → length n ≡ 12)
    → create_access_key api r w ≡ (ok res, v)
    → (key : CreateKeyResponse) × (row : AccessKeyRow) × (res
        ≡ write_json 201 (created_key_body key))
      × (api.uuids.parse (get_value (bytes "tenantID") r.params) ≡ some key.tenant_id)
      × ((Postgres.lookup_access_key key.access_key (record v.mgr { faults = [] })).0 ≡ ok row)
      × (row.tenant_id ≡ key.tenant_id)
      × (row.readonly ≡ key.readonly)
      × (decrypt api.gcm api.crypto_key row.secret_key_enc ≡ ok key.secret_key)
unfolding create_access_key postgres_manager created Postgres.lookup_access_key
create_access_key-lookup api r w v res pg sized h =
    let a = param_ok w v res api r (bytes "tenantID") (bytes "tenant_id") _ h in
    let b =
      body_ok w v res (bytes "invalid request body")
        (readonly_or_default (api.json.key_readonly r.body)) _ a.2 in
    let c = ask_ok w v res (api.manager.get_tenant a.0) _ b.2 in
    let last =
      issue_key-steps api r a.0 b.0 (record w { mgr = (api.manager.get_tenant a.0 w.mgr).1 }) v res
        c.2 in
    let mid = (api.manager.get_tenant a.0 w.mgr).1 in
    let new = new_row r.fresh.row_id a.0 last.0 last.2 b.0 mid in
    let insert = inserted r.fresh.row_id a.0 last.0 last.2 b.0 mid last.3 (
      subst (λ m. (m.create_access_key r.fresh.row_id a.0 last.0 last.2 b.0 mid).0 ≡ ok last.3) pg
        last.6) in
    let rows : v.mgr.access_keys ≡ new ∷ mid.access_keys =
      ap (λ (d : Db). d.access_keys)
        (sym (
          subst (λ m. (m.create_access_key r.fresh.row_id a.0 last.0 last.2 b.0 mid).1 ≡ v.mgr) pg
            last.7))
      ∙ insert.1 in
    (
      created a.0 last.1 new,
      new,
      last.8 ∙ ap (λ k. write_json 201 (created_key_body (created a.0 last.1 k))) (sym insert.0),
      a.1,
      ap (Postgres.row_or access_key_not_found (Postgres.lookup_columns last.0))
          (ap (find (active_key last.0)) rows ∙ found last.0 new mid.access_keys refl refl),
      refl,
      refl,
      decrypt-encrypted api.gcm api.crypto_key last.1 last.2 r.fresh.nonce sized last.5,
    )

-- Every byte passes the test.
unfoldable pub all_bytes : (ℕ → Bool) → Str → Bool
all_bytes p [] = true
all_bytes p (x ∷ s) = p x && all_bytes p s

-- An upper-case letter or a digit.
abbrev pub is_key_letter : ℕ → Bool
is_key_letter x = (leb b'A' x && leb x b'Z') || (leb b'0' x && leb x b'9')

all_bytes_at :
    (p : ℕ → Bool) (s : Str) (i : ℕ) → all_bytes p s ≡ true → i < length s → p (byte_at s i) ≡ true
unfolding all_bytes
all_bytes_at p [] i h l = elim l [ ]
all_bytes_at p (x ∷ s) zero h l = ground arith
all_bytes_at p (x ∷ s) (suc i) h l = all_bytes_at p s i (ground arith) (omega arith)

letter-IsLetter : (x : ℕ) → is_key_letter (byte_at alphabet (x % length alphabet)) ≡ true
unfolding all_bytes
letter-IsLetter x = all_bytes_at is_key_letter alphabet (x % length alphabet) refl (omega arith)

letters-all_bytes : (b : Str) → all_bytes is_key_letter (letters b) ≡ true
unfolding all_bytes letters
letters-all_bytes [] = refl
letters-all_bytes (x ∷ b) = rw (letter-IsLetter x, letters-all_bytes b) refl

length-letters : (b : Str) → length (letters b) ≡ length b
unfolding letters
length-letters [] = refl
length-letters (x ∷ b) = ap suc (length-letters b)

-- Whatever seventeen bytes rand.Read gives, the id of the access key is "SGW" and seventeen upper-case
-- letters and digits, twenty bytes in all; when rand.Read fails there is no id.
pub generate_access_key_id-shape :
    (b : Str)
    → length b ≡ 17
    → (k : Str) × (generate_access_key_id (some b) ≡ ok (bytes "SGW" ++ k))
      × (all_bytes is_key_letter k ≡ true)
      × (length (bytes "SGW" ++ k) ≡ 20)
      × (generate_access_key_id none ≡ err tt)
unfolding generate_access_key_id
generate_access_key_id-shape b h =
    (letters b, refl, letters-all_bytes b, omega (arith, length-letters b), refl)
