-- ===== src/Rotate/Loop.antt =====
-- cmd/rotate-key/main.go: what the loop over the rows of one table leaves in its column.
use storage_gateway.Prelude.{
  ℕ, ◌+◌, ◌≡◌, refl, sym, ap, ◌∙◌, inl, inr, Bool, true, false, Option, some, List, [], ◌∷◌, arith,
  ◌==◌, Bool-cases, Str, length, Result, ok, err, ok_injective, err-ne-ok, Exec, ◌>>◌,
}
use mathlib.Core.Path.{subst}
use storage_gateway.Crypto.{CryptoError, encrypt, decrypt}
use storage_gateway.Crypto.RoundTrip.{decrypt-encrypted}
use storage_gateway.Registry.Db.{Db}
use storage_gateway.Rotate.{
  Column, Keys, RotateError, updating, attempt, reseal, reencrypt, write_row, or_fail, encrypting,
  resealed_with,
}
use storage_gateway.Rotate.Column.{
  sealed_at, put_cell, has_row, HasKeys, has_row-put_cell, sealed_at-put_cell_same,
  sealed_at-put_cell,
}

some_injective : {a b : Str} → ◌≡◌ {A = Option Str} (some a) (some b) → a ≡ b
some_injective h = cc

module _ (k : Keys) where
  -- The nonces that the generator gives have the size that is asked for.
  abbrev pub HasNonces : Type 0
  HasNonces = (n : ℕ) (s : Str) → k.nonces n ≡ some s → length s ≡ 12

  -- Two ciphertexts of one plaintext, under the old key and the new.
  abbrev pub IsResealed : Str → Str → Type 0
  IsResealed enc enc' =
      (plain : Str) × (decrypt k.gcm k.old enc ≡ ok plain) × (decrypt k.gcm k.new enc' ≡ ok plain)

  resealed :
      HasNonces
      → (n : ℕ) (enc enc' : Str) (o : Result CryptoError Str) → decrypt k.gcm k.old enc ≡ o
      → resealed_with k n o ≡ ok enc'
      → IsResealed enc enc'
  resealed h n enc enc' (err e) d r = ground arith
  resealed h n enc enc' (ok plain) d r =
      sealed_plain (encrypt k.gcm (k.nonces n) k.new plain) refl r
    where
      sealed_plain :
          (o : Result CryptoError Str)
          → encrypt k.gcm (k.nonces n) k.new plain ≡ o
          → or_fail encrypting o ≡ ok enc'
          → IsResealed enc enc'
      sealed_plain (err e) c r = ground arith
      sealed_plain (ok c) e r = (
        plain,
        d,
        subst (λ t. decrypt k.gcm k.new t ≡ ok plain) (ok_injective r)
            (decrypt-encrypted k.gcm k.new plain c (k.nonces n) (h n) e),
      )

  reseal-IsResealed :
      HasNonces → (n : ℕ) (enc enc' : Str) → reseal k n enc ≡ ok enc' → IsResealed enc enc'
  unfolding reseal
  reseal-IsResealed h n enc enc' e = resealed h n enc enc' (decrypt k.gcm k.old enc) refl e

  module _ (put : ℕ → Str → Db → Db) (column : Db → Column) where
    -- The writes of a table act on its column, and a statement's fault on none.
    pub record IsColumn : Type 0 where
      pub puts : (id : ℕ) (v : Str) (db : Db) → column (put id v db) ≡ put_cell id v (column db)
      pub unfaulted : (db : Db) (fs : List Bool) → column (record db { faults = fs }) ≡ column db

    module _ (h : IsColumn) (nonces : HasNonces) where
      -- A statement that succeeds has written its cell.
      written :
          (fs : List Bool) (id : ℕ) (v : Str) (go : Exec Db RotateError ℕ) (db db' : Db) (m : ℕ)
          → (attempt updating fs (λ d. (tt, put id v d)) >> go) db ≡ (ok m, db')
          → (mid : Db) × (column mid ≡ put_cell id v (column db)) × (go mid ≡ (ok m, db'))
      written [] id v go db db' m e = (put id v db, h.puts id v db, e)
      written (true ∷ fs) id v go db db' m e = absurd (err-ne-ok e)
      written (false ∷ fs) id v go db db' m e = (
        put id v (record db { faults = fs }),
        h.puts id v (record db { faults = fs }) ∙ ap (put_cell id v) (h.unfaulted db fs),
        e,
      )

      -- One row of the loop, for a run that succeeds.
      one_row :
          (id : ℕ) (enc : Str) (rows : Column) (n m : ℕ) (db db' : Db)
          → reencrypt k put ((id, enc) ∷ rows) n db ≡ (ok m, db')
          → (v : Str) × (mid : Db) × IsResealed enc v
            × (column mid ≡ put_cell id v (column db))
            × (reencrypt k put rows (n + 1) mid ≡ (ok m, db'))
      unfolding reencrypt
      one_row id enc rows n m db db' e = from_seal (reseal k n enc) refl e
        where
          from_seal :
              (o : Result RotateError Str)
              → reseal k n enc ≡ o
              → write_row k put (reencrypt k put rows) id n o db ≡ (ok m, db')
              → (v : Str) × (mid : Db) × IsResealed enc v
                × (column mid ≡ put_cell id v (column db))
                × (reencrypt k put rows (n + 1) mid ≡ (ok m, db'))
          from_seal (err x) r e = absurd (err-ne-ok e)
          from_seal (ok v) r e =
              let w = written db.faults id v (reencrypt k put rows (n + 1)) db db' m e in
              (v, w.0, reseal-IsResealed nonces n enc v r, w.1, w.2)

      -- The loop leaves the rows alone that it does not name.
      reencrypt_other :
          (rows : Column) (n m j : ℕ) (db db' : Db)
          → reencrypt k put rows n db ≡ (ok m, db')
          → has_row j rows ≡ false
          → sealed_at j (column db') ≡ sealed_at j (column db)
      unfolding has_row
      reencrypt_other [] n m j db db' e f =
          ap (λ d. sealed_at j (column d)) (sym (unfold reencrypt in ap (λ p. p.1) e))
      reencrypt_other ((id, enc) ∷ rows) n m j db db' e f =
          let row = one_row id enc rows n m db db' e in
          reencrypt_other rows (n + 1) m j row.1 db' row.4 (ground arith)
          ∙ ap (sealed_at j) row.3
          ∙ sealed_at-put_cell id j row.0 (column db)
          ∙ ground (arith, f)

      -- The ciphertext of every row that it names is resealed.
      pub reencrypt-IsResealed :
          (rows : Column) (n m j : ℕ) (db db' : Db) (enc : Str)
          → reencrypt k put rows n db ≡ (ok m, db')
          → HasKeys rows
          → sealed_at j rows ≡ some enc
          → has_row j (column db) ≡ true
          → (enc' : Str) × (sealed_at j (column db') ≡ some enc') × IsResealed enc enc'
      unfolding sealed_at
      reencrypt-IsResealed [] n m j db db' enc e d f p = absurd (ground arith)
      reencrypt-IsResealed ((id, c) ∷ rows) n m j db db' enc e (fresh, d) f p =
          let row = one_row id c rows n m db db' e in
          elim (Bool-cases (id == j)) [
            | inl here ↦
                let same : id ≡ j = ground arith in
                (
                  row.0,
                  reencrypt_other rows (n + 1) m j row.1 db' row.4
                        (subst (λ i. has_row i rows ≡ false) same fresh)
                      ∙ ap (sealed_at j) (row.3 ∙ ap (λ i. put_cell i row.0 (column db)) same)
                      ∙ sealed_at-put_cell_same j row.0 (column db) p,
                  subst (λ t. IsResealed t row.0) (some_injective (rw here at f)) row.2,
                )
            | inr other ↦
                reencrypt-IsResealed rows (n + 1) m j row.1 db' enc row.4 d (rw other at f)
                  (ap (has_row j) row.3 ∙ has_row-put_cell id j row.0 (column db) ∙ p)
          ]

-- The loop leaves alone what the writes leave alone, whatever fails.
module _ (k : Keys) (put : ℕ → Str → Db → Db) {X : Type 0} (g : Db → X) where
  pub record IsFixed : Type 0 where
    pub puts : (id : ℕ) (v : Str) (db : Db) → g (put id v db) ≡ g db
    pub unfaulted : (db : Db) (fs : List Bool) → g (record db { faults = fs }) ≡ g db

  module _ (h : IsFixed) where
    write_fixed :
        (fs : List Bool) (id : ℕ) (v : Str) (go : Exec Db RotateError ℕ) (db : Db)
        → ((d : Db) → g (go d).1 ≡ g d)
        → g ((attempt updating fs (λ d. (tt, put id v d)) >> go) db).1 ≡ g db
    write_fixed [] id v go db l = l (put id v db) ∙ h.puts id v db
    write_fixed (true ∷ fs) id v go db l = h.unfaulted db fs
    write_fixed (false ∷ fs) id v go db l =
        l (put id v (record db { faults = fs }))
        ∙ h.puts id v (record db { faults = fs })
        ∙ h.unfaulted db fs

    row_fixed :
        (id n : ℕ) (o : Result RotateError Str) (go : ℕ → Exec Db RotateError ℕ) (db : Db)
        → ((d : Db) → g (go (n + 1) d).1 ≡ g d)
        → g (write_row k put go id n o db).1 ≡ g db
    row_fixed id n (ok v) go db l = write_fixed db.faults id v (go (n + 1)) db l
    row_fixed id n (err e) go db l = refl

    pub reencrypt_fixed : (rows : Column) (n : ℕ) (db : Db) → g (reencrypt k put rows n db).1 ≡ g db
    unfolding reencrypt
    reencrypt_fixed [] n db = refl
    reencrypt_fixed ((id, enc) ∷ rows) n db =
        row_fixed id n (reseal k n enc) (reencrypt k put rows) db (reencrypt_fixed rows (n + 1))
