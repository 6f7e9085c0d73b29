-- ===== src/Rotate/Committed.antt =====
-- cmd/rotate-key/main.go: what a run that commits leaves opens with the new key.
use storage_gateway.Prelude.{
  ℕ, ◌≡◌, refl, sym, ap, ◌∙◌, Bool, true, false, Option, none, some, List, [], ◌∷◌, map, arith, Str,
  filter, any, Result, ok, err, ok_injective, continue_ok, pure, continue, ◌>>=◌, ◌>>◌,
}
use mathlib.Core.Path.{subst}
use storage_gateway.Registry.{Store, AccessKeyRow}
use storage_gateway.Registry.Db.{Db, is_active, sort_by}
use storage_gateway.Registry.Db.WellFormed.{
  WellFormed, Distinct, same_store, same_key, Distinct-filter,
}
use storage_gateway.Rotate.{
  Column, Keys, RotateError, querying, beginning, attempt, statement, reencrypt, Exit, failed,
  committed, rotate, finish, commit, begin_then, reencrypt_all, reencrypt_stores,
  reencrypt_access_keys, sanity_probe, store_column, key_column, put_store, put_key, by_id,
  store_cell, key_cell,
}
use storage_gateway.Rotate.Probe.{SameTables, probed, attempt-SameTables}
use storage_gateway.Rotate.Column.{
  sealed_at, has_row, HasKeys, HasKeys-sort, sealed_at-sort, sealed_at-has_row,
  store_column-put_store, key_column-put_key,
}
use storage_gateway.Rotate.Loop.{
  HasNonces, IsResealed, IsColumn, IsFixed, reencrypt_fixed, reencrypt-IsResealed,
}

fresh_store :
    (s : Store) (ts : List Store)
    → any (same_store s) ts ≡ false
    → has_row s.id (map store_cell ts) ≡ false
unfolding has_row any
fresh_store s [] n = refl
fresh_store s (t ∷ ts) n = ground (arith, fresh_store s ts)

fresh_key :
    (k : AccessKeyRow) (ks : List AccessKeyRow)
    → any (same_key k) ks ≡ false
    → has_row k.id (map key_cell ks) ≡ false
unfolding has_row any
fresh_key k [] n = refl
fresh_key k (l ∷ ks) n = ground (arith, fresh_key k ks)

-- The constraints of the schema give the rows of both queries different ids.
HasKeys-stores : (ss : List Store) → Distinct same_store ss → HasKeys (map store_cell ss)
HasKeys-stores [] h = tt
HasKeys-stores (s ∷ ss) (n, h) = (fresh_store s ss n, HasKeys-stores ss h)

HasKeys-keys : (ks : List AccessKeyRow) → Distinct same_key ks → HasKeys (map key_cell ks)
HasKeys-keys [] h = tt
HasKeys-keys (k ∷ ks) (n, h) = (fresh_key k ks n, HasKeys-keys ks h)

query_rows :
    (g : Db → Column) (fs : List Bool) (db : Db) (rows : Column)
    → (attempt querying fs (λ d. (g d, d)) db).0 ≡ ok rows
    → rows ≡ g (attempt querying fs (λ d. (g d, d)) db).1
query_rows g [] db rows h = sym (ok_injective h)
query_rows g (true ∷ fs) db rows h = ground arith
query_rows g (false ∷ fs) db rows h = sym (ok_injective h)

module _ (k : Keys) (nonces : HasNonces k) (put : ℕ → Str → Db → Db) (column : Db → Column)
    (h : IsColumn k put column) where
  -- A table that was read and written through.
  table_done :
      (n m j : ℕ) (db after : Db) (enc : Str)
      → (statement querying (λ d. (sort_by by_id (column d), d)) >>= λ rows. reencrypt k put rows n)
          db
        ≡ (ok m, after)
      → HasKeys (column db)
      → sealed_at j (column db) ≡ some enc
      → (enc' : Str) × (sealed_at j (column after) ≡ some enc') × IsResealed k enc enc'
  table_done n m j db after enc e d f =
      let read = statement querying (λ d. (sort_by by_id (column d), d)) db in
      let step = continue_ok read.0 (λ rows. reencrypt k put rows n) read.1 after m e in
      let rows : step.0 ≡ sort_by by_id (column read.1) =
        query_rows (λ d. sort_by by_id (column d)) db.faults db step.0 step.1 in
      let same : column read.1 ≡ column db =
        ap column (attempt-SameTables querying db.faults (λ d. sort_by by_id (column d)) db)
        ∙ h.unfaulted db read.1.faults in
      let sorted : step.0 ≡ sort_by by_id (column db) = rows ∙ ap (sort_by by_id) same in
      reencrypt-IsResealed k put column h nonces step.0 n m j read.1 after enc step.2
        (subst HasKeys (sym sorted) (HasKeys-sort (column db) d))
        (ap (sealed_at j) sorted ∙ sealed_at-sort j (column db) d ∙ f)
        (ap (has_row j) same ∙ sealed_at-has_row j (column db) enc f)

failed-ne-committed :
    {x : RotateError} {a b : Db} → ◌≡◌ {A = Exit × Db} (failed x, a) (committed, b) → ⊥
failed-ne-committed h = cc

-- A table's pass leaves the other table's column alone.
pass_fixed :
    (k : Keys) (put : ℕ → Str → Db → Db) (g : Db → Column) (c : Db → Column)
    → IsFixed k put g
    → (n : ℕ) (db : Db) (fs : List Bool)
    → g
        (continue
          (attempt querying fs (λ d. (c d, d)) db).0
          (λ rows. reencrypt k put rows n)
          (attempt querying fs (λ d. (c d, d)) db).1).1
      ≡ g db
pass_fixed k put g c h n db [] = reencrypt_fixed k put g h (c db) n db
pass_fixed k put g c h n db (true ∷ fs) = h.unfaulted db fs
pass_fixed k put g c h n db (false ∷ fs) =
    reencrypt_fixed k put g h (c (record db { faults = fs })) n (record db { faults = fs })
    ∙ h.unfaulted db fs

module _ (k : Keys) where
  stores-IsColumn : IsColumn k put_store store_column
  unfolding store_column
  stores-IsColumn = record { puts = store_column-put_store; unfaulted = λ db fs. refl }

  keys-IsColumn : IsColumn k put_key key_column
  unfolding key_column
  keys-IsColumn = record { puts = key_column-put_key; unfaulted = λ db fs. refl }

  stores-IsFixed : IsFixed k put_key store_column
  unfolding store_column put_key
  stores-IsFixed = record { puts = λ id v db. refl; unfaulted = λ db fs. refl }

  keys-IsFixed : IsFixed k put_store key_column
  unfolding key_column put_store
  keys-IsFixed = record { puts = λ id v db. refl; unfaulted = λ db fs. refl }

  finish_committed :
      (lost : Bool) (before after db' : Db) (res : Result RotateError (ℕ × ℕ))
      → finish lost false before (res, after) ≡ (committed, db')
      → (x : ℕ × ℕ) × (res ≡ ok x) × SameTables after db'
  finish_committed lost before after db' (ok x) e =
      (x, refl, commit_tables before after db' after.faults e)
    where
      commit_tables :
          (b a d : Db) (fs : List Bool) → commit lost b fs a ≡ (committed, d) → SameTables a d
      commit_tables b a d [] e = subst (SameTables a) (ap (λ p. p.1) e) refl
      commit_tables b a d (true ∷ fs) e = absurd (failed-ne-committed e)
      commit_tables b a d (false ∷ fs) e = subst (SameTables a) (ap (λ p. p.1) e) refl
  finish_committed lost before after db' (err x) e = absurd (failed-ne-committed e)

  begun :
      (lost : Bool) (res : Result RotateError (Unit {0})) (mid db' : Db)
      → begin_then k lost false (res, mid) ≡ (committed, db')
      → finish lost false mid (reencrypt_all k mid) ≡ (committed, db')
  begun lost (ok u) mid db' e = e
  begun lost (err x) mid db' e = absurd (failed-ne-committed e)

  -- Both columns after the two passes.
  passes_done :
      HasNonces k
      → (mid after : Db) (x : ℕ × ℕ) (j : ℕ) (enc : Str) → reencrypt_all k mid ≡ (ok x, after)
      → HasKeys (store_column mid)
      → HasKeys (key_column mid)
      → (sealed_at j (store_column mid) ≡ some enc
          → (enc' : Str) × (sealed_at j (store_column after) ≡ some enc') × IsResealed k enc enc')
        × (sealed_at j (key_column mid) ≡ some enc
            → (enc' : Str) × (sealed_at j (key_column after) ≡ some enc') × IsResealed k enc enc')
  unfolding reencrypt_all reencrypt_stores reencrypt_access_keys
  passes_done nonces mid after x j enc e hs hk =
      let one = reencrypt_stores k 0 mid in
      let step =
        continue_ok one.0 (λ n. reencrypt_access_keys k n >>= λ m. pure (n, m)) one.1 after x e in
      let two = reencrypt_access_keys k step.0 one.1 in
      let last = continue_ok two.0 (λ m. pure (step.0, m)) two.1 after x step.2 in
      let final : two.1 ≡ after = ap (λ p. p.1) last.2 in
      let stores_kept : store_column after ≡ store_column one.1 =
        ap store_column (sym final)
        ∙ pass_fixed k put_key store_column (λ d. sort_by by_id (key_column d)) stores-IsFixed
            step.0 one.1 one.1.faults in
      let keys_kept : key_column one.1 ≡ key_column mid =
        pass_fixed k put_store key_column (λ d. sort_by by_id (store_column d)) keys-IsFixed 0 mid
          mid.faults in
      (
        λ f.
            let done =
              table_done k nonces put_store store_column stores-IsColumn 0 step.0 j mid one.1 enc
                (ap (λ o. (o, one.1)) step.1) hs f in
            (done.0, ap (sealed_at j) stores_kept ∙ done.1, done.2),
        λ f.
            table_done k nonces put_key key_column keys-IsColumn step.0 last.0 j one.1 after enc
              (ap (λ o. (o, two.1)) last.1 ∙ ap (λ d. (ok last.0, d)) final)
              (subst HasKeys (sym keys_kept) hk) (ap (sealed_at j) keys_kept ∙ f),
      )

  columns_kept :
      (a b : Db)
      → SameTables a b
      → (store_column b ≡ store_column a) × (key_column b ≡ key_column a)
  unfolding store_column key_column
  columns_kept a b h = (ap store_column h, ap key_column h)

  rows-IsResealed :
      HasNonces k
      → (lost : Bool) (db db' : Db) (j : ℕ) (enc : Str) → WellFormed db
      → rotate k lost false db ≡ (committed, db')
      → (sealed_at j (store_column db) ≡ some enc
          → (enc' : Str) × (sealed_at j (store_column db') ≡ some enc') × IsResealed k enc enc')
        × (sealed_at j (key_column db) ≡ some enc
            → (enc' : Str) × (sealed_at j (key_column db') ≡ some enc') × IsResealed k enc enc')
  unfolding rotate store_column key_column
  rows-IsResealed nonces lost db db' j enc w e =
      let start = (sanity_probe k >> statement beginning (λ d. (tt, d))) db in
      let same : SameTables db start.1 = probed k db in
      let all = reencrypt_all k start.1 in
      let run = finish_committed lost start.1 all.1 db' all.0 (begun lost start.0 start.1 db' e) in
      let done =
        passes_done nonces start.1 all.1 run.0 j enc (ap (λ o. (o, all.1)) run.1)
          (subst HasKeys (sym (columns_kept db start.1 same).0)
            (HasKeys-stores db.stores w.stores_unique))
          (subst HasKeys (sym (columns_kept db start.1 same).1) (
            HasKeys-keys (filter is_active db.access_keys)
              (Distinct-filter same_key is_active db.access_keys w.keys_unique))) in
      let kept = columns_kept all.1 db' run.2 in
      (
        λ f.
            let d = done.0 (ap (sealed_at j) (columns_kept db start.1 same).0 ∙ f) in
            (d.0, ap (sealed_at j) kept.0 ∙ d.1, d.2),
        λ f.
            let d = done.1 (ap (sealed_at j) (columns_kept db start.1 same).1 ∙ f) in
            (d.0, ap (sealed_at j) kept.1 ∙ d.1, d.2),
      )

  -- What stands in a row after the run, for what stood there before it.
  pub Carried : Option Str → Option Str → Type 0
  Carried none after = Unit
  Carried (some enc) none = ⊥
  Carried (some enc) (some enc') = IsResealed k enc enc'

  carried :
      (before after : Option Str)
      → ((enc : Str)
          → before ≡ some enc
          → (enc' : Str) × (after ≡ some enc') × IsResealed k enc enc')
      → Carried before after
  unfolding Carried
  carried none after h = tt
  carried (some enc) after h = let r = h enc refl in subst (Carried (some enc)) (sym r.1) r.2

  -- A run that commits, from a state that keeps the constraints of the schema and with nonces of the
  -- right size, leaves each store's configuration and each active key's secret such that the new key
  -- opens it to the plaintext that the old key opened it to before.
  pub rotate-IsResealed :
      HasNonces k
      → (lost : Bool) (db db' : Db) (j : ℕ) → WellFormed db
      → rotate k lost false db ≡ (committed, db')
      → Carried (sealed_at j (store_column db)) (sealed_at j (store_column db'))
        × Carried (sealed_at j (key_column db)) (sealed_at j (key_column db'))
  rotate-IsResealed nonces lost db db' j w e = (
    carried (sealed_at j (store_column db)) (sealed_at j (store_column db'))
        (λ enc. (rows-IsResealed nonces lost db db' j enc w e).0),
    carried (sealed_at j (key_column db)) (sealed_at j (key_column db'))
        (λ enc. (rows-IsResealed nonces lost db db' j enc w e).1),
  )
