-- ===== src/Rotate/Column.antt =====
-- A column of ciphertexts by row id, and what sorting and updating do to it.
use storage_gateway.Prelude.{
  ℕ, ◌≡◌, ◌∙◌, ap, refl, Bool, true, false, ◌||◌, Option, none, some, List, [], ◌∷◌, Str, ◌==◌,
  filter, map, if◌then◌else◌, arith, Bool-cases, inl, inr,
}
use storage_gateway.Registry.{Store, AccessKeyRow}
use storage_gateway.Registry.Db.{Db, insert_by, sort_by, update_where, is_active, has_id}
use storage_gateway.Rotate.{
  Column, store_column, key_column, put_store, put_key, by_id, store_cell, key_cell, seal_store,
  seal_key, has_key_id,
}

-- The ciphertext of a row.
unfoldable pub sealed_at : ℕ → Column → Option Str
sealed_at id [] = none
sealed_at id ((i, enc) ∷ c) = if i == id then some enc else sealed_at id c

unfoldable pub put_cell : ℕ → Str → Column → Column
put_cell id v [] = []
put_cell id v ((i, enc) ∷ c) = (i, if i == id then v else enc) ∷ put_cell id v c

unfoldable pub has_row : ℕ → Column → Bool
has_row id [] = false
has_row id ((i, enc) ∷ c) = i == id || has_row id c

-- No two rows have one id.
abbrev pub HasKeys : Column → Type 0
HasKeys [] = Unit
HasKeys ((i, enc) ∷ c) = (has_row i c ≡ false) × HasKeys c

pub sealed_at-put_cell :
    (id j : ℕ) (v : Str) (c : Column)
    → sealed_at j (put_cell id v c)
      ≡ (if id == j then (if has_row id c then some v else none) else sealed_at j c)
unfolding sealed_at put_cell has_row
sealed_at-put_cell id j v [] = ground arith
sealed_at-put_cell id j v ((i, enc) ∷ c) = ground (arith, sealed_at-put_cell id j v c)

pub has_row-put_cell : (id j : ℕ) (v : Str) (c : Column) → has_row j (put_cell id v c) ≡ has_row j c
unfolding put_cell has_row
has_row-put_cell id j v [] = refl
has_row-put_cell id j v ((i, enc) ∷ c) = ap (λ b. i == j || b) (has_row-put_cell id j v c)

pub sealed_at-put_cell_same :
    (j : ℕ) (v : Str) (c : Column) → has_row j c ≡ true → sealed_at j (put_cell j v c) ≡ some v
sealed_at-put_cell_same j v c h = ground (arith, sealed_at-put_cell j j v c)

pub sealed_at-has_row :
    (id : ℕ) (c : Column) (v : Str) → sealed_at id c ≡ some v → has_row id c ≡ true
unfolding sealed_at has_row
sealed_at-has_row id [] v h = ground arith
sealed_at-has_row id ((i, enc) ∷ c) v h = ground (arith, sealed_at-has_row id c v)

has_row-insert :
    (id i : ℕ) (v : Str) (c : Column)
    → has_row id (insert_by by_id (i, v) c) ≡ (i == id || has_row id c)
unfolding has_row insert_by
has_row-insert id i v [] = refl
has_row-insert id i v ((j, w) ∷ c) = ground (arith, has_row-insert id i v c)

sealed_at-insert :
    (id i : ℕ) (v : Str) (c : Column)
    → has_row i c ≡ false
    → sealed_at id (insert_by by_id (i, v) c) ≡ (if i == id then some v else sealed_at id c)
unfolding sealed_at insert_by has_row
sealed_at-insert id i v [] h = refl
sealed_at-insert id i v ((j, w) ∷ c) h = ground (arith, sealed_at-insert id i v c)

HasKeys-insert :
    (i : ℕ) (v : Str) (c : Column)
    → has_row i c ≡ false
    → HasKeys c
    → HasKeys (insert_by by_id (i, v) c)
unfolding insert_by has_row
HasKeys-insert i v [] h k = (refl, tt)
HasKeys-insert i v ((j, w) ∷ c) h k = ground (arith, HasKeys-insert i v c, has_row-insert j i v c)

pub has_row-sort : (id : ℕ) (c : Column) → has_row id (sort_by by_id c) ≡ has_row id c
unfolding sort_by has_row
has_row-sort id [] = refl
has_row-sort id ((i, v) ∷ c) =
    has_row-insert id i v (sort_by by_id c) ∙ ap (λ b. i == id || b) (has_row-sort id c)

-- ORDER BY id keeps the rows.
pub HasKeys-sort : (c : Column) → HasKeys c → HasKeys (sort_by by_id c)
unfolding sort_by
HasKeys-sort [] h = tt
HasKeys-sort ((i, v) ∷ c) (n, h) =
    HasKeys-insert i v (sort_by by_id c) (has_row-sort i c ∙ n) (HasKeys-sort c h)

pub sealed_at-sort :
    (id : ℕ) (c : Column) → HasKeys c → sealed_at id (sort_by by_id c) ≡ sealed_at id c
unfolding sort_by sealed_at
sealed_at-sort id [] h = refl
sealed_at-sort id ((i, v) ∷ c) (n, h) =
    sealed_at-insert id i v (sort_by by_id c) (has_row-sort i c ∙ n)
    ∙ ap (λ o. if i == id then some v else o) (sealed_at-sort id c h)

store_cells :
    (id : ℕ) (v : Str) (ss : List Store)
    → map store_cell (update_where (has_id id) (seal_store v) ss)
      ≡ put_cell id v (map store_cell ss)
unfolding update_where put_cell
store_cells id v [] = refl
store_cells id v (s ∷ ss) = elim (Bool-cases (s.id == id)) [
  | inl here ↦ rw here (ap (λ c. (s.id, v) ∷ c) (store_cells id v ss))
  | inr other ↦ rw other (ap (λ c. (s.id, s.backend_config_enc) ∷ c) (store_cells id v ss))
]

key_cells :
    (id : ℕ) (v : Str) (ks : List AccessKeyRow)
    → map key_cell (filter is_active (update_where (has_key_id id) (seal_key v) ks))
      ≡ put_cell id v (map key_cell (filter is_active ks))
unfolding update_where put_cell filter
key_cells id v [] = refl
key_cells id v (k ∷ ks) = elim (Bool-cases (k.id == id)) [
  | inl here ↦ elim (Bool-cases (is_active k)) [
    | inl live ↦ rw (here, live) (rw here (ap (λ c. (k.id, v) ∷ c) (key_cells id v ks)))
    | inr dead ↦ rw (here, dead) (key_cells id v ks)
  ]
  | inr other ↦ elim (Bool-cases (is_active k)) [
    | inl live ↦
        rw (other, live) (rw other (ap (λ c. (k.id, k.secret_key_enc) ∷ c) (key_cells id v ks)))
    | inr dead ↦ rw (other, dead) (key_cells id v ks)
  ]
]

-- The two UPDATEs write one cell of their column.
pub store_column-put_store :
    (id : ℕ) (v : Str) (db : Db)
    → store_column (put_store id v db) ≡ put_cell id v (store_column db)
unfolding store_column put_store
store_column-put_store id v db = store_cells id v db.stores

pub key_column-put_key :
    (id : ℕ) (v : Str) (db : Db) → key_column (put_key id v db) ≡ put_cell id v (key_column db)
unfolding key_column put_key
key_column-put_key id v db = key_cells id v db.access_keys
