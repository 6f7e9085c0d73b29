-- ===== src/Registry/Cache/Revoked.antt =====
-- internal/registry/cache.go, RevokeAccessKey: the revoked key is gone from the cache as well.
use storage_gateway.Prelude.{
  ℕ, ◌≡◌, refl, sym, ap, ◌∙◌, ◌⊎◌, inl, inr, Bool, true, false, ◌&&◌, ◌||◌, none, some, List, [],
  ◌∷◌, map, arith, leb, ◌==◌, Bool-cases, ==_iff, Option-cases, Str, str_eq, str_eq_iff, All,
  filter, find, any, ok, err, ok_injective, result-err-ne-ok, continue_ok, ◌>>◌,
}
use mathlib.Core.Path.{subst}
use mathlib.Core.Bool.{true≢false}
use storage_gateway.Registry.{AccessKeyRow, access_key_not_found}
use storage_gateway.Registry.Db.{
  Db, active_key, own_key, is_active, sort_by, insert_by, update_where,
}
use storage_gateway.Registry.Db.Attempts.{attempt_ok, attempt_reads, find_passes, some_injective}
use storage_gateway.Registry.Db.WellFormed.{WellFormed, Distinct, same_key, All-filter, All-imp}
use storage_gateway.Registry.Postgres
use storage_gateway.Registry.Postgres.{without_secret, revoke_at}
use storage_gateway.Registry.Cache.{
  Uuids, Cached, inner, best_effort, invalidate_access_key, invalidate_key_of, revoke_access_key,
  lookup_access_key,
}
use storage_gateway.Registry.Cache.Fresh.{invalidated-lookup}

module _ {A : Type 0} (le : A → A → Bool) where
  All-insert_by :
      (P : A → Type 0) (x : A) (xs : List A) → P x → All P xs → All P (insert_by le x xs)
  unfolding insert_by
  All-insert_by P x [] p h = (p, tt)
  All-insert_by P x (y ∷ ys) p (q, h) = elim (Bool-cases (le x y)) [
    | inl before ↦ rw before (p, (q, h))
    | inr after ↦ rw after (q, All-insert_by P x ys p h)
  ]

  All-sort_by : (P : A → Type 0) (xs : List A) → All P xs → All P (sort_by le xs)
  unfolding sort_by
  All-sort_by P [] h = tt
  All-sort_by P (x ∷ xs) (p, h) = All-insert_by P x (sort_by le xs) p (All-sort_by P xs h)

  any-insert_by :
      (q : A → Bool) (x : A) (xs : List A) → any q (insert_by le x xs) ≡ (q x || any q xs)
  unfolding insert_by any
  any-insert_by q x [] = refl
  any-insert_by q x (y ∷ ys) = ground (arith, any-insert_by q x ys)

  any-sort_by : (q : A → Bool) (xs : List A) → any q (sort_by le xs) ≡ any q xs
  unfolding sort_by any
  any-sort_by q [] = refl
  any-sort_by q (x ∷ xs) = any-insert_by q x (sort_by le xs) ∙ ap (λ b. q x || b) (any-sort_by q xs)

or_left : (a b : Bool) → (a || b) ≡ false → a ≡ false
or_left false b h = refl
or_left true b h = h

or_right : (a b : Bool) → (a || b) ≡ false → b ≡ false
or_right false b h = h
or_right true false h = refl
or_right true true h = h

and_left : (a b : Bool) → (a && b) ≡ true → a ≡ true
and_left true b h = refl
and_left false b h = h

and_false : (a : Bool) → (a && false) ≡ false
and_false true = refl
and_false false = refl

-- A test that no row passes fails on the row that is found.
none_passes :
    {A : Type 0} (p q : A → Bool) (xs : List A) (x : A)
    → any q xs ≡ false
    → find p xs ≡ some x
    → q x ≡ false
unfolding any find
none_passes p q [] x n h = cc
none_passes p q (y ∷ ys) x n h = elim (Bool-cases (p y)) [
  | inl here ↦ ap q (sym (some_injective (rw here at h))) ∙ or_left (q y) (any q ys) n
  | inr later ↦ none_passes p q ys x (or_right (q y) (any q ys) n) (rw later at h)
]

abbrev Apart : AccessKeyRow → AccessKeyRow → Type 0
Apart row r =
    (r ≡ row) ⊎ (((r.id == row.id) ≡ false) × (str_eq r.access_key row.access_key ≡ false))

number_apart : (a b : ℕ) → (b == a) ≡ false → (a == b) ≡ false
number_apart a b h = ground arith

text_apart : (s t : Str) → str_eq t s ≡ false → str_eq s t ≡ false
text_apart s t h = elim (Bool-cases (str_eq s t)) [
  | inr apart ↦ apart
  | inl same ↦ absurd (true≢false (sym ((str_eq_iff t s).1 (sym ((str_eq_iff s t).0 same))) ∙ h))
]

-- The test of a collision, read the other way round.
same_key_back :
    (y row : AccessKeyRow)
    → same_key y row ≡ false
    → ((y.id == row.id) ≡ false) × (str_eq y.access_key row.access_key ≡ false)
same_key_back y row h = (
  number_apart y.id row.id (or_left (row.id == y.id) (str_eq row.access_key y.access_key) h),
  text_apart y.access_key row.access_key
      (or_right (row.id == y.id) (str_eq row.access_key y.access_key) h),
)

All-Apart :
    (y : AccessKeyRow) (rows : List AccessKeyRow)
    → any (same_key y) rows ≡ false
    → All (Apart y) rows
unfolding any
All-Apart y [] h = tt
All-Apart y (r ∷ rows) h =
    let first = or_left (same_key y r) (any (same_key y) rows) h in
    (
      inr (
        or_left (r.id == y.id) (str_eq r.access_key y.access_key) first,
        or_right (r.id == y.id) (str_eq r.access_key y.access_key) first,
      ),
      All-Apart y rows (or_right (same_key y r) (any (same_key y) rows) h),
    )

-- Unique ids and names: every other row differs from the one that is found in both.
others-Apart :
    (p : AccessKeyRow → Bool) (rows : List AccessKeyRow) (row : AccessKeyRow)
    → Distinct same_key rows
    → find p rows ≡ some row
    → All (Apart row) rows
unfolding find
others-Apart p [] row d h = tt
others-Apart p (y ∷ ys) row (n, d) h = elim (Bool-cases (p y)) [
  | inl here ↦
      let same : y ≡ row = some_injective (rw here at h) in
      (inl same, subst (λ x. All (Apart x) ys) same (All-Apart y ys n))
  | inr later ↦
      let found : find p ys ≡ some row = rw later at h in
      (
        inr (same_key_back y row (none_passes p (same_key y) ys row n found)),
        others-Apart p ys row d found,
      )
]

module _ (id tenant : ℕ) (row : AccessKeyRow) (own : own_key id tenant row ≡ true) where
  named : row.id ≡ id
  unfolding own_key
  named = (==_iff row.id id).0 (
      and_left (row.id == id) (row.tenant_id == tenant)
        (and_left (row.id == id && row.tenant_id == tenant) (is_active row) own))

  -- After the update no active row has the key.
  none_active :
      (t : ℕ) (rows : List AccessKeyRow)
      → All (Apart row) rows
      → find (active_key row.access_key) (update_where (own_key id tenant) (revoke_at t) rows)
        ≡ none
  unfolding find update_where active_key
  none_active t [] h = refl
  none_active t (r ∷ rows) (inl same, h) =
      rw (ap (own_key id tenant) same ∙ own, and_false (str_eq r.access_key row.access_key))
        (none_active t rows h)
  none_active t (r ∷ rows) (inr (i, k), h) = elim (Bool-cases (own_key id tenant r)) [
    | inl changed ↦ rw (changed, k) (none_active t rows h)
    | inr kept ↦ rw (kept, k) (none_active t rows h)
  ]

  -- A row with the id has the key.
  abbrev Named : AccessKeyRow → Type 0
  Named r = (r.id == id) ≡ true → r.access_key ≡ row.access_key

  Apart-Named : (r : AccessKeyRow) → Apart row r → Named r
  Apart-Named r (inl same) e = ap (λ (x : AccessKeyRow). x.access_key) same
  Apart-Named r (inr (i, k)) e = absurd (true≢false (sym e ∙ ap (λ j. r.id == j) (sym named) ∙ i))

  evicts :
      (keys : List AccessKeyRow) (s : Cached)
      → All Named keys
      → any (λ (r : AccessKeyRow). r.id == id) keys ≡ true
      → invalidate_key_of id keys s ≡ invalidate_access_key row.access_key s
  unfolding any invalidate_key_of
  evicts [] s h a = absurd (true≢false (sym a))
  evicts (r ∷ keys) s (n, h) a = elim (Bool-cases (r.id == id)) [
    | inl here ↦ rw here (ap (λ k. invalidate_access_key k s) (n here))
    | inr later ↦ rw later (
        evicts keys s h
          (ap (λ b. b || any (λ (x : AccessKeyRow). x.id == id) keys) (sym later) ∙ a))
  ]

  All-without_secret :
      (rows : List AccessKeyRow) → All Named rows → All Named (map without_secret rows)
  All-without_secret [] h = tt
  All-without_secret (r ∷ rows) (n, h) = (n, All-without_secret rows h)

  any-without_secret :
      (rows : List AccessKeyRow)
      → any (λ (r : AccessKeyRow). r.id == id) (map without_secret rows)
        ≡ any (λ (r : AccessKeyRow). r.id == id) rows
  unfolding any
  any-without_secret [] = refl
  any-without_secret (r ∷ rows) = ap (λ b. (r.id == id) || b) (any-without_secret rows)

abbrev newest_first : AccessKeyRow → AccessKeyRow → Bool
newest_first a b = leb b.created_at a.created_at

listed :
    (tenant : ℕ) (db : Db) (keys : List AccessKeyRow)
    → (Postgres.list_access_keys tenant db).0 ≡ ok keys
    → map without_secret
        (sort_by newest_first (filter (λ (r : AccessKeyRow). r.tenant_id == tenant) db.access_keys))
      ≡ keys
unfolding Postgres.list_access_keys
listed tenant db keys h =
    let step = attempt_ok db.faults _ db keys h in ok_injective (ap (λ p. p.0) (sym step.1) ∙ h)

listed-rows :
    (tenant : ℕ) (db : Db) → (Postgres.list_access_keys tenant db).1.access_keys ≡ db.access_keys
unfolding Postgres.list_access_keys
listed-rows tenant db = attempt_reads (λ d. d.access_keys) db.faults _ db (λ gs. refl)

revoked :
    (id tenant : ℕ) (db : Db)
    → (Postgres.revoke_access_key id tenant db).0 ≡ ok tt
    → (row : AccessKeyRow) × (find (own_key id tenant) db.access_keys ≡ some row)
      × ((Postgres.revoke_access_key id tenant db).1.access_keys
          ≡ update_where (own_key id tenant) (revoke_at db.now) db.access_keys)
unfolding Postgres.revoke_access_key
revoked id tenant db h =
    let step = attempt_ok db.faults _ db tt h in
    let ran = ap (λ p. p.0) (sym step.1) ∙ h in
    elim (Option-cases (find (own_key id tenant) db.access_keys)) [
      | inl missing ↦ absurd (result-err-ne-ok (rw missing at ran))
      | inr (row, found) ↦ (row, found, ap (λ p. p.1.access_keys) step.1 ∙ rw found refl)
    ]

lookup_none :
    (ak : Str) (db : Db)
    → db.faults ≡ []
    → find (active_key ak) db.access_keys ≡ none
    → (Postgres.lookup_access_key ak db).0 ≡ err access_key_not_found
unfolding Postgres.lookup_access_key
lookup_none ak db f n = rw (f, n) refl

found_kept :
    (id tenant : ℕ) (rows : List AccessKeyRow) (row : AccessKeyRow)
    → find (own_key id tenant) rows ≡ some row
    → any
        (λ (r : AccessKeyRow). r.id == id)
        (filter (λ (r : AccessKeyRow). r.tenant_id == tenant) rows)
      ≡ true
unfolding find filter any own_key
found_kept id tenant [] row h = cc
found_kept id tenant (r ∷ rows) row h = ground (arith, found_kept id tenant rows row)

module _ (id tenant : ℕ) (db : Db) (row : AccessKeyRow) where
  -- The listed keys of the tenant: one of them has the id, and each that has it has the row's name.
  listed-Named :
      (keys : List AccessKeyRow)
      → WellFormed db
      → find (own_key id tenant) db.access_keys ≡ some row
      → (Postgres.list_access_keys tenant db).0 ≡ ok keys
      → (own : own_key id tenant row ≡ true) × All (Named id tenant row own) keys
        × (any (λ (r : AccessKeyRow). r.id == id) keys ≡ true)
  listed-Named keys w found l =
      let own = find_passes (own_key id tenant) db.access_keys row found in
      let rows = filter (λ (r : AccessKeyRow). r.tenant_id == tenant) db.access_keys in
      let apart = others-Apart (own_key id tenant) db.access_keys row w.keys_unique found in
      let named_rows = All-sort_by newest_first (Named id tenant row own) rows (
        All-filter (Named id tenant row own) (λ (r : AccessKeyRow). r.tenant_id == tenant)
          db.access_keys
          (All-imp (Apart row) (Named id tenant row own) db.access_keys
            (Apart-Named id tenant row own) apart)) in
      let e = listed tenant db keys l in
      (
        own,
        subst (All (Named id tenant row own)) e
            (All-without_secret id tenant row own (sort_by newest_first rows) named_rows),
        ap (any (λ (r : AccessKeyRow). r.id == id)) (sym e)
            ∙ any-without_secret id tenant row own (sort_by newest_first rows)
            ∙ any-sort_by newest_first (λ (r : AccessKeyRow). r.id == id) rows
            ∙ found_kept id tenant db.access_keys row found,
      )

-- On a well-formed database and while Redis is up: when RevokeAccessKey has returned without an error,
-- there was an active key of the tenant with that id, and the next lookup of its access key that the
-- database answers is told that there is no such key, whatever Redis held before.
pub revoke_access_key-refused :
    (u : Uuids) (ttl id tenant : ℕ) (s t : Cached)
    → WellFormed s.db
    → s.redis.faults ≡ []
    → revoke_access_key id tenant s ≡ (ok tt, t)
    → t.db.faults ≡ []
    → (row : AccessKeyRow) × (find (own_key id tenant) s.db.access_keys ≡ some row)
      × ((lookup_access_key u ttl row.access_key t).0 ≡ err access_key_not_found)
unfolding revoke_access_key invalidate_access_key
revoke_access_key-refused u ttl id tenant s t w up h f =
    let list = inner (Postgres.list_access_keys tenant) s in
    let a =
      continue_ok list.0
        (λ keys.
          inner (Postgres.revoke_access_key id tenant) >> best_effort (invalidate_key_of id keys))
        list.1 t tt h in
    let write = inner (Postgres.revoke_access_key id tenant) list.1 in
    let b = continue_ok write.0 (λ _. best_effort (invalidate_key_of id a.0)) write.1 t tt a.2 in
    let (row, found, rows) = revoked id tenant list.1.db b.1 in
    let same = listed-rows tenant s.db in
    let there : find (own_key id tenant) s.db.access_keys ≡ some row =
      ap (find (own_key id tenant)) (sym same) ∙ found in
    let (own, names, has) = listed-Named id tenant s.db row a.0 w there a.1 in
    let out : invalidate_access_key row.access_key write.1 ≡ t =
      sym (evicts id tenant row own a.0 write.1 names has) ∙ ap (λ p. p.1) b.2 in
    let gone : find (active_key row.access_key) write.1.db.access_keys ≡ none =
      ap (find (active_key row.access_key))
        (rows ∙ ap (update_where (own_key id tenant) (revoke_at list.1.db.now)) same)
      ∙ none_active id tenant row own list.1.db.now s.db.access_keys
          (others-Apart (own_key id tenant) s.db.access_keys row w.keys_unique there) in
    (
      row,
      there,
      ap (λ c. (lookup_access_key u ttl row.access_key c).0) (sym out)
          ∙ invalidated-lookup u ttl row.access_key write.1 up
          ∙ lookup_none row.access_key write.1.db (ap (λ (c : Cached). c.db.faults) out ∙ f) gone,
    )
