-- ===== src/Registry/Db/Attempts.antt =====
-- internal/registry/postgres.go: statements that the server does not fail, and the rows they find.
use storage_gateway.Prelude.{
  ◌≡◌, refl, sym, ap, ◌∙◌, inl, inr, Bool, true, false, Option, some, List, [], ◌∷◌, Bool-cases,
  find, Result, ok, result-err-ne-ok, Exec,
}
use storage_gateway.Registry.{Error}
use storage_gateway.Registry.Db.{Db, attempt, update_where}

-- A statement that succeeds ran on the state, but for what is left of the schedule of faults.
pub attempt_ok :
    {A : Type 0} (fs : List Bool) (m : Exec Db Error A) (db : Db) (a : A)
    → (attempt fs m db).0 ≡ ok a
    → (gs : List Bool) × (attempt fs m db ≡ m (record db { faults = gs }))
attempt_ok [] m db a h = (db.faults, refl)
attempt_ok (true ∷ fs) m db a h = absurd (result-err-ne-ok h)
attempt_ok (false ∷ fs) m db a h = (fs, refl)

-- A statement that only reads leaves everything but the schedule as it was.
pub attempt_reads :
    {A B : Type 0} (field : Db → B) (fs : List Bool) (m : Db → Result Error A) (db : Db)
    → ((gs : List Bool) → field (record db { faults = gs }) ≡ field db)
    → field (attempt fs (λ d. (m d, d)) db).1 ≡ field db
attempt_reads field [] m db h = refl
attempt_reads field (true ∷ fs) m db h = h fs
attempt_reads field (false ∷ fs) m db h = h fs

pub some_injective : {A : Type 0} {a b : A} → ◌≡◌ {A = Option A} (some a) (some b) → a ≡ b
some_injective h = cc

module _ {A : Type 0} where
  pub find_passes : (p : A → Bool) (xs : List A) (x : A) → find p xs ≡ some x → p x ≡ true
  unfolding find
  find_passes p [] x h = cc
  find_passes p (y ∷ xs) x h = elim (Bool-cases (p y)) [
    | inl here ↦ ap p (sym (some_injective (rw here at h))) ∙ here
    | inr later ↦ find_passes p xs x (rw later at h)
  ]

  -- The first row that passes `p` is updated, if the update leaves `p` alone and the row passes `q`.
  pub find-update_where :
      (p q : A → Bool) (f : A → A) (xs : List A) (x : A)
      → ((y : A) → p (f y) ≡ p y)
      → find p xs ≡ some x
      → q x ≡ true
      → find p (update_where q f xs) ≡ some (f x)
  unfolding find update_where
  find-update_where p q f [] x k h t = cc
  find-update_where p q f (y ∷ xs) x k h t = elim (Bool-cases (p y)) [
    | inl here ↦
        let same : y ≡ x = some_injective (rw here at h) in
        let passes : q y ≡ true = ap q same ∙ t in
        rw (passes, k y, here) (ap (λ z. some (f z)) same)
    | inr later ↦ elim (Bool-cases (q y)) [
      | inl changed ↦ rw (changed, k y, later) (find-update_where p q f xs x k (rw later at h) t)
      | inr kept ↦ rw (kept, later) (find-update_where p q f xs x k (rw later at h) t)
    ]
  ]
