-- ===== src/Prelude/Results.antt =====
-- Fallible results, and methods that act on a state and may fail: what was written before the
-- failure stays written.
use mathlib.Core.Path.{◌≡◌, refl, ap}

pub data Result {ℓ} (E A : Type ℓ) : Type ℓ where
  ok : A → Result E A
  err : E → Result E A

pub ok_injective {ℓ} : {E A : Type ℓ} {a b : A} → ◌≡◌ {A = Result E A} (ok a) (ok b) → a ≡ b
ok_injective h = cc

-- A run that failed is none that succeeded.
pub err-ne-ok {ℓ} :
    {S E A : Type ℓ} {e : E} {a : A} {s t : S} → ◌≡◌ {A = Result E A × S} (err e, s) (ok a, t) → ⊥
err-ne-ok h = cc

-- The same without a state.
pub result-err-ne-ok {ℓ} : {E A : Type ℓ} {e : E} {a : A} → ◌≡◌ {A = Result E A} (err e) (ok a) → ⊥
result-err-ne-ok h = cc

-- A call whose error is made into another one.
module _ {ℓ} {S E F A : Type ℓ} (f : E → F) where
  abbrev pub map_err : Result E A × S → Result F A × S
  map_err (ok a, s) = (ok a, s)
  map_err (err e, s) = (err (f e), s)

  pub map_err_ok : (r : Result E A) (s : S) (a : A) → (map_err (r, s)).0 ≡ ok a → r ≡ ok a
  map_err_ok (ok x) s a h = ap ok (ok_injective h)
  map_err_ok (err x) s a h = absurd (result-err-ne-ok h)

  pub map_err_state : (r : Result E A) (s : S) → (map_err (r, s)).1 ≡ s
  map_err_state (ok x) s = refl
  map_err_state (err x) s = refl

abbrev pub Exec {ℓ} : Type ℓ → Type ℓ → Type ℓ → Type ℓ
Exec S E A = S → Result E A × S

module _ {ℓ} {S E A : Type ℓ} where
  abbrev pub pure : A → Exec S E A
  pure a s = (ok a, s)

  abbrev pub raise : E → Exec S E A
  raise e s = (err e, s)

  abbrev pub lift : Result E A → Exec S E A
  lift r s = (r, s)

module _ {ℓ} {S E A B : Type ℓ} where
  abbrev pub continue : Result E A → (A → Exec S E B) → Exec S E B
  continue (ok a) f s = f a s
  continue (err e) f s = (err e, s)

  infixl 10 ◌>>=◌ ◌>>◌
  abbrev pub ◌>>=◌ : Exec S E A → (A → Exec S E B) → Exec S E B
  ◌>>=◌ m f s = continue (m s).0 f (m s).1

  abbrev pub ◌>>◌ : Exec S E A → Exec S E B → Exec S E B
  m >> n = m >>= λ _. n

  -- A chain that succeeds has a first part that did.
  pub continue_ok :
      (res : Result E A) (f : A → Exec S E B) (s t : S) (b : B)
      → continue res f s ≡ (ok b, t)
      → (a : A) × (res ≡ ok a) × (f a s ≡ (ok b, t))
  continue_ok (ok a) f s t b h = (a, refl, h)
  continue_ok (err e) f s t b h = absurd (err-ne-ok h)

  pub bind_ok :
      (m : Exec S E A) (f : A → Exec S E B) (s t : S) (b : B)
      → (m >>= f) s ≡ (ok b, t)
      → (a : A) × ((m s).0 ≡ ok a) × (f a (m s).1 ≡ (ok b, t))
  bind_ok m f s t b h = continue_ok (m s).0 f (m s).1 t b h
