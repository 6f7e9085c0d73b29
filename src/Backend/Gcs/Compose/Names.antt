-- ===== src/Backend/Gcs/Compose/Names.antt =====
-- internal/backend/gcs.go: the names of the sources and of the intermediates of one level of
-- composeTree. The intermediate of a slice is named after the slice's offset, so that it may share its
-- name with a source only at a place that the loop has passed or is reading.
use storage_gateway.Prelude.{
  ℕ, zero, suc, ◌+◌, ◌*◌, ◌≤◌, ◌<◌, ◌≡◌, refl, sym, ap, ◌∙◌, ◌≢◌, List, [], ◌∷◌, ◌++◌, arith, Str,
  All, length, drop, length-drop,
}
use mathlib.Core.Path.{subst}
use storage_gateway.Backend.Gcs.Compose.{tmp_key, chunks, compose_limit}
use storage_gateway.Backend.Gcs.Compose.Keys.{tmp_key_injective}
use storage_gateway.Backend.Gcs.Compose.Chunks.{flat, flat-chunks}

-- No intermediate has this name.
unfoldable pub IsOutside : Str → Type 0
IsOutside k = (i u : ℕ) → k ≢ tmp_key i u

-- The sources from the place `p` on: one that has an intermediate's name has that of its own place.
unfoldable pub Placed : ℕ → List Str → Type 0
Placed p [] = Unit
Placed p (k ∷ ks) = ((i u : ℕ) → k ≡ tmp_key i u → i ≡ 32 * p) × Placed (suc p) ks

-- The intermediates from the place `p` on.
unfoldable pub Made : ℕ → List Str → Type 0
Made p [] = Unit
Made p (k ∷ ks) = ((u : ℕ) × (k ≡ tmp_key (32 * p) u)) × Made (suc p) ks

-- The slices from the offset `i` on, each with the sources behind it.
unfoldable pub Slices : ℕ → List (ℕ × List Str) → Type 0
Slices i [] = Unit
Slices i ((j, ks) ∷ cs) =
    (j ≡ i) × Placed (i + compose_limit) (flat cs) × Slices (i + compose_limit) cs

pub All-map : {P Q : Str → Type 0} → ((k : Str) → P k → Q k) → (ks : List Str) → All P ks → All Q ks
All-map f [] h = tt
All-map f (k ∷ ks) (p, h) = (f k p, All-map f ks h)

pub All-every : {P : Str → Type 0} → ((k : Str) → P k) → (ks : List Str) → All P ks
All-every f [] = tt
All-every f (k ∷ ks) = (f k, All-every f ks)

pub All-snoc : (P : Str → Type 0) (xs : List Str) (x : Str) → All P xs → P x → All P (xs ++ x ∷ [])
All-snoc P [] x h p = (p, tt)
All-snoc P (y ∷ xs) x (q, h) p = (q, All-snoc P xs x h p)

pub outside-Placed : (p : ℕ) (ks : List Str) → All IsOutside ks → Placed p ks
unfolding Placed IsOutside
outside-Placed p [] h = tt
outside-Placed p (k ∷ ks) (o, h) = (λ i u e. absurd (o i u e), outside-Placed (suc p) ks h)

pub Made-Placed : (p : ℕ) (ms : List Str) → Made p ms → Placed p ms
unfolding Placed Made
Made-Placed p [] h = tt
Made-Placed p (m ∷ ms) ((u, e), h) =
    (λ i v f. tmp_key_injective i (32 * p) v u (sym f ∙ e), Made-Placed (suc p) ms h)

pub outside-Made : (p : ℕ) (ms : List Str) (k : Str) → IsOutside k → Made p ms → All (λ m. k ≢ m) ms
unfolding Made IsOutside
outside-Made p [] k o h = tt
outside-Made p (m ∷ ms) k o ((u, e), h) = (λ f. o (32 * p) u (f ∙ e), outside-Made (suc p) ms k o h)

-- The sources behind a slice do not have the name of its intermediate.
pub Placed-apart :
    (p i u : ℕ) (ks : List Str) → i < 32 * p → Placed p ks → All (λ k. k ≢ tmp_key i u) ks
unfolding Placed
Placed-apart p i u [] l h = tt
Placed-apart p i u (k ∷ ks) l (a, h) =
    (λ e. below p i l (a i u e), Placed-apart (suc p) i u ks (omega arith) h)
  where
    below : (p i : ℕ) → i < 32 * p → i ≡ 32 * p → ⊥
    below p i l e = omega arith

-- Nor do the intermediates before it.
pub Made-apart :
    (p i u : ℕ) (ms : List Str)
    → 32 * (p + length ms) ≤ i
    → Made p ms
    → All (λ m. m ≢ tmp_key i u) ms
unfolding Made
Made-apart p i u [] l h = tt
Made-apart p i u (m ∷ ms) l ((v, e), h) = (
  λ f. above p i (length ms) l (tmp_key_injective (32 * p) i v u (sym e ∙ f)),
  Made-apart (suc p) i u ms (omega arith) h,
)
  where
    above : (p i n : ℕ) → 32 * (p + suc n) ≤ i → 32 * p ≡ i → ⊥
    above p i n l e = omega arith

pub Made-snoc :
    (p i u : ℕ) (ms : List Str)
    → i ≡ 32 * (p + length ms)
    → Made p ms
    → Made p (ms ++ tmp_key i u ∷ [])
unfolding Made
Made-snoc p i u [] e h =
    let same : i ≡ 32 * p = omega arith in ((u, ap (λ j. tmp_key j u) same), tt)
Made-snoc p i u (m ∷ ms) e (n, h) = (n, Made-snoc (suc p) i u ms (omega arith) h)

Placed-drop : (n p : ℕ) (ks : List Str) → Placed p ks → Placed (p + n) (drop n ks)
unfolding Placed
Placed-drop zero p ks h = subst (λ q. Placed q ks) (omega arith) h
Placed-drop (suc n) p [] h = tt
Placed-drop (suc n) p (k ∷ ks) (a, h) =
    subst (λ q. Placed q (drop n ks)) (omega arith) (Placed-drop n (suc p) ks h)

pub chunks-Slices :
    (n i : ℕ) (ks : List Str) → length ks ≤ n → Placed i ks → Slices i (chunks n i ks)
unfolding Slices chunks
chunks-Slices zero i ks l h = tt
chunks-Slices (suc n) i [] l h = tt
chunks-Slices (suc n) i (k ∷ ks) l h =
    let rest = drop compose_limit (k ∷ ks) in
    let fits : length rest ≤ n = omega (arith, length-drop 31 ks) in
    let placed = Placed-drop compose_limit i (k ∷ ks) h in
    (
      refl,
      subst (Placed (i + compose_limit)) (sym (flat-chunks n (i + compose_limit) rest fits)) placed,
      chunks-Slices n (i + compose_limit) rest fits placed,
    )
