-- ===== src/Backend/Gcs/Compose/Chunks.antt =====
-- internal/backend/gcs.go: the slices that composeTree makes of its sources.
use storage_gateway.Prelude.{
  ℕ, zero, suc, ◌+◌, ◌*◌, ◌≤◌, ◌<◌, ◌≡◌, refl, ap, ◌∙◌, false, List, [], ◌∷◌, ◌++◌, arith, leb, Str,
  All, length, take, drop, take-append-drop, length-drop,
}
use storage_gateway.Backend.Gcs.Compose.{chunks, compose_limit}

abbrev pub flat : List (ℕ × List Str) → List Str
flat [] = []
flat ((i, ks) ∷ cs) = ks ++ flat cs

abbrev pub Small : ℕ × List Str → Type 0
Small c = length c.1 ≤ compose_limit

length-take : (n : ℕ) (ks : List Str) → length (take n ks) ≤ n
length-take zero ks = omega arith
length-take (suc n) [] = omega arith
length-take (suc n) (k ∷ ks) = omega (arith, length-take n ks)

pub chunks-Small : (n i : ℕ) (ks : List Str) → All Small (chunks n i ks)
unfolding chunks
chunks-Small zero i ks = tt
chunks-Small (suc n) i [] = tt
chunks-Small (suc n) i (k ∷ ks) = (
  length-take compose_limit (k ∷ ks),
  chunks-Small n (i + compose_limit) (drop compose_limit (k ∷ ks)),
)

-- The slices are the sources, in order and whole.
pub flat-chunks : (n i : ℕ) (ks : List Str) → length ks ≤ n → flat (chunks n i ks) ≡ ks
unfolding chunks
flat-chunks zero i [] h = refl
flat-chunks zero i (k ∷ ks) h = elim h [ ]
flat-chunks (suc n) i [] h = refl
flat-chunks (suc n) i (k ∷ ks) h =
    ap (λ t. take compose_limit (k ∷ ks) ++ t)
      (flat-chunks n (i + compose_limit) (drop compose_limit (k ∷ ks))
        (omega (arith, length-drop 31 ks)))
    ∙ take-append-drop compose_limit (k ∷ ks)

chunks_count : (n i : ℕ) (ks : List Str) → 32 * length (chunks n i ks) ≤ length ks + 31
unfolding chunks
chunks_count zero i ks = omega arith
chunks_count (suc n) i [] = omega arith
chunks_count (suc n) i (k ∷ ks) =
    omega
      (arith, chunks_count n (i + compose_limit) (drop compose_limit (k ∷ ks)), length-drop 31 ks)

-- There are fewer of them than sources, where one Compose is not enough.
pub chunks_fewer :
    (n i : ℕ) (ks : List Str)
    → leb (length ks) compose_limit ≡ false
    → length (chunks n i ks) < length ks
chunks_fewer n i ks h = ground (arith, chunks_count n i ks)
