-- ===== src/Backend/Gcs/Compose/Keys.antt =====
-- internal/backend/gcs.go: the names of parts and of intermediate objects.
use storage_gateway.Prelude.{
  ℕ, ◌+◌, ◌≡◌, sym, ap, ◌∙◌, ◌≢◌, false, Option, some, [], ◌∷◌, ◌++◌, arith, Str, bytes, has_prefix,
  cut_byte, cut_byte-append, IsFree, All, drop,
}
use mathlib.Core.Bool.{true≢false}
use storage_gateway.Prelude.Int.{ℤ, pos}
use storage_gateway.Strconv.{
  format_nat, format_nat-IsDigit, parse_int-format_nat, parse_int, IsDigit,
}
use storage_gateway.Backend.Gcs.Compose.{tmp_key, gcs_part_key, part_area}

digits-IsFree : (s : Str) → All IsDigit s → IsFree b'-' s
digits-IsFree [] h = tt
digits-IsFree (x ∷ s) (d, h) = (ground arith, digits-IsFree s h)

pos_injective : {a b : ℕ} → ◌≡◌ {A = Option ℤ} (some (pos a)) (some (pos b)) → a ≡ b
pos_injective h = cc

-- Two numbers that print alike are the same.
format_nat_injective : (m n : ℕ) → format_nat m ≡ format_nat n → m ≡ n
format_nat_injective m n h = pos_injective (
    sym (parse_int-format_nat (m + n + 1) m (omega arith))
    ∙ ap (parse_int 10 (m + n + 1)) h
    ∙ parse_int-format_nat (m + n + 1) n (omega arith))

fst_of : {a b c d : Str} → ◌≡◌ {A = Option (Str × Str)} (some (a, b)) (some (c, d)) → a ≡ c
fst_of h = cc

cut_tmp_key :
    (i t : ℕ)
    → cut_byte b'-' (format_nat i ++ (b'-' ∷ format_nat t)) ≡ some (format_nat i, format_nat t)
cut_tmp_key i t =
    cut_byte-append b'-' (format_nat i) (format_nat t)
      (digits-IsFree (format_nat i) (format_nat-IsDigit i))

-- Intermediates of different slices of a level have different names, whatever the clock shows.
pub tmp_key_injective : (i j t u : ℕ) → tmp_key i t ≡ tmp_key j u → i ≡ j
unfolding tmp_key
tmp_key_injective i j t u h =
    format_nat_injective i j
      (fst_of (sym (cut_tmp_key i t) ∙ ap (λ s. cut_byte b'-' (drop 9 s)) h ∙ cut_tmp_key j u))

-- A name outside the two areas is no intermediate's and no part's.
pub tmp_key_outside : (k : Str) (i t : ℕ) → has_prefix k (bytes "_sgw_") ≡ false → k ≢ tmp_key i t
unfolding tmp_key has_prefix
tmp_key_outside k i t h e = true≢false (sym (ap (λ s. has_prefix s (bytes "_sgw_")) e) ∙ h)

pub part_key_outside :
    (k upload : Str) (n : ℤ) → has_prefix k (bytes "_sgw_") ≡ false → k ≢ gcs_part_key upload n
unfolding gcs_part_key has_prefix
part_key_outside k upload n h e = true≢false (sym (ap (λ s. has_prefix s (bytes "_sgw_")) e) ∙ h)

pub part_key-ne-tmp_key : (upload : Str) (n : ℤ) (i t : ℕ) → gcs_part_key upload n ≢ tmp_key i t
unfolding gcs_part_key tmp_key has_prefix
part_key-ne-tmp_key upload n i t e = true≢false (ap (λ s. has_prefix s part_area) e)
