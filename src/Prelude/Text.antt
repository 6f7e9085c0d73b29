-- ===== src/Prelude/Text.antt =====
-- Go strings and byte slices as lists of bytes, and what the code uses of package strings.
use Prim.Native.Char.{code}
use Prim.Native.String.{String}
use Prim.Native.Nat.{ℕ}
use mathlib.Core.Path.{◌≡◌, refl}
use mathlib.Core.Logic.{◌↔◌, ◌≢◌, inl, inr}
use mathlib.Core.Bool.{Bool, true, false, ◌&&◌, ◌||◌}
use mathlib.Core.List.{List, [], ◌∷◌, ◌++◌}
use mathlib.Core.Option.{Option, none, some}
use native.Mathlib.Omega.{arith}
use storage_gateway.Prelude.Tests.{Bool-cases, ltb, ◌==◌, if◌then◌else◌}

abbrev pub Str : Type 0
Str = List ℕ

-- The bytes of an ASCII literal.
abbrev pub bytes : String → Str
bytes String.[] = []
bytes (String.◌∷◌ c s) = code c ∷ bytes s

unfoldable pub str_eq : Str → Str → Bool
str_eq [] [] = true
str_eq (x ∷ xs) (y ∷ ys) = (x == y) && str_eq xs ys
str_eq _ _ = false

pub str_eq_refl : (s : Str) → str_eq s s ≡ true
unfolding str_eq
str_eq_refl [] = refl
str_eq_refl (x ∷ xs) = ground (arith, str_eq_refl xs)

pub str_eq→eq : (s t : Str) → str_eq s t ≡ true → s ≡ t
unfolding str_eq
str_eq→eq [] [] h = refl
str_eq→eq (x ∷ xs) (y ∷ ys) h = ground (arith, str_eq→eq xs ys)
str_eq→eq [] (y ∷ ys) h = cc
str_eq→eq (x ∷ xs) [] h = cc

pub str_eq_iff : (s t : Str) → (str_eq s t ≡ true) ↔ (s ≡ t)
str_eq_iff s t = (str_eq→eq s t, λ e. rw (← e) (str_eq_refl s))

pub str_eq_other : (s t : Str) → s ≢ t → str_eq s t ≡ false
str_eq_other s t n = elim (Bool-cases (str_eq s t)) [
  | inl same ↦ absurd (n (str_eq→eq s t same))
  | inr apart ↦ apart
]

-- s == ""
abbrev pub is_empty {ℓ} : {A : Type ℓ} → List A → Bool
is_empty [] = true
is_empty (x ∷ xs) = false

-- strings.HasPrefix
unfoldable pub has_prefix : Str → Str → Bool
has_prefix s [] = true
has_prefix [] (p ∷ ps) = false
has_prefix (x ∷ s) (p ∷ ps) = (x == p) && has_prefix s ps

-- What follows the prefix, if the text begins with it.
unfoldable pub cut_prefix : Str → Str → Option Str
cut_prefix s [] = some s
cut_prefix [] (p ∷ ps) = none
cut_prefix (x ∷ s) (p ∷ ps) = if x == p then cut_prefix s ps else none

-- strings.TrimPrefix
unfoldable pub trim_prefix : Str → Str → Str
unfolding cut_prefix
trim_prefix s p = elim (cut_prefix s p) [ none ↦ s | some rest ↦ rest ]

pub cut_prefix-append : (p s : Str) → cut_prefix (p ++ s) p ≡ some s
unfolding cut_prefix
cut_prefix-append [] s = refl
cut_prefix-append (x ∷ p) s = ground (arith, cut_prefix-append p s)

pub cut_prefix→eq : (s p r : Str) → cut_prefix s p ≡ some r → s ≡ p ++ r
unfolding cut_prefix
cut_prefix→eq s [] r h = cc
cut_prefix→eq [] (x ∷ p) r h = cc
cut_prefix→eq (y ∷ s) (x ∷ p) r h = ground (arith, cut_prefix→eq s p r)

pub trim_prefix-append : (p s : Str) → trim_prefix (p ++ s) p ≡ s
unfolding trim_prefix
trim_prefix-append p s = rw (cut_prefix-append p s, trim_prefix) refl

-- The text before the first occurrence of a byte and the text behind it: strings.IndexByte and the
-- two slices around the index, strings.Cut.
unfoldable pub cut_byte : ℕ → Str → Option (Str × Str)
cut_byte c [] = none
cut_byte c (x ∷ s) =
    if x == c
    then some ([], s)
    else elim (cut_byte c s) [ none ↦ none | some (before, after) ↦ some (x ∷ before, after) ]

-- No byte of the text is `c`.
abbrev pub IsFree : ℕ → Str → Type 0
IsFree c [] = Unit
IsFree c (x ∷ s) = ((x == c) ≡ false) × IsFree c s

pub cut_byte_free : (c : ℕ) (s : Str) → IsFree c s → cut_byte c s ≡ none
unfolding cut_byte
cut_byte_free c [] h = refl
cut_byte_free c (x ∷ s) (n, h) = ground (arith, cut_byte_free c s h)

pub cut_byte-append : (c : ℕ) (s t : Str) → IsFree c s → cut_byte c (s ++ c ∷ t) ≡ some (s, t)
unfolding cut_byte
cut_byte-append c [] t h = ground arith
cut_byte-append c (x ∷ s) t (n, h) = ground (arith, cut_byte-append c s t h)

-- The text before the cut holds no `c`, and the cut loses nothing.
pub cut_byte-IsFree :
    (c : ℕ) (s before after : Str) → cut_byte c s ≡ some (before, after) → IsFree c before
unfolding cut_byte
cut_byte-IsFree c [] before after h = cc
cut_byte-IsFree c (x ∷ s) [] after h = tt
cut_byte-IsFree c (x ∷ s) (b ∷ before) after h = ground (arith, cut_byte-IsFree c s before after)

pub cut_byte→eq :
    (c : ℕ) (s before after : Str) → cut_byte c s ≡ some (before, after) → s ≡ before ++ c ∷ after
unfolding cut_byte
cut_byte→eq c [] before after h = cc
cut_byte→eq c (x ∷ s) [] after h = ground arith
cut_byte→eq c (x ∷ s) (b ∷ before) after h = ground (arith, cut_byte→eq c s before after)

-- a <= b on Go strings: bytewise lexicographic order.
unfoldable pub str_leb : Str → Str → Bool
str_leb [] t = true
str_leb (x ∷ s) [] = false
str_leb (x ∷ s) (y ∷ t) =
    let rest = str_leb s t in if ltb x y then true else if x == y then rest else false

-- sort.Strings
unfoldable pub insert_str : Str → List Str → List Str
insert_str s [] = s ∷ []
insert_str s (t ∷ ts) = let rest = insert_str s ts in if str_leb s t then s ∷ t ∷ ts else t ∷ rest

unfoldable pub sort_strings : List Str → List Str
unfolding insert_str str_leb
sort_strings [] = []
sort_strings (s ∷ ss) = insert_str s (sort_strings ss)

-- s[:i+len(sep)] for the first index i of a separator that is not empty: strings.Index.
unfoldable pub through : Str → Str → Option Str
unfolding has_prefix
through sep [] = none
through sep (x ∷ s) =
    if has_prefix (x ∷ s) sep
    then some sep
    else elim (through sep s) [ none ↦ none | some t ↦ some (x ∷ t) ]

unfoldable pub mem_str : Str → List Str → Bool
unfolding str_eq
mem_str s [] = false
mem_str s (t ∷ ts) = str_eq t s || mem_str s ts

pub str_leb_refl : (s : Str) → str_leb s s ≡ true
unfolding str_leb
str_leb_refl [] = refl
str_leb_refl (x ∷ s) = ground (arith, str_leb_refl s)
