-- ===== src/Strconv.antt =====
-- What the code uses of package strconv and of the integer verbs of package fmt.
use storage_gateway.Prelude.{
  ℕ, zero, suc, ◌+◌, ◌-◌, ◌*◌, ◌/◌, ◌%◌, ◌^◌, ◌≤◌, ◌<◌, ◌≡◌, ◌∙◌, ap, All, ltb→lt, is_empty, Bool,
  true, false, ◌&&◌, Option, none, some, refl, [], ◌∷◌, ◌++◌, Str, bytes, ltb, leb, ◌==◌,
  if◌then◌else◌, length, arith, Bool-cases, inl, inr,
}
use storage_gateway.Prelude.Int.{ℤ, pos, negsuc, neg_part, InInt64}

-- The value of a digit in any base up to 36.
unfoldable pub digit_value : ℕ → Option ℕ
digit_value c =
    if leb b'0' c && leb c b'9'
    then some (c - b'0')
    else if leb b'a' c && leb c b'z'
    then some (c - b'a' + 10)
    else if leb b'A' c && leb c b'Z'
    then some (c - b'A' + 10)
    else none

abbrev push_digit : ℕ → ℕ → Option ℕ → Option ℕ
push_digit base acc none = none
push_digit base acc (some d) = if ltb d base then some (acc * base + d) else none

abbrev and_then : Option ℕ → (ℕ → Option ℕ) → Option ℕ
and_then none f = none
and_then (some a) f = f a

-- The digits of an unsigned number, most significant first.
unfoldable pub parse_digits : ℕ → ℕ → Str → Option ℕ
unfolding digit_value
parse_digits base acc [] = some acc
parse_digits base acc (c ∷ s) =
    and_then (push_digit base acc (digit_value c)) (λ n. parse_digits base n s)

abbrev parse_unsigned : ℕ → Str → Option ℕ
parse_unsigned base [] = none
parse_unsigned base (c ∷ s) = parse_digits base 0 (c ∷ s)

-- The sign in front, and the range of a signed integer whose bound is `cutoff`.
abbrev with_sign : ℕ → Bool → Option ℕ → Option ℤ
with_sign cutoff neg none = none
with_sign cutoff true (some zero) = some (pos 0)
with_sign cutoff true (some (suc n)) = if ltb n cutoff then some (negsuc n) else none
with_sign cutoff false (some n) = if ltb n cutoff then some (pos n) else none

-- strconv.ParseInt(s, base, bits) for a base that is not 0; `cutoff` is 2 ^ (bits - 1). Any failure
-- of syntax or range is `none`.
unfoldable pub parse_int : ℕ → ℕ → Str → Option ℤ
unfolding parse_digits
parse_int base cutoff [] = none
parse_int base cutoff (c ∷ s) =
    if c == b'+'
    then with_sign cutoff false (parse_unsigned base s)
    else if c == b'-'
    then with_sign cutoff true (parse_unsigned base s)
    else with_sign cutoff false (parse_unsigned base (c ∷ s))

-- The decimal digits of a number, on fuel; `n + 1` is enough, since a division by ten makes a
-- positive number smaller.
unfoldable pub format_from : ℕ → ℕ → Str → Str
format_from zero n acc = acc
format_from (suc f) n acc =
    let more = format_from f (n / 10) ((b'0' + n % 10) ∷ acc) in
    if ltb n 10 then (b'0' + n) ∷ acc else more

-- %d
unfoldable pub format_nat : ℕ → Str
unfolding format_from
format_nat n = format_from (n + 1) n []

unfoldable pub format_int : ℤ → Str
unfolding format_nat
format_int (pos n) = format_nat n
format_int (negsuc n) = b'-' ∷ format_nat (n + 1)

abbrev zeros : ℕ → Str
zeros zero = []
zeros (suc n) = b'0' ∷ zeros n

-- %05d of a number that is not negative
unfoldable pub format_5 : ℕ → Str
unfolding format_nat
format_5 n = zeros (5 - length (format_nat n)) ++ format_nat n

-- %05d of any number; the sign takes one of the five places.
unfoldable pub format_5_int : ℤ → Str
unfolding format_nat
format_5_int (pos n) = format_5 n
format_5_int (negsuc n) = b'-' ∷ (zeros (4 - length (format_nat (n + 1))) ++ format_nat (n + 1))

with_sign-InInt64 :
    (neg : Bool) (o : Option ℕ) (a : ℤ) → with_sign (2 ^ 63) neg o ≡ some a → InInt64 a
with_sign-InInt64 neg none a h = cc
with_sign-InInt64 true (some zero) a h = ground arith
with_sign-InInt64 true (some (suc n)) a h = ground arith
with_sign-InInt64 false (some n) a h = ground arith

pub parse_int-InInt64 :
    (base : ℕ) (s : Str) (a : ℤ) → parse_int base (2 ^ 63) s ≡ some a → InInt64 a
unfolding parse_int
parse_int-InInt64 base [] a h = cc
parse_int-InInt64 base (c ∷ s) a h = ground (
  arith,
  with_sign-InInt64 false (parse_unsigned base s) a,
  with_sign-InInt64 true (parse_unsigned base s) a,
  with_sign-InInt64 false (parse_unsigned base (c ∷ s)) a,
)

with_sign_pos :
    (cutoff : ℕ) (o : Option ℕ) (a : ℤ) → with_sign cutoff false o ≡ some a → neg_part a ≡ 0
with_sign_pos cutoff none a h = cc
with_sign_pos cutoff (some n) a h = ground arith

pub parse_int_nil : (base cutoff : ℕ) (a : ℤ) → parse_int base cutoff [] ≡ some a → ⊥
unfolding parse_int
parse_int_nil base cutoff a h = cc

-- With no minus sign in front the number is not negative.
pub parse_int_no_minus :
    (base cutoff c : ℕ) (s : Str) (a : ℤ)
    → (c == b'-') ≡ false
    → parse_int base cutoff (c ∷ s) ≡ some a
    → neg_part a ≡ 0
unfolding parse_int
parse_int_no_minus base cutoff c s a f h = ground (
  arith,
  with_sign_pos cutoff (parse_unsigned base s) a,
  with_sign_pos cutoff (parse_unsigned base (c ∷ s)) a,
)

parse_digits_step :
    (v d : ℕ) (s : Str)
    → d < 10
    → parse_digits 10 v ((b'0' + d) ∷ s) ≡ parse_digits 10 (v * 10 + d) s
unfolding parse_digits
parse_digits_step v d s h = ground arith

-- A printed number parses back, whatever follows its digits.
parse_digits-format_from :
    (f n : ℕ) (acc : Str) → n < f → parse_digits 10 0 (format_from f n acc) ≡ parse_digits 10 n acc
unfolding format_from
parse_digits-format_from zero n acc h = elim h [ ]
parse_digits-format_from (suc f) n acc h = elim (Bool-cases (ltb n 10)) [
  | inl last ↦
      rw last (
        parse_digits_step 0 n acc (ltb→lt n 10 last)
        ∙ ap (λ m. parse_digits 10 m acc) (omega arith))
  | inr more ↦ rw more (
      parse_digits-format_from f (n / 10) ((b'0' + n % 10) ∷ acc) (ground arith)
      ∙ parse_digits_step (n / 10) (n % 10) acc (omega arith)
      ∙ ap (λ m. parse_digits 10 m acc) (omega arith))
]

abbrev pub IsDigit : ℕ → Type 0
IsDigit c = (b'0' ≤ c) × (c ≤ b'9')

format_from-IsDigit :
    (f n : ℕ) (acc : Str) → n < f → All IsDigit acc → All IsDigit (format_from f n acc)
unfolding format_from
format_from-IsDigit zero n acc h k = elim h [ ]
format_from-IsDigit (suc f) n acc h k =
    ground (arith, format_from-IsDigit f (n / 10) ((b'0' + n % 10) ∷ acc))

pub format_nat-IsDigit : (n : ℕ) → All IsDigit (format_nat n)
unfolding format_nat
format_nat-IsDigit n = format_from-IsDigit (n + 1) n [] (omega arith) tt

format_from_cons : (f n : ℕ) (acc : Str) → n < f → is_empty (format_from f n acc) ≡ false
unfolding format_from
format_from_cons zero n acc h = elim h [ ]
format_from_cons (suc f) n acc h =
    ground (arith, format_from_cons f (n / 10) ((b'0' + n % 10) ∷ acc))

pub format_nat_cons : (n : ℕ) → is_empty (format_nat n) ≡ false
unfolding format_nat
format_nat_cons n = format_from_cons (n + 1) n [] (omega arith)

parse_int_digits :
    (cutoff n : ℕ) (s : Str)
    → All IsDigit s
    → is_empty s ≡ false
    → parse_digits 10 0 s ≡ some n
    → n < cutoff
    → parse_int 10 cutoff s ≡ some (pos n)
unfolding parse_int
parse_int_digits cutoff n [] d e p h = cc
parse_int_digits cutoff n (c ∷ s) d e p h = ground arith

-- strconv.ParseInt reads back what %d printed of a number in range.
pub parse_int-format_nat :
    (cutoff n : ℕ) → n < cutoff → parse_int 10 cutoff (format_nat n) ≡ some (pos n)
unfolding format_nat
parse_int-format_nat cutoff n h =
    parse_int_digits cutoff n (format_nat n) (format_nat-IsDigit n) (format_nat_cons n)
      (parse_digits-format_from (n + 1) n [] (omega arith) ∙ unfold parse_digits in refl) h

formats : format_int (negsuc 41) ≡ bytes "-42"
unfolding format_int
formats = refl
