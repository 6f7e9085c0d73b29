-- ===== src/S3/Signature/Encoding.antt =====
-- internal/api/s3/auth.go, uriEncode: what is encoded can be decoded, and uses no reserved byte.
use storage_gateway.Prelude.{
  ℕ, ◌+◌, ◌-◌, ◌*◌, ◌/◌, ◌%◌, ◌<◌, ◌≡◌, refl, ap, ◌∙◌, inl, inr, Bool, true, false, ◌&&◌, ◌||◌, not,
  [], ◌∷◌, ◌++◌, arith, leb, ◌==◌, if◌then◌else◌, Bool-cases, Str, All,
}
use storage_gateway.S3.Signature.{is_unreserved, upper_digit, encode_byte, uri_encode}

-- The value of an upper-case hexadecimal digit.
unfoldable pub digit_of : ℕ → ℕ
digit_of c = if leb c b'9' then c - b'0' else c - b'A' + 10

-- A decoder of percent-encoding, for the round trip.
unfoldable pub uri_decode : Str → Str
uri_decode [] = []
uri_decode (c ∷ []) = c ∷ []
uri_decode (c ∷ (x ∷ [])) = c ∷ (x ∷ [])
uri_decode (c ∷ (x ∷ (y ∷ s))) = elim (c == b'%') [
  | true ↦ (digit_of x * 16 + digit_of y) ∷ uri_decode s
  | false ↦ c ∷ uri_decode (x ∷ (y ∷ s))
]

abbrev pub IsByte : ℕ → Type 0
IsByte c = c < 256

digit_of-upper_digit : (n : ℕ) → n < 16 → digit_of (upper_digit n) ≡ n
unfolding digit_of
digit_of-upper_digit n h = ground arith

uri_decode-escape :
    (c : ℕ) (s : Str)
    → c < 256
    → uri_decode (b'%' ∷ (upper_digit (c / 16) ∷ (upper_digit (c % 16) ∷ s))) ≡ c ∷ uri_decode s
unfolding uri_decode
uri_decode-escape c s h =
    ap (λ n. n ∷ uri_decode s)
      (rw (digit_of-upper_digit (c / 16) (omega arith), digit_of-upper_digit (c % 16) (omega arith))
        (omega arith))

uri_decode-plain : (c : ℕ) (s : Str) → (c == b'%') ≡ false → uri_decode (c ∷ s) ≡ c ∷ uri_decode s
unfolding uri_decode
uri_decode-plain c [] h = refl
uri_decode-plain c (x ∷ []) h = refl
uri_decode-plain c (x ∷ (y ∷ s)) h = rw (h, uri_decode) refl

-- Percent-decoding gives every text of bytes back from what uriEncode makes of it, with slashes encoded
-- or left.
pub uri_decode-uri_encode :
    (slash : Bool) (s : Str) → All IsByte s → uri_decode (uri_encode slash s) ≡ s
unfolding uri_encode encode_byte
uri_decode-uri_encode slash [] h = unfold uri_decode in refl
uri_decode-uri_encode slash (c ∷ s) (b, h) =
    elim (Bool-cases (is_unreserved c || (not slash && c == b'/'))) [
      | inl kept ↦ rw kept (
          uri_decode-plain c (uri_encode slash s) (ground arith)
          ∙ ap (λ t. c ∷ t) (uri_decode-uri_encode slash s h))
      | inr escaped ↦ rw escaped (
          uri_decode-escape c (uri_encode slash s) b
          ∙ ap (λ t. c ∷ t) (uri_decode-uri_encode slash s h))
    ]

-- A byte that the encoding of a segment may hold.
abbrev pub is_encoded : ℕ → Bool
is_encoded c = is_unreserved c || c == b'%'

encode_byte-All : (c : ℕ) → c < 256 → All (λ b. is_encoded b ≡ true) (encode_byte true c)
unfolding encode_byte
encode_byte-All c h = elim (Bool-cases (is_unreserved c || (false && c == b'/'))) [
  | inl kept ↦ rw kept (ground arith, tt)
  | inr escaped ↦ rw escaped (refl, (ground arith, (ground arith, tt)))
]

All-append :
    (s t : Str)
    → All (λ b. is_encoded b ≡ true) s
    → All (λ b. is_encoded b ≡ true) t
    → All (λ b. is_encoded b ≡ true) (s ++ t)
All-append [] t h k = k
All-append (x ∷ s) t (p, h) k = (p, All-append s t h k)

-- The encoding of a name or a value has only unreserved bytes and the percent sign in it: no
-- slash, ampersand, equals sign, colon, semicolon or line end.
pub uri_encode-All : (s : Str) → All IsByte s → All (λ b. is_encoded b ≡ true) (uri_encode true s)
unfolding uri_encode
uri_encode-All [] h = tt
uri_encode-All (c ∷ s) (b, h) =
    All-append (encode_byte true c) (uri_encode true s) (encode_byte-All c b) (uri_encode-All s h)
