-- ===== src/Backend/Range.antt =====
-- internal/backend/gcs.go, parseHTTPRange, and internal/backend/azure.go, parseAzureRange.
use storage_gateway.Prelude.{
  All, ap, ◌∙◌, trim_prefix-append, cut_byte-append, ℕ, ◌+◌, ◌-◌, ◌^◌, ◌≤◌, ◌<◌, ◌≡◌, refl, Option,
  none, some, [], ◌∷◌, ◌++◌, Str, bytes, IsFree, cut_byte, cut_byte-IsFree, trim_prefix, is_empty,
  if◌then◌else◌, Result, ok, err, arith,
}
use storage_gateway.Prelude.Int.{ℤ, pos, negsuc, neg_part, ◌-ℤ◌, ◌+ℤ◌, wrap64}
use storage_gateway.Strconv.{
  parse_int, parse_int_nil, parse_int_no_minus, parse_int-format_nat, format_nat, format_nat_cons,
  format_nat-IsDigit, IsDigit,
}

pub data RangeError : Type 0 where
  malformed_range suffix_range invalid_start invalid_end : RangeError

-- end - offset + 1 in int64
abbrev span : ℤ → ℤ → ℤ
span offset last = wrap64 (wrap64 (last -ℤ offset) +ℤ pos 1)

abbrev with_end : ℤ → Option ℤ → Result RangeError (ℤ × ℤ)
with_end offset none = err invalid_end
with_end offset (some last) = ok (offset, span offset last)

-- `open_end` is the length that stands for "to the end of the object".
abbrev with_start : ℤ → Str → Option ℤ → Result RangeError (ℤ × ℤ)
with_start open_end tail none = err invalid_start
with_start open_end tail (some offset) =
    if is_empty tail then ok (offset, open_end) else with_end offset (parse_int 10 (2 ^ 63) tail)

-- strings.SplitN(r, "-", 2) has two parts exactly if there is a dash.
abbrev split_range : Str → Option (Str × Str)
split_range r = cut_byte b'-' (trim_prefix r (bytes "bytes="))

abbrev http_parts : Option (Str × Str) → Result RangeError (ℤ × ℤ)
http_parts none = err malformed_range
http_parts (some (head, tail)) =
    if is_empty head
    then err suffix_range
    else with_start (negsuc 0) tail (parse_int 10 (2 ^ 63) head)

unfoldable pub parse_http_range : Str → Result RangeError (ℤ × ℤ)
unfolding parse_int cut_byte trim_prefix
parse_http_range r = http_parts (split_range r)

abbrev azure_parts : Option (Str × Str) → Result RangeError (ℤ × ℤ)
azure_parts none = err malformed_range
azure_parts (some (head, tail)) =
    if is_empty head
    then err malformed_range
    else with_start (pos 0) tail (parse_int 10 (2 ^ 63) head)

unfoldable pub parse_azure_range : Str → Result RangeError (ℤ × ℤ)
unfolding parse_int cut_byte trim_prefix
parse_azure_range r = azure_parts (split_range r)

-- A text with no dash parses to no negative number.
parse_int_free :
    (s : Str) (a : ℤ) → IsFree b'-' s → parse_int 10 (2 ^ 63) s ≡ some a → neg_part a ≡ 0
parse_int_free [] a f h = absurd (parse_int_nil 10 (2 ^ 63) a h)
parse_int_free (c ∷ s) a f h = parse_int_no_minus 10 (2 ^ 63) c s a f.0 h

with_end-offset : (offset : ℤ) (o : Option ℤ) (r : ℤ × ℤ) → with_end offset o ≡ ok r → r.0 ≡ offset
with_end-offset offset none r h = cc
with_end-offset offset (some last) r h = ground arith

module _ (open_end : ℤ) (tail : Str) where
  with_start-offset : (o : Option ℤ) (r : ℤ × ℤ) → with_start open_end tail o ≡ ok r → o ≡ some r.0
  with_start-offset none r h = cc
  with_start-offset (some offset) r h =
      ground (arith, with_end-offset offset (parse_int 10 (2 ^ 63) tail) r)

http_parts_nonneg :
    (s : Str) (parts : Option (Str × Str)) (r : ℤ × ℤ)
    → cut_byte b'-' s ≡ parts
    → http_parts parts ≡ ok r
    → neg_part r.0 ≡ 0
http_parts_nonneg s none r e h = cc
http_parts_nonneg s (some (head, tail)) r e h =
    parse_int_free head r.0 (cut_byte-IsFree b'-' s head tail e)
      (with_start-offset (negsuc 0) tail (parse_int 10 (2 ^ 63) head) r (ground arith))

-- An accepted range never has a negative offset.
parse_http_range-nonneg : (s : Str) (r : ℤ × ℤ) → parse_http_range s ≡ ok r → neg_part r.0 ≡ 0
unfolding parse_http_range
parse_http_range-nonneg s r h =
    http_parts_nonneg (trim_prefix s (bytes "bytes=")) (split_range s) r refl h

digits-IsFree : (s : Str) → All IsDigit s → IsFree b'-' s
digits-IsFree [] h = tt
digits-IsFree (c ∷ s) (d, h) = (ground arith, digits-IsFree s h)

module _ (a : ℕ) (tail : Str) where
  -- The header with first byte `a`, as a client writes it.
  abbrev pub range_header : Str
  range_header = bytes "bytes=" ++ (format_nat a ++ b'-' ∷ tail)

  split_range_header : split_range range_header ≡ some (format_nat a, tail)
  split_range_header =
      rw (trim_prefix-append (bytes "bytes=") (format_nat a ++ b'-' ∷ tail))
        (cut_byte-append b'-' (format_nat a) tail (digits-IsFree _ (format_nat-IsDigit a)))

  parse_range_header :
      a < 2 ^ 63 → parse_http_range range_header ≡ with_start (negsuc 0) tail (some (pos a))
  unfolding parse_http_range
  parse_range_header h =
      ap http_parts split_range_header
      ∙ rw (format_nat_cons a, parse_int-format_nat (2 ^ 63) a h) refl

pub span_lem :
    (a b : ℕ) → a ≤ b → b < 2 ^ 63 → b - a + 1 < 2 ^ 63 → span (pos a) (pos b) ≡ pos (b - a + 1)
unfolding ◌-ℤ◌ ◌+ℤ◌ wrap64
span_lem a b h k m = ground arith

-- A header bytes=a-b with a at most b and b - a + 1 below 2^63 parses to the offset a and the
-- length b - a + 1.
pub parse_http_range-closed :
    (a b : ℕ)
    → a ≤ b
    → b < 2 ^ 63
    → b - a + 1 < 2 ^ 63
    → parse_http_range (range_header a (format_nat b)) ≡ ok (pos a, pos (b - a + 1))
parse_http_range-closed a b h k m =
    parse_range_header a (format_nat b) (omega arith)
    ∙ rw (format_nat_cons b, parse_int-format_nat (2 ^ 63) b k, span_lem a b h k m) refl

-- A header bytes=a- parses to the offset a and the length -1.
pub parse_http_range-open :
    (a : ℕ) → a < 2 ^ 63 → parse_http_range (range_header a []) ≡ ok (pos a, negsuc 0)
parse_http_range-open a h = parse_range_header a [] h
