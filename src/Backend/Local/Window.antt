-- ===== src/Backend/Local/Window.antt =====
-- internal/backend/local.go, GetObject: which bytes of a file a range header gets.
use Prim.Native.Nat.{min}
use storage_gateway.Prelude.{
  ℕ, ◌+◌, ◌-◌, ◌^◌, ◌≤◌, ◌<◌, ◌≡◌, refl, ap, ◌∙◌, true, false, is_empty, [], ◌∷◌, ◌++◌, Str, bytes,
  length, length-drop, length-take_le, take_all, take, drop, ok, err, arith,
}
use storage_gateway.Prelude.Int.{ℤ, pos, negsuc, ◌+ℤ◌, ◌-ℤ◌, wrap64, ltb_ℤ}
use storage_gateway.Strconv.{format_nat, format_int}
use storage_gateway.Backend.{invalid_range, GetObjectInput, GetObjectOutput}
use storage_gateway.Backend.Range.{
  range_header, parse_http_range, parse_http_range-closed, parse_http_range-open,
}
use storage_gateway.Backend.Local.{
  File, opened, size_of, clamp_length, content_range, whole_object, ranged_object, get_object,
}

module _ (offset n size : ℕ) (fits : offset < size) (small : size < 2 ^ 63) where
  clamp_length-pos :
      offset + n < 2 ^ 63
      → clamp_length (pos offset) (pos n) (pos size) ≡ pos (min n (size - offset))
  unfolding clamp_length
  clamp_length-pos h = ground arith

  clamp_length-overflow :
      n < 2 ^ 63 → 2 ^ 63 ≤ offset + n → clamp_length (pos offset) (pos n) (pos size) ≡ pos n
  unfolding clamp_length
  clamp_length-overflow k h = ground arith

  clamp_length-open : clamp_length (pos offset) (negsuc 0) (pos size) ≡ pos (size - offset)
  unfolding clamp_length
  clamp_length-open = ground arith

-- The Content-Range of the `n` bytes from `offset`, as a client reads it.
abbrev pub range_text : ℕ → ℕ → ℕ → Str
range_text offset n size =
    bytes "bytes "
    ++ (format_nat offset ++ (b'-' ∷ (format_nat (offset + n - 1) ++ (b'/' ∷ format_nat size))))

last_byte :
    (offset n : ℕ)
    → 0 < offset + n
    → offset + n < 2 ^ 63
    → wrap64 (wrap64 (pos offset +ℤ pos n) -ℤ pos 1) ≡ pos (offset + n - 1)
unfolding ◌-ℤ◌ ◌+ℤ◌ wrap64
last_byte offset n h k = ground arith

ltb_ℤ_pos : (a b : ℕ) → a < b → ltb_ℤ (pos a) (pos b) ≡ true
ltb_ℤ_pos a b h = ground arith

ltb_ℤ_pos_not : (a b : ℕ) → b ≤ a → ltb_ℤ (pos a) (pos b) ≡ false
ltb_ℤ_pos_not a b h = ground arith

last_byte-overflow :
    (offset n : ℕ)
    → offset + n ≡ 2 ^ 63
    → wrap64 (wrap64 (pos offset +ℤ pos n) -ℤ pos 1) ≡ pos (offset + n - 1)
unfolding ◌-ℤ◌ ◌+ℤ◌ wrap64
last_byte-overflow offset n h = ground arith

module _ (md5_hex : Str → Str) (f : File) (bucket key : Str)
    (small : length f.content < 2 ^ 63) where
  abbrev pub request : Str → GetObjectInput
  request range = record { bucket = bucket; key = key; range = range }

  -- The answer that holds the `n` bytes from `offset`.
  abbrev pub slice : ℕ → ℕ → GetObjectOutput
  slice offset n = record (whole_object md5_hex f) {
    body = take n (drop offset f.content);
    content_length = pos n;
    content_range = range_text offset n (length f.content);
  }

  ranged_slice :
      (offset m : ℕ) (l : ℤ)
      → offset < length f.content
      → clamp_length (pos offset) l (size_of f) ≡ pos m
      → wrap64 (wrap64 (pos offset +ℤ pos m) -ℤ pos 1) ≡ pos (offset + m - 1)
      → ranged_object md5_hex f true (ok (pos offset, l)) ≡ ok (slice offset m)
  ranged_slice offset m l h e p =
      unfold ranged_object content_range format_int in
      rw (ltb_ℤ_pos offset (length f.content) h, e, p) refl

  -- bytes=a-b with a at most b, a in the file and b + 1 below 2^63 gets the bytes a to b, or to the end
  -- if the file is shorter.
  pub get_object-closed :
      (a b : ℕ)
      → a ≤ b
      → a < length f.content
      → b + 1 < 2 ^ 63
      → get_object md5_hex (opened f) true (request (range_header a (format_nat b)))
        ≡ ok (slice a (min (b - a + 1) (length f.content - a)))
  get_object-closed a b h k m =
      unfold get_object in
      ap (ranged_object md5_hex f true) (parse_http_range-closed a b h (omega arith) (omega arith))
      ∙ ranged_slice a (min (b - a + 1) (length f.content - a)) (pos (b - a + 1)) k
          (clamp_length-pos a (b - a + 1) (length f.content) k small (omega arith))
          (last_byte a (min (b - a + 1) (length f.content - a)) (omega arith) (omega arith))

  -- bytes=a- with a in the file gets the bytes from a to the end.
  get_object-open :
      (a : ℕ)
      → a < length f.content
      → get_object md5_hex (opened f) true (request (range_header a []))
        ≡ ok (slice a (length f.content - a))
  get_object-open a k =
      unfold get_object in
      ap (ranged_object md5_hex f true) (parse_http_range-open a (omega arith))
      ∙ ranged_slice a (length f.content - a) (negsuc 0) k
          (clamp_length-open a 0 (length f.content) k small)
          (last_byte a (length f.content - a) (omega arith) (omega arith))

  -- A range that starts at or behind the end of the file is not satisfiable.
  get_object-beyond :
      (range : Str) (a : ℕ) (l : ℤ)
      → is_empty range ≡ false
      → parse_http_range range ≡ ok (pos a, l)
      → length f.content ≤ a
      → get_object md5_hex (opened f) true (request range) ≡ err invalid_range
  get_object-beyond range a l n e h =
      unfold get_object ranged_object in rw (n, e, ltb_ℤ_pos_not a (length f.content) h) refl

  -- bytes=a-9223372036854775807 with a positive and in the file announces 2^63 - a bytes, whatever
  -- the size of the file, and its body has only the bytes from a to the end.
  pub get_object-overflow :
      (a : ℕ)
      → 0 < a
      → a < length f.content
      → (out : GetObjectOutput) × (get_object md5_hex
            (opened f)
            true
            (request (range_header a (format_nat (2 ^ 63 - 1))))
          ≡ ok out)
        × (out.content_length ≡ pos (2 ^ 63 - a))
        × (out.body ≡ drop a f.content)
  get_object-overflow a p k = (
    slice a (2 ^ 63 - a),
    unfold get_object in
        ap (ranged_object md5_hex f true)
          (parse_http_range-closed a (2 ^ 63 - 1) (omega arith) (omega arith) (omega arith))
        ∙ ranged_slice a (2 ^ 63 - a) (pos (2 ^ 63 - 1 - a + 1)) k
            (clamp_length-overflow a (2 ^ 63 - 1 - a + 1) (length f.content) k small (omega arith)
                (omega arith)
              ∙ ap pos (omega arith))
            (last_byte-overflow a (2 ^ 63 - a) (omega arith)),
    refl,
    take_all (2 ^ 63 - a) (drop a f.content) (omega (arith, length-drop a f.content)),
  )

  -- The announced length is the length of the body.
  pub length-slice :
      (a n : ℕ)
      → n + a ≤ length f.content
      → pos (length (slice a n).body) ≡ (slice a n).content_length
  length-slice a n h = ap pos (length-take_le n _ (omega (arith, length-drop a f.content)))
