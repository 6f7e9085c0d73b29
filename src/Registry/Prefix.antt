-- ===== src/Registry/Prefix.antt =====
-- internal/registry/models.go: the key prefix of a mapping and its removal undo one another.
use storage_gateway.Prelude.{
  ℕ, ◌≡◌, refl, sym, ap, true, false, Option, none, some, [], ◌∷◌, ◌++◌, append_assoc, append-nil,
  cut_byte-IsFree, Str, is_empty, IsFree, has_prefix, cut_byte, cut_byte_free, cut_byte-append,
  trim_prefix-append, arith, Bool-cases, inl, inr,
}
use storage_gateway.Registry.{
  ResolvedBucket, prefix_key, strip_prefix, bucket_parts, parse_backend_bucket,
}

append_nil_tail : (p : Str) → (p ++ b'/' ∷ []) ++ [] ≡ p ++ b'/' ∷ []
append_nil_tail p = append-nil (p ++ b'/' ∷ [])

prefix_key_of :
    (rb : ResolvedBucket) (key : Str)
    → is_empty rb.backend_prefix ≡ false
    → prefix_key rb key ≡ (rb.backend_prefix ++ b'/' ∷ []) ++ key
unfolding prefix_key
prefix_key_of rb [] h = rw h (sym (append_nil_tail rb.backend_prefix))
prefix_key_of rb (c ∷ key) h = rw h (sym (append_assoc rb.backend_prefix (b'/' ∷ []) (c ∷ key)))

-- What the gateway sends upstream comes back as the key that the client named, the empty key and
-- any prefix included.
pub strip_prefix-prefix_key :
    (rb : ResolvedBucket) (key : Str) → strip_prefix rb (prefix_key rb key) ≡ key
strip_prefix-prefix_key rb key = elim (Bool-cases (is_empty rb.backend_prefix)) [
  | inl bare ↦ unfold strip_prefix prefix_key in rw bare refl
  | inr scoped ↦
      rw (prefix_key_of rb key scoped)
        (unfold strip_prefix in rw scoped (trim_prefix-append (rb.backend_prefix ++ b'/' ∷ []) key))
]

has_prefix-append : (p s : Str) → has_prefix (p ++ s) p ≡ true
unfolding has_prefix
has_prefix-append [] [] = refl
has_prefix-append [] (x ∷ s) = refl
has_prefix-append (x ∷ p) s = ground (arith, has_prefix-append p s)

-- With a prefix on the mapping, every key that is sent upstream lies under "prefix/".
pub prefix_key-scoped :
    (rb : ResolvedBucket) (key : Str)
    → is_empty rb.backend_prefix ≡ false
    → has_prefix (prefix_key rb key) (rb.backend_prefix ++ b'/' ∷ []) ≡ true
prefix_key-scoped rb key h =
    rw (prefix_key_of rb key h) (has_prefix-append (rb.backend_prefix ++ b'/' ∷ []) key)

parse_bare : (s : Str) → IsFree b'/' s → parse_backend_bucket s ≡ (s, [])
unfolding parse_backend_bucket
parse_bare s h = ap (bucket_parts s) (cut_byte_free b'/' s h)

-- A mapping value is cut at its first slash: "bucket/prefix" into the two, "bucket" into the bucket
-- and no prefix.
parse_backend_bucket-parts :
    (bucket prefix : Str)
    → IsFree b'/' bucket
    → (parse_backend_bucket (bucket ++ (b'/' ∷ prefix)) ≡ (bucket, prefix))
      × (parse_backend_bucket bucket ≡ (bucket, []))
unfolding parse_backend_bucket
parse_backend_bucket-parts bucket prefix h = (
  ap (bucket_parts (bucket ++ (b'/' ∷ prefix))) (cut_byte-append b'/' bucket prefix h),
  parse_bare bucket h,
)

cut_byte-none : (c : ℕ) (s : Str) → cut_byte c s ≡ none → IsFree c s
unfolding cut_byte
cut_byte-none c [] h = tt
cut_byte-none c (x ∷ s) h = ground (arith, cut_byte-none c s)

IsFree-parts :
    (raw : Str) (o : Option (Str × Str))
    → cut_byte b'/' raw ≡ o
    → IsFree b'/' (bucket_parts raw o).0
IsFree-parts raw none h = cut_byte-none b'/' raw h
IsFree-parts raw (some (bucket, prefix)) h = cut_byte-IsFree b'/' raw bucket prefix h

IsFree-bucket : (raw : Str) → IsFree b'/' (parse_backend_bucket raw).0
unfolding parse_backend_bucket
IsFree-bucket raw = IsFree-parts raw (cut_byte b'/' raw) refl

-- The bucket of a parsed value has no slash, so parsing it again leaves it whole.
pub parse_again :
    (raw : Str)
    → parse_backend_bucket (parse_backend_bucket raw).0 ≡ ((parse_backend_bucket raw).0, [])
parse_again raw = parse_bare (parse_backend_bucket raw).0 (IsFree-bucket raw)
