-- ===== src/S3/Signature/Order.antt =====
-- internal/api/s3/auth.go, canonicalQueryStringExcluding: the map of the query is walked in an
-- arbitrary order, and the canonical query is the same for each.
use storage_gateway.Prelude.{
  ◌≡◌, refl, sym, ap, ◌∙◌, inl, inr, Bool, true, false, List, [], ◌∷◌, map, arith, if◌then◌else◌,
  Bool-cases, Str, bytes, str_eq_iff, str_eq_refl, str_leb, filter, drop,
}
use mathlib.Core.Logic.{∥∥₁_elim}
use mathlib.Core.List.{Perm, Permᴰ}
use storage_gateway.Registry.Db.{insert_by, sort_by}
use storage_gateway.S3.Handler.{Request}
use storage_gateway.S3.Signature.{
  ParsedAuth, Digests, pair_leb, encode_pair, is_other, show_pair, join, canonical_query_excluding,
  canonical_request, compute_signature, payload_hash, query_of, canonical_query, canonical_headers,
  canonical_lines,
}

-- Sorting by a total order gives one list for all permutations.
module _ {A : Type 0} (le : A → A → Bool) where
  pub record IsTotalOrder : Type 0 where
    pub total : (a b : A) → le a b ≡ false → le b a ≡ true
    pub trans : (a b c : A) → le a b ≡ true → le b c ≡ true → le a c ≡ true
    pub antisym : (a b : A) → le a b ≡ true → le b a ≡ true → a ≡ b

  module _ (o : IsTotalOrder) where
    insert_comm :
        (a b : A) (l : List A)
        → insert_by le a (insert_by le b l) ≡ insert_by le b (insert_by le a l)
    unfolding insert_by
    insert_comm a b [] = ground (arith, o.total a b, o.antisym a b)
    insert_comm a b (x ∷ l) = ground (
      arith,
      insert_comm a b l,
      o.total a b,
      o.antisym a b,
      o.total a x,
      o.total b x,
      o.trans a b x,
      o.trans b a x,
      o.trans a x b,
      o.trans b x a,
      o.antisym a x,
      o.antisym b x,
    )

    -- The sorted images of the elements that pass.
    module _ {B : Type 0} (p : B → Bool) (g : B → A) where
      abbrev chosen : List B → List A
      chosen l = sort_by le (map g (filter p l))

      abbrev put_chosen : B → List A → List A
      put_chosen b l = if p b then insert_by le (g b) l else l

      chosen-cons : (b : B) (l : List B) → chosen (b ∷ l) ≡ put_chosen b (chosen l)
      unfolding sort_by filter
      chosen-cons b l = elim (Bool-cases (p b)) [
        | inl keep ↦ rw keep refl
        | inr drop ↦ rw drop refl
      ]

      put_chosen_comm :
          (a b : B) (l : List A) → put_chosen a (put_chosen b l) ≡ put_chosen b (put_chosen a l)
      put_chosen_comm a b l = ground (arith, insert_comm (g a) (g b) l)

      chosen-Perm : {l m : List B} → Permᴰ l m → chosen l ≡ chosen m
      chosen-Perm Permᴰ.nil = refl
      chosen-Perm (Permᴰ.cons {a} {b} {l₁} {l₂} e d) =
          chosen-cons a l₁
          ∙ ap (λ x. put_chosen x (chosen l₁)) e
          ∙ ap (put_chosen b) (chosen-Perm d)
          ∙ sym (chosen-cons b l₂)
      chosen-Perm (Permᴰ.swap {a} {b} {a'} {b'} {l} e f) =
          chosen-cons a (b ∷ l)
          ∙ ap (put_chosen a) (chosen-cons b l)
          ∙ put_chosen_comm a b (chosen l)
          ∙ ap (λ x. put_chosen x (put_chosen a (chosen l))) f
          ∙ ap (λ x. put_chosen a' (put_chosen x (chosen l))) e
          ∙ ap (put_chosen a') (sym (chosen-cons b' l))
          ∙ sym (chosen-cons a' (b' ∷ l))
      chosen-Perm (Permᴰ.trans d e) = chosen-Perm d ∙ chosen-Perm e

-- The order of texts and of pairs of texts.
str_leb_total : (s t : Str) → str_leb s t ≡ false → str_leb t s ≡ true
unfolding str_leb
str_leb_total [] t h = ground arith
str_leb_total (x ∷ s) [] h = refl
str_leb_total (x ∷ s) (y ∷ t) h = ground (arith, str_leb_total s t)

str_leb_trans : (s t u : Str) → str_leb s t ≡ true → str_leb t u ≡ true → str_leb s u ≡ true
unfolding str_leb
str_leb_trans [] t u h k = refl
str_leb_trans (x ∷ s) [] u h k = ground arith
str_leb_trans (x ∷ s) (y ∷ t) [] h k = ground arith
str_leb_trans (x ∷ s) (y ∷ t) (z ∷ u) h k = ground (arith, str_leb_trans s t u)

str_leb_antisym : (s t : Str) → str_leb s t ≡ true → str_leb t s ≡ true → s ≡ t
unfolding str_leb
str_leb_antisym [] [] h k = refl
str_leb_antisym [] (y ∷ t) h k = ground arith
str_leb_antisym (x ∷ s) [] h k = ground arith
str_leb_antisym (x ∷ s) (y ∷ t) h k = ground (arith, str_leb_antisym s t)

pair_total : (a b : Str × Str) → pair_leb a b ≡ false → pair_leb b a ≡ true
pair_total (k, v) (l, w) h =
    ground (arith, str_eq_iff k l, str_eq_iff l k, str_leb_total v w, str_leb_total k l)

pair_trans : (a b c : Str × Str) → pair_leb a b ≡ true → pair_leb b c ≡ true → pair_leb a c ≡ true
pair_trans (k, v) (l, w) (m, u) h e = ground (
  arith,
  str_eq_iff k l,
  str_eq_iff l m,
  str_eq_iff k m,
  str_leb_trans v w u,
  str_leb_trans k l m,
  str_leb_antisym k l,
)

pair_antisym : (a b : Str × Str) → pair_leb a b ≡ true → pair_leb b a ≡ true → a ≡ b
pair_antisym (k, v) (l, w) h e =
    ground (arith, str_eq_iff k l, str_eq_iff l k, str_leb_antisym v w, str_leb_antisym k l)

pairs-IsTotalOrder : IsTotalOrder pair_leb
pairs-IsTotalOrder = record { total = pair_total; trans = pair_trans; antisym = pair_antisym }

Str_set : IsSet Str
Str_set = hlevel

-- The canonical query does not depend on the order in which the pairs come.
canonical_query-Perm :
    (exclude : Str) (p q : List (Str × Str))
    → Permᴰ p q
    → canonical_query_excluding exclude p ≡ canonical_query_excluding exclude q
unfolding canonical_query_excluding
canonical_query-Perm exclude p q d =
    ap (λ l. join (b'&' ∷ []) (map show_pair l))
      (chosen-Perm pair_leb pairs-IsTotalOrder (is_other exclude) encode_pair d)

excluded :
    (v : Str) (q : List (Str × Str))
    → canonical_query_excluding (bytes "X-Amz-Signature") ((bytes "X-Amz-Signature", v) ∷ q)
      ≡ canonical_query_excluding (bytes "X-Amz-Signature") q
unfolding canonical_query_excluding filter
excluded v q = rw (str_eq_refl (bytes "X-Amz-Signature")) refl

module _ (d : Digests) (r : Request) (pa : ParsedAuth) (secret : Str) where
  same_signature :
      (q : List (Str × Str))
      → query_of pa q ≡ query_of pa r.query
      → compute_signature d (record r { query = q }) pa secret ≡ compute_signature d r pa secret
  unfolding compute_signature canonical_request payload_hash canonical_headers canonical_lines
  same_signature q e = rw e refl

  query_of_order : (a b : List (Str × Str)) → Permᴰ a b → query_of pa a ≡ query_of pa b
  unfolding canonical_query
  query_of_order a b e = elim (Bool-cases pa.presigned) [
    | inl h ↦ rw h (canonical_query-Perm (bytes "X-Amz-Signature") a b e)
    | inr h ↦ rw h (canonical_query-Perm [] a b e)
  ]

  presigned_query :
      (v : Str) (b : List (Str × Str))
      → pa.presigned ≡ true
      → Permᴰ b ((bytes "X-Amz-Signature", v) ∷ r.query)
      → query_of pa b ≡ query_of pa r.query
  presigned_query v b h e = rw h (
      canonical_query-Perm (bytes "X-Amz-Signature") b ((bytes "X-Amz-Signature", v) ∷ r.query) e
      ∙ excluded v r.query)

-- The signature does not depend on the order in which the pairs of the query are met.
compute_signature-Perm :
    (d : Digests) (r : Request) (pa : ParsedAuth) (secret : Str) (q : List (Str × Str))
    → Perm r.query q
    → compute_signature d (record r { query = q }) pa secret ≡ compute_signature d r pa secret
compute_signature-Perm d r pa secret q p =
    ∥∥₁_elim p (Str_set _ _)
      λ e. same_signature d r pa secret q (sym (query_of_order d r pa secret r.query q e))

-- For a presigned request the signature is that of the request as it was before its signature was
-- put into the query, at whatever place.
pub compute_signature-presigned :
    (d : Digests) (r : Request) (pa : ParsedAuth) (secret v : Str) (signed : List (Str × Str))
    → pa.presigned ≡ true
    → Perm signed ((bytes "X-Amz-Signature", v) ∷ r.query)
    → compute_signature d (record r { query = signed }) pa secret ≡ compute_signature d r pa secret
compute_signature-presigned d r pa secret v signed h s =
    ∥∥₁_elim s (Str_set _ _)
      λ e. same_signature d r pa secret signed (presigned_query d r pa secret v signed h e)
