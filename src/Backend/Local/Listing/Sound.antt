-- ===== src/Backend/Local/Listing/Sound.antt =====
-- internal/backend/local.go, ListObjects: every page is within its limits, and shows only
-- keys that the request asks for.
use storage_gateway.Prelude.{
  ℕ, ◌+◌, ◌≤◌, ◌≡◌, refl, Bool, true, false, Option, none, some, List, [], ◌∷◌, ◌++◌, Str, All,
  length, length-append, leb, ok, arith, Bool-cases, Option-cases, inl, inr, not, ◌&&◌, ◌||◌, ◌≢◌,
  ◌⊎◌, has_prefix, if◌then◌else◌, ◌==◌, is_empty, str_leb, through, trim_prefix, trim_prefix-append,
  sym, ap, ◌∙◌,
}
use mathlib.Core.Bool.{true≢false}
use storage_gateway.Backend.{page_size, ListObjectsInput, ListObjectsOutput, ObjectInfo}
use storage_gateway.Backend.Local.{File}
use storage_gateway.Backend.Local.Listing.{
  Entry, entries, skips, roll_up, add_prefix, object_info, add_info, page, list_loop, list_objects,
}

All-append_one {ℓ κ} :
    {A : Type ℓ} (P : A → Type κ) (xs : List A) {x : A} → All P xs → P x → All P (xs ++ x ∷ [])
All-append_one P [] _ p = (p, tt)
All-append_one P (y ∷ xs) (q, h) p = (q, All-append_one P xs h p)

-- An object that a listing may show: its key starts with the prefix and comes behind the start-after
-- key and the continuation token, where the request has them, and the delimiter, where it has one, does
-- not occur behind the prefix.
pub record IsListed (inp : ListObjectsInput) (o : ObjectInfo) : Type 0 where
  pub prefixed : (rest : Str) × (o.key ≡ inp.prefix ++ rest)
  pub behind_start : (inp.start_after ≡ []) ⊎ (str_leb o.key inp.start_after ≡ false)
  pub behind_token : (inp.continuation_token ≡ []) ⊎ (str_leb o.key inp.continuation_token ≡ false)
  pub undivided :
      (inp.delimiter ≡ []) ⊎ ((x y : Str) → o.key ≢ inp.prefix ++ (x ++ (inp.delimiter ++ y)))

none_passes : {A : Type 0} {b : Str} → ◌≡◌ {A = Option Str} (some b) none → A
none_passes h = cc

has_prefix-append : (p s : Str) → has_prefix (p ++ s) p ≡ true
unfolding has_prefix
has_prefix-append [] s = refl
has_prefix-append (x ∷ p) s = ground (arith, has_prefix-append p s)

through-none : (sep x y : Str) → sep ≢ [] → through sep (x ++ (sep ++ y)) ≢ none
unfolding through
through-none [] x y n h = n refl
through-none (c ∷ sep) [] y n h = none_passes (rw (has_prefix-append (c ∷ sep) y) at h)
through-none (c ∷ sep) (a ∷ x) y n h =
    elim (Bool-cases (has_prefix (a ∷ x ++ (c ∷ sep ++ y)) (c ∷ sep))) [
      | inl here ↦ none_passes (rw here at h)
      | inr later ↦ elim (Option-cases (through (c ∷ sep) (x ++ (c ∷ sep ++ y)))) [
        | inl nowhere ↦ through-none (c ∷ sep) x y n nowhere
        | inr (t, found) ↦ none_passes (rw (later, found) at h)
      ]
    ]

all_false : (a b c : Bool) → (a || b || c) ≡ false → (a ≡ false) × (b ≡ false) × (c ≡ false)
all_false false false c h = (refl, refl, h)
all_false false true c h = absurd (true≢false h)
all_false true b c h = absurd (true≢false h)

passed :
    (bound key : Str)
    → (not (is_empty bound) && str_leb key bound) ≡ false
    → (bound ≡ []) ⊎ (str_leb key bound ≡ false)
passed [] key h = inl refl
passed (x ∷ bound) key h = inr h

cons-ne-nil : {c : ℕ} {s : Str} → c ∷ s ≢ []
cons-ne-nil h = cc

undivided_at :
    (d p key : Str)
    → (if is_empty d
        then none
        else elim (through d (trim_prefix key p)) [ none ↦ none | some t ↦ some (p ++ t) ])
      ≡ none
    → (d ≡ []) ⊎ ((x y : Str) → key ≢ p ++ (x ++ (d ++ y)))
undivided_at [] p key h = inl refl
undivided_at (c ∷ d) p key h = elim (Option-cases (through (c ∷ d) (trim_prefix key p))) [
  | inl nowhere ↦ inr (λ x y e. through-none (c ∷ d) x y cons-ne-nil (
      ap (through (c ∷ d))
        (sym (ap (λ k. trim_prefix k p) e ∙ trim_prefix-append p (x ++ (c ∷ d ++ y))))
      ∙ nowhere))
  | inr (t, found) ↦ none_passes (rw found at h)
]

undivided_lem :
    (inp : ListObjectsInput) (key : Str)
    → roll_up inp key ≡ none
    → (inp.delimiter ≡ []) ⊎ ((x y : Str) → key ≢ inp.prefix ++ (x ++ (inp.delimiter ++ y)))
unfolding roll_up
undivided_lem inp key h = undivided_at inp.delimiter inp.prefix key h

eq_byte : (a b : ℕ) → (a == b) ≡ true → a ≡ b
eq_byte a b h = ground arith

starts : (s p : Str) → not (has_prefix s p) ≡ false → (rest : Str) × (s ≡ p ++ rest)
unfolding has_prefix
starts s [] h = (s, refl)
starts [] (x ∷ p) h = absurd (true≢false h)
starts (y ∷ s) (x ∷ p) h = elim (Bool-cases (y == x)) [
  | inl same ↦
      let rest = starts s p (rw same at h) in
      (rest.0, ap (λ t. y ∷ t) rest.1 ∙ ap (λ c. c ∷ p ++ rest.0) (eq_byte y x same))
  | inr other ↦ absurd (true≢false (rw other at h))
]

listed_lem :
    (inp : ListObjectsInput) (o : ObjectInfo)
    → skips inp o.key ≡ false
    → roll_up inp o.key ≡ none
    → IsListed inp o
unfolding skips
listed_lem inp o pass flat =
    let (p, st, tok) =
      all_false (not (has_prefix o.key inp.prefix))
        (not (is_empty inp.start_after) && str_leb o.key inp.start_after)
        (not (is_empty inp.continuation_token) && str_leb o.key inp.continuation_token) pass in
    record {
      prefixed = starts o.key inp.prefix p;
      behind_start = passed inp.start_after o.key st;
      behind_token = passed inp.continuation_token o.key tok;
      undivided = undivided_lem inp o.key flat;
    }

pub record IsPage (inp : ListObjectsInput) (n : ℕ) (out : ListObjectsOutput) : Type 0 where
  pub listed : All (IsListed inp) out.contents
  pub bounded : length out.contents ≤ n
  pub counted : out.key_count ≡ length out.contents

module _ (md5_hex : Str → Str) (inp : ListObjectsInput) (n : ℕ) where
  page-IsPage :
      (contents : List ObjectInfo) (prefixes : List Str) (truncated : Bool) (token : Str)
      → All (IsListed inp) contents
      → length contents ≤ n
      → IsPage inp n (page md5_hex contents prefixes truncated token)
  unfolding page
  page-IsPage contents prefixes truncated token h k = record {
    listed = h;
    bounded = k;
    counted = refl;
  }

  add_info-IsListed :
      (key : Str) (info : Option File) (contents : List ObjectInfo)
      → (skips inp key ≡ false) × (roll_up inp key ≡ none)
      → All (IsListed inp) contents
      → All (IsListed inp) (add_info md5_hex key info contents)
  unfolding add_info
  add_info-IsListed key none contents h k = k
  add_info-IsListed key (some f) contents h k = All-append_one (IsListed inp) contents k (
      listed_lem inp (object_info md5_hex key f) (unfold object_info in h.0)
        (unfold object_info in h.1))

  length-add_info :
      (key : Str) (info : Option File) (contents : List ObjectInfo)
      → length (add_info md5_hex key info contents) ≤ length contents + 1
  unfolding add_info
  length-add_info key none contents = omega arith
  length-add_info key (some f) contents =
      omega (arith, length-append contents (object_info md5_hex key f ∷ []))

  list_loop-IsPage :
      (es : List Entry) (contents : List ObjectInfo) (prefixes : List Str)
      → All (IsListed inp) contents
      → length contents ≤ n
      → IsPage inp n (list_loop md5_hex inp n es contents prefixes)
  unfolding list_loop
  list_loop-IsPage [] contents prefixes h k = page-IsPage contents prefixes false [] h k
  list_loop-IsPage (e ∷ es) contents prefixes h k = elim (Bool-cases (skips inp e.name)) [
    | inl skip ↦ rw (skip, list_loop) (list_loop-IsPage es contents prefixes h k)
    | inr pass ↦ elim (Option-cases (roll_up inp e.name)) [
      | inr (p, rolled) ↦
          rw (pass, rolled, list_loop) (list_loop-IsPage es contents (add_prefix p prefixes) h k)
      | inl flat ↦ elim (Bool-cases (leb n (length contents))) [
        | inl full ↦
            rw (pass, flat, full, list_loop) (page-IsPage contents prefixes true e.name h k)
        | inr room ↦
            rw (pass, flat, room, list_loop)
              (list_loop-IsPage es (add_info md5_hex e.name e.info contents) prefixes
                (add_info-IsListed e.name e.info contents (pass, flat) h)
                (ground (arith, length-add_info e.name e.info contents)))
      ]
    ]
  ]

-- A listing of a directory always answers with a page: at most max-keys objects (1000 where the
-- request has no positive number), counted in KeyCount. Each of their keys starts with the prefix,
-- comes behind the start-after key and behind the continuation token, where the request has them, and
-- has no delimiter behind the prefix, where it has one.
pub list_objects-IsPage :
    (md5_hex : Str → Str) (inp : ListObjectsInput) (es : List Entry)
    → (out : ListObjectsOutput) × (list_objects md5_hex (entries es) inp ≡ ok out)
      × IsPage inp (page_size inp.max_keys) out
unfolding list_objects
list_objects-IsPage md5_hex inp es = (
  list_loop md5_hex inp (page_size inp.max_keys) es [] [],
  refl,
  list_loop-IsPage md5_hex inp (page_size inp.max_keys) es [] [] tt (omega arith),
)
