-- ===== src/Backend/Gcs/Compose/Complete.antt =====
-- internal/backend/gcs.go: CompleteMultipartUpload.
use storage_gateway.Prelude.{
  map_err_state, ℕ, zero, suc, ◌+◌, ◌≡◌, refl, ap, ◌∙◌, ◌≢◌, ◌⊎◌, inr, false, Option, some, List,
  [], ◌∷◌, map, arith, Str, bytes, has_prefix, All, length, take, drop, Result, ok, err,
}
use mathlib.Core.Option
use storage_gateway.Backend.{Error, CompletedPart, CompleteMultipartUploadInput}
use storage_gateway.Backend.Gcs.{map_gcs_err, Client, Attrs, mapped}
use storage_gateway.Backend.Gcs.Compose.{
  gcs_part_key, delete_keys, part_keys, finish_complete, etag_of, complete_multipart_upload,
}
use storage_gateway.Backend.Gcs.Compose.Storage.{IsStorage}
use storage_gateway.Backend.Joined.{joined}
use storage_gateway.Backend.Gcs.Compose.Names.{IsOutside, outside-Placed}
use storage_gateway.Backend.Gcs.Compose.Keys.{
  tmp_key_outside, part_key_outside, part_key-ne-tmp_key,
}
use storage_gateway.Backend.Gcs.Compose.Loop.{delete_keys_other}
use storage_gateway.Backend.Gcs.Compose.Tree.{Composed, Ends, tree-Ends}

prefix-IsOutside : (k : Str) → has_prefix k (bytes "_sgw_") ≡ false → IsOutside k
unfolding IsOutside
prefix-IsOutside k h = λ i u. tmp_key_outside k i u h

parts-IsOutside :
    (upload : Str) (ps : List CompletedPart)
    → All IsOutside (map (λ (p : CompletedPart). gcs_part_key upload p.part_number) ps)
unfolding IsOutside
parts-IsOutside upload [] = tt
parts-IsOutside upload (p ∷ ps) =
    (λ i u. part_key-ne-tmp_key upload p.part_number i u, parts-IsOutside upload ps)

parts_apart :
    (k upload : Str) (ps : List CompletedPart)
    → has_prefix k (bytes "_sgw_") ≡ false
    → All (λ d. k ≢ d) (map (λ (p : CompletedPart). gcs_part_key upload p.part_number) ps)
parts_apart k upload [] h = tt
parts_apart k upload (p ∷ ps) h =
    (part_key_outside k upload p.part_number h, parts_apart k upload ps h)

length-parts :
    (upload : Str) (ps : List CompletedPart)
    → length (map (λ (p : CompletedPart). gcs_part_key upload p.part_number) ps) ≡ length ps
length-parts upload [] = refl
length-parts upload (p ∷ ps) = ap suc (length-parts upload ps)

All-take : (P : Str → Type 0) (n : ℕ) (ks : List Str) → All P ks → All P (take n ks)
All-take P zero ks h = tt
All-take P (suc n) [] h = tt
All-take P (suc n) (k ∷ ks) (p, h) = (p, All-take P n ks h)

All-drop : (P : Str → Type 0) (n : ℕ) (ks : List Str) → All P ks → All P (drop n ks)
All-drop P zero ks h = h
All-drop P (suc n) [] h = tt
All-drop P (suc n) (k ∷ ks) (p, h) = All-drop P n ks h

module _ {S : Type 0} (c : Client S) (content : S → Str → Option Str) where
  -- The object is the parts, in the order of the request.
  pub IsAssembled : S → CompleteMultipartUploadInput → S → Type 0
  IsAssembled s inp t =
      (b : Str) × (joined (content s) (part_keys inp) ≡ some b) × (content t inp.key ≡ some b)

  -- A failure either left the object alone or came after it was assembled.
  pub Completed : S → CompleteMultipartUploadInput → Result Error Str × S → Type 0
  Completed s inp (ok etag, t) = IsAssembled s inp t
  Completed s inp (err e, t) = (content t inp.key ≡ content s inp.key) ⊎ IsAssembled s inp t

  assembled-Completed :
      (s t : S) (inp : CompleteMultipartUploadInput) (res : Result Error Attrs)
      → IsAssembled s inp t
      → Completed s inp (etag_of c res, t)
  unfolding Completed
  assembled-Completed s t inp (ok a) h = h
  assembled-Completed s t inp (err e) h = inr h

  module _ (inp : CompleteMultipartUploadInput) (law : IsStorage c inp.bucket content) where
    -- The deletion of the parts and the Attrs call between them change no object outside.
    finish_same :
        (before : ℕ) (res : Result Error (Unit {0})) (s : S) (k : Str)
        → has_prefix k (bytes "_sgw_") ≡ false
        → content (finish_complete c before inp (res, s)).1 k ≡ content s k
    finish_same before (err e) s k h = refl
    finish_same before (ok u) s k h =
        let apart = parts_apart k inp.upload_id inp.parts h in
        let first = delete_keys c inp.bucket (take before (part_keys inp)) s in
        let read = c.attrs inp.bucket inp.key first in
        delete_keys_other c inp.bucket content law (mapped read).1 (drop before (part_keys inp)) k
          (All-drop (λ d. k ≢ d) before (part_keys inp) apart)
        ∙ ap (λ x. content x k) (map_err_state map_gcs_err read.0 read.1)
        ∙ law.attrs_same first inp.key k
        ∙ delete_keys_other c inp.bucket content law s (take before (part_keys inp)) k
            (All-take (λ d. k ≢ d) before (part_keys inp) apart)

    finish-Completed :
        (before : ℕ) (s t : S) (res : Result Error (Unit {0}))
        → has_prefix inp.key (bytes "_sgw_") ≡ false
        → Composed c inp.bucket content law s (part_keys inp) inp.key (res, t)
        → Completed s inp (finish_complete c before inp (res, t))
    unfolding Completed Composed IsAssembled
    finish-Completed before s t (err e) h p = p
    finish-Completed before s t (ok u) h p =
        let read =
          mapped (
            c.attrs inp.bucket inp.key
              (delete_keys c inp.bucket (take before (part_keys inp)) t)) in
        assembled-Completed s (finish_complete c before inp (ok u, t)).1 inp read.0
          (p.0, p.1, finish_same before (ok u) t inp.key h ∙ p.2)

  -- On a service with the behaviour of IsStorage, which writes an object at once or not at all,
  -- CompleteMultipartUpload ends for any number of parts. With a key outside the reserved names, a
  -- result without an error means that the object is the concatenation of the parts in the order of
  -- the request; after an error the object is that or as it was before. Another object `k` outside
  -- the reserved names is not changed. All this holds whatever the clock shows, and wherever the
  -- goroutine that deletes the parts runs.
  pub complete_multipart_upload-Completed :
      (inp : CompleteMultipartUploadInput) (law : IsStorage c inp.bucket content) (before : ℕ)
      (s : S) (k : Str)
      → has_prefix inp.key (bytes "_sgw_") ≡ false
      → has_prefix k (bytes "_sgw_") ≡ false
      → k ≢ inp.key
      → (r : Result Error Str × S) × (complete_multipart_upload c before inp s ≡ some r)
        × Completed s inp r
        × (content r.1 k ≡ content s k)
  unfolding complete_multipart_upload Ends
  complete_multipart_upload-Completed inp law before s k h hk a =
      let e =
        tree-Ends c inp.bucket content law (length inp.parts + 1) (part_keys inp) inp.key k s
          (omega (arith, length-parts inp.upload_id inp.parts)) a
          (outside-Placed 0 (part_keys inp) (parts-IsOutside inp.upload_id inp.parts))
          (prefix-IsOutside inp.key h) (prefix-IsOutside k hk) in
      (
        finish_complete c before inp e.0,
        ap (Option.map (finish_complete c before inp)) e.1,
        finish-Completed inp law before s e.0.1 e.0.0 h e.2,
        finish_same inp law before e.0.0 e.0.1 k hk ∙ e.3,
      )
