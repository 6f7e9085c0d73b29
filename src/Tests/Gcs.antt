-- ===== src/Tests/Gcs.antt =====
-- A bucket of objects in memory, and an upload of two parts to it.
use storage_gateway.Prelude.{
  ℕ, ◌≡◌, refl, sym, ap, ◌∙◌, ◌≢◌, inl, inr, false, Option, none, some, List, [], ◌∷◌, arith,
  if◌then◌else◌, Bool-cases, Str, bytes, str_eq, str_eq_iff, str_eq_other, str_eq_refl, has_prefix,
  length, Result, ok, err, err-ne-ok,
}
use storage_gateway.Prelude.Int.{pos}
use mathlib.Core.Bool.{true≢false}
use storage_gateway.Backend.{Error, CompletedPart, CompleteMultipartUploadInput}
use storage_gateway.Backend.Gcs.{Client, GcsError, transport, object_not_exist, Attrs}
use storage_gateway.Backend.Gcs.Compose.{complete_multipart_upload, compose_tree}
use storage_gateway.Backend.Gcs.Compose.Storage.{IsStorage}
use storage_gateway.Backend.Joined.{joined}
use storage_gateway.Backend.Gcs.Compose.Complete.{Completed, complete_multipart_upload-Completed}
use storage_gateway.Backend.Gcs.Compose.Fuel.{compose_tree-ends}

abbrev pub Objects : Type 0
Objects = List (Str × Str)

pub record Memory : Type 0 where
  pub objects : Objects
  pub time : ℕ

abbrev pub look : Str → Objects → Option Str
look k [] = none
look k ((j, b) ∷ os) = if str_eq k j then some b else look k os

abbrev pub without : Str → Objects → Objects
without k [] = []
without k ((j, b) ∷ os) = if str_eq k j then without k os else (j, b) ∷ without k os

abbrev pub content : Memory → Str → Option Str
content m k = look k m.objects

abbrev written : Str → Memory → Option Str → Result GcsError (Unit {0}) × Memory
written d m none = (err transport, m)
written d m (some b) = (ok tt, record m { objects = (d, b) ∷ m.objects })

abbrev attributes : Str → Option Str → Result GcsError Attrs
attributes k none = err object_not_exist
attributes k (some b) = ok (record {
  prefix = [];
  name = k;
  size = length b;
  content_type = [];
  etag = bytes "e";
  updated = none;
  metadata = [];
})

abbrev in_memory : Client Memory
in_memory = record {
  attrs = λ bucket k m. (attributes k (content m k), m);
  new_range_reader = λ bucket k i n m. (err transport, m);
  new_reader = λ bucket k m. (err transport, m);
  copy = λ bucket k t d b m. (err transport, m);
  close = λ bucket k m. (err transport, m);
  delete = λ bucket k m. (ok tt, record m { objects = without k m.objects });
  compose = λ bucket ks d m. written d m (joined (content m) ks);
  bucket_attrs = λ bucket m. (ok tt, m);
  objects = λ bucket p m. ([], none);
  next_page = λ i n m. (err transport, m);
  signed_url = λ i. none;
  unix_nano = λ m. (m.time, m);
  message = λ e. [];
}

pub look-without : (k d : Str) (os : Objects) → k ≢ d → look k (without d os) ≡ look k os
look-without k d [] n = refl
look-without k d ((j, b) ∷ os) n = elim (Bool-cases (str_eq d j)) [
  | inl same ↦
      let e = (str_eq_iff d j).0 same in
      let other : str_eq k j ≡ false = str_eq_other k j (λ f. n (f ∙ sym e)) in
      rw (same, other) (look-without k d os n)
  | inr apart ↦ rw (apart, look-without k d os n) refl
]

written_other :
    (k d : Str) (m : Memory) (o : Option Str) → k ≢ d → content (written d m o).1 k ≡ content m k
written_other k d m none n = refl
written_other k d m (some b) n = rw (str_eq_other k d n) refl

written_ok :
    (d : Str) (m t : Memory) (o : Option Str)
    → written d m o ≡ (ok tt, t)
    → (b : Str) × (o ≡ some b) × (content t d ≡ some b)
written_ok d m t none h = absurd (err-ne-ok h)
written_ok d m t (some b) h = (b, refl, ap (λ r. content r.1 d) (sym h) ∙ rw (str_eq_refl d) refl)

ok-ne-err :
    {e : GcsError} {s t : Memory}
    → ◌≡◌ {A = Result GcsError (Unit {0}) × Memory} (ok tt, s) (err e, t)
    → ⊥
ok-ne-err h = cc

written_err :
    (d k : Str) (m t : Memory) (o : Option Str) (e : GcsError)
    → written d m o ≡ (err e, t)
    → content t k ≡ content m k
written_err d k m t none e h = ap (λ r. content r.1 k) (sym h)
written_err d k m t (some b) e h = absurd (ok-ne-err h)

in_memory-IsStorage : (bucket : Str) → IsStorage in_memory bucket content
in_memory-IsStorage bucket = record {
  composed = λ s t ks d l h. written_ok d s t (joined (content s) ks) h;
  compose_failed = λ s t ks d e h. inl (written_err d d s t (joined (content s) ks) e h);
  compose_other = λ s ks d k n. written_other k d s (joined (content s) ks) n;
  delete_other = λ s d k n. look-without k d s.objects n;
  attrs_same = λ s d k. refl;
  clock_same = λ s k. refl;
}

abbrev pub part : ℕ → CompletedPart
part n = record { part_number = pos n; etag = bytes "e" }

abbrev pub upload : CompleteMultipartUploadInput
upload = record {
  bucket = bytes "b";
  key = bytes "photo";
  upload_id = bytes "u";
  parts = part 1 ∷ (part 2 ∷ []);
}

abbrev memory : Memory
memory = record {
  objects =
      (bytes "_sgw_parts/u/00001", bytes "he")
      ∷ ((bytes "_sgw_parts/u/00002", bytes "llo") ∷ ((bytes "other", bytes "x") ∷ []));
  time = 1;
}

complete_multipart_upload-Completed_example :
    (r : Result Error Str × Memory) × (complete_multipart_upload in_memory 1 upload memory ≡ some r)
    × Completed in_memory content memory upload r
    × (content r.1 (bytes "other") ≡ content memory (bytes "other"))
unfolding has_prefix str_eq
complete_multipart_upload-Completed_example =
    complete_multipart_upload-Completed in_memory content upload (in_memory-IsStorage (bytes "b")) 1
      memory (bytes "other") refl refl (λ e. true≢false (ap (str_eq (bytes "other")) e))

compose_tree-ends_example :
    (r : Result Error (Unit {0}) × Memory) × (compose_tree in_memory 2
        (bytes "b")
        (bytes "other" ∷ [])
        (bytes "copy")
        memory
      ≡ some r)
compose_tree-ends_example =
    compose_tree-ends in_memory (bytes "b") 2 (bytes "other" ∷ []) (bytes "copy") memory
      (omega arith)
