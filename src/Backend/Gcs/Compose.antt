-- ===== src/Backend/Gcs/Compose.antt =====
-- internal/backend/gcs.go: multipart uploads as temporary objects that Compose joins, 32 at a time.
pub mod Storage
pub mod Chunks
pub mod Keys
pub mod Names
pub mod Loop
pub mod Tree
pub mod Complete
pub mod Fuel
use storage_gateway.Prelude.{
  ℕ, zero, suc, ◌+◌, ◌-◌, ◌*◌, ◌/◌, ◌%◌, ◌^◌, ◌≤◌, ◌<◌, ◌≡◌, refl, sym, ap, ◌∙◌, fun_ext, ◌≢◌, ◌↔◌,
  ◌⊎◌, inl, inr, Bool, true, false, ◌&&◌, ◌||◌, not, Option, none, some, List, [], ◌∷◌, ◌++◌, map,
  append_assoc, append-nil, arith, ltb, leb, ◌==◌, if◌then◌else◌, Bool-cases, Option-cases, ltb→lt,
  lt→ltb, leb→le, Str, bytes, str_eq, str_eq_iff, str_eq_refl, is_empty, sort_strings, mem_str,
  str_leb, has_prefix, trim_prefix, cut_byte, IsFree, All, filter, find, any, length, take, drop,
  length-append, length-drop, take-append, drop-append, Result, ok, err, ok_injective, err-ne-ok,
  continue_ok, Exec, pure, raise, lift, continue, ◌>>=◌, ◌>>◌,
}
use storage_gateway.Prelude.Int.{ℤ, pos}
use mathlib.Core.Path.{subst}
use mathlib.Core.Option
use storage_gateway.Strconv.{format_nat, format_5_int}
use storage_gateway.Backend.{
  Error, CreateMultipartUploadInput, UploadPartInput, CompletedPart, CompleteMultipartUploadInput,
  AbortMultipartUploadInput,
}
use storage_gateway.Backend.Gcs.{Client, GcsError, Attrs, map_gcs_err, mapped, write_object}

abbrev pub compose_limit : ℕ
compose_limit = 32

abbrev pub part_area : Str
part_area = bytes "_sgw_parts/"

abbrev pub tmp_area : Str
tmp_area = bytes "_sgw_tmp/"

unfoldable pub gcs_part_key : Str → ℤ → Str
gcs_part_key upload n = part_area ++ (upload ++ (b'/' ∷ format_5_int n))

unfoldable pub tmp_key : ℕ → ℕ → Str
tmp_key i nanos = tmp_area ++ (format_nat i ++ (b'-' ∷ format_nat nanos))

-- The slices sources[i:end] of the loop, each with its `i`, on fuel for the number of rounds.
unfoldable pub chunks : ℕ → ℕ → List Str → List (ℕ × List Str)
chunks zero i ks = []
chunks (suc n) i [] = []
chunks (suc n) i (k ∷ ks) =
    (i, take compose_limit (k ∷ ks)) ∷ chunks n (i + compose_limit) (drop compose_limit (k ∷ ks))

abbrev pub part_keys : CompleteMultipartUploadInput → List Str
part_keys inp = map (λ (p : CompletedPart). gcs_part_key inp.upload_id p.part_number) inp.parts

module _ {S : Type 0} (c : Client S) where
  unfoldable pub compose_direct : Str → List Str → Str → Exec S Error (Unit {0})
  compose_direct bucket ks dest s = mapped (c.compose bucket ks dest s)

  -- Failures are ignored.
  unfoldable pub delete_keys : Str → List Str → S → S
  delete_keys bucket [] s = s
  delete_keys bucket (k ∷ ks) s = delete_keys bucket ks (c.delete bucket k s).1

  abbrev pub after_chunk :
      (List Str → Exec S Error (List Str))
      → Str
      → List Str
      → Str
      → Result Error (Unit {0}) × S
      → Result Error (List Str) × S
  after_chunk go bucket made tmp (err e, s) = (err e, delete_keys bucket made s)
  after_chunk go bucket made tmp (ok _, s) = go (made ++ (tmp ∷ [])) s

  -- The loop that composes each slice into an intermediate object; `made` are the intermediates.
  unfoldable pub compose_chunks : Str → List (ℕ × List Str) → List Str → Exec S Error (List Str)
  compose_chunks bucket [] made s = (ok made, s)
  compose_chunks bucket ((i, ks) ∷ cs) made s =
      let tmp = tmp_key i (c.unix_nano s).0 in
      after_chunk (compose_chunks bucket cs) bucket made tmp
        (compose_direct bucket ks tmp (c.unix_nano s).1)

  abbrev pub cleaned :
      Str → List Str → Option (Result Error (Unit {0}) × S) → Option (Result Error (Unit {0}) × S)
  cleaned bucket made none = none
  cleaned bucket made (some (r, s)) = some (r, delete_keys bucket made s)

  abbrev pub after_chunks :
      (List Str → S → Option (Result Error (Unit {0}) × S))
      → Str
      → Result Error (List Str) × S
      → Option (Result Error (Unit {0}) × S)
  after_chunks go bucket (err e, s) = some (err e, s)
  after_chunks go bucket (ok made, s) = cleaned bucket made (go made s)

  -- The recursion is on fuel; `none` is a run that has used it up.
  unfoldable pub compose_tree : ℕ → Str → List Str → Str → S → Option (Result Error (Unit {0}) × S)
  compose_tree zero bucket ks dest s = none
  compose_tree (suc n) bucket ks dest s =
      let tree =
        after_chunks (λ made. compose_tree n bucket made dest) bucket
          (compose_chunks bucket (chunks (length ks) 0 ks) [] s) in
      if leb (length ks) compose_limit then some (compose_direct bucket ks dest s) else tree

  unfoldable pub create_multipart_upload : CreateMultipartUploadInput → Exec S Error Str
  create_multipart_upload inp s =
      (ok (inp.key ++ (b'/' ∷ format_nat (c.unix_nano s).0)), (c.unix_nano s).1)

  unfoldable pub upload_part : UploadPartInput → Exec S Error Str
  upload_part inp =
      write_object c inp.bucket (gcs_part_key inp.upload_id inp.part_number) [] [] inp.body

  abbrev pub etag_of : Result Error Attrs → Result Error Str
  etag_of (ok a) = ok a.etag
  etag_of (err e) = err e

  -- The parts are deleted by a goroutine: `before` of them before the Attrs call, the rest after it.
  abbrev pub finish_complete :
      ℕ → CompleteMultipartUploadInput → Result Error (Unit {0}) × S → Result Error Str × S
  finish_complete before inp (err e, s) = (err e, s)
  finish_complete before inp (ok _, s) =
      let read =
        mapped
          (c.attrs inp.bucket inp.key (delete_keys inp.bucket (take before (part_keys inp)) s)) in
      (etag_of read.0, delete_keys inp.bucket (drop before (part_keys inp)) read.1)

  unfoldable pub complete_multipart_upload :
      ℕ → CompleteMultipartUploadInput → S → Option (Result Error Str × S)
  complete_multipart_upload before inp s =
      Option.map (finish_complete before inp)
        (compose_tree (length inp.parts + 1) inp.bucket (part_keys inp) inp.key s)

  -- The iterator's error ends the loop after the names that came before it.
  abbrev pub aborted : Option GcsError → Result Error (Unit {0})
  aborted none = ok tt
  aborted (some e) = err (map_gcs_err e)

  unfoldable pub abort_multipart_upload : AbortMultipartUploadInput → Exec S Error (Unit {0})
  abort_multipart_upload inp s =
      let found = c.objects inp.bucket (part_area ++ (inp.upload_id ++ (b'/' ∷ []))) s in
      (aborted found.1, delete_keys inp.bucket found.0 s)
