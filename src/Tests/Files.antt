-- ===== src/Tests/Files.antt =====
-- A directory of files in memory, and uploads completed in it.
use storage_gateway.Prelude.{
  str_eq_other, ◌≡◌, refl, sym, ap, ◌∙◌, ◌≢◌, inl, inr, false, Option, none, some, List, [], ◌∷◌,
  ◌++◌, if◌then◌else◌, Bool-cases, Str, bytes, str_eq, str_eq_refl, has_prefix, Result, ok, err,
  ok_injective, err-ne-ok,
}
use mathlib.Core.Bool.{true≢false}
use storage_gateway.Strconv.{format_5, format_5_int}
use storage_gateway.Backend.{Error, upstream_error, CompletedPart, CompleteMultipartUploadInput}
use storage_gateway.Backend.Joined.{joined}
use storage_gateway.Backend.Local.Files.{
  ReadFailure, cannot_open, OsError, not_exist, os_failed, FileSystem, paths,
  complete_multipart_upload,
}
use storage_gateway.Backend.Local.Files.Complete.{
  IsFiles, complete_multipart_upload-joined, complete_multipart_upload-emptied,
}
use storage_gateway.Tests.Gcs.{Objects, Memory, look, without, content, part}

abbrev slashed : List Str → Str
slashed [] = []
slashed (s ∷ []) = s
slashed (s ∷ (t ∷ ss)) = s ++ (b'/' ∷ slashed (t ∷ ss))

abbrev outside : Str → Objects → Objects
outside d [] = []
outside d ((j, b) ∷ os) = if has_prefix j d then outside d os else (j, b) ∷ outside d os

abbrev grown : Str → Str → Memory → Option Str → Result OsError (Unit {0}) × Memory
grown p b m none = (err os_failed, m)
grown p b m (some old) = (ok tt, record m { objects = (p, old ++ b) ∷ m.objects })

abbrev found : Option Str → Result ReadFailure Str
found none = err cannot_open
found (some b) = ok b

abbrev in_memory : FileSystem Memory
in_memory = record {
  join = slashed;
  dir = λ p. p;
  mkdir_all = λ d m. (ok tt, m);
  create = λ p m. (ok tt, record m { objects = (p, []) ∷ m.objects });
  copy = λ p b m. (err os_failed, m);
  append = λ p b m. grown p b m (content m p);
  read = λ p m. found (content m p);
  stat = λ p m. err not_exist;
  remove = λ p m. (ok tt, record m { objects = without p m.objects });
  remove_all = λ d m. (ok tt, record m { objects = outside d m.objects });
  unix_nano = λ m. (m.time, m);
  message = λ e. [];
}

look-outside :
    (k d : Str) (os : Objects) → has_prefix k d ≡ false → look k (outside d os) ≡ look k os
look-outside k d [] h = refl
look-outside k d ((j, b) ∷ os) h = elim (Bool-cases (has_prefix j d)) [
  | inl under ↦
      let other : str_eq k j ≡ false =
        str_eq_other k j (λ e. true≢false (sym under ∙ ap (λ x. has_prefix x d) (sym e) ∙ h)) in
      rw (under, other) (look-outside k d os h)
  | inr apart ↦ rw (apart, look-outside k d os h) refl
]

created_at :
    (m t : Memory) (p : Str)
    → ◌≡◌ {A = Result OsError (Unit {0}) × Memory}
        (ok tt, record m { objects = (p, []) ∷ m.objects })
        (ok tt, t)
    → content t p ≡ some []
created_at m t p h = ap (λ r. content r.1 p) (sym h) ∙ rw (str_eq_refl p) refl

created_other : (m : Memory) (p k b : Str) → k ≢ p → look k ((p, b) ∷ m.objects) ≡ content m k
created_other m p k b n = rw (str_eq_other k p n) refl

grown_ok :
    (m t : Memory) (p b old : Str) (o : Option Str)
    → grown p b m o ≡ (ok tt, t)
    → o ≡ some old
    → content t p ≡ some (old ++ b)
grown_ok m t p b old none h e = absurd (err-ne-ok h)
grown_ok m t p b old (some x) h e =
    ap (λ r. content r.1 p) (sym h)
    ∙ rw (str_eq_refl p) (ap (λ o. some (elim o [ none ↦ [] | some y ↦ y ++ b ])) e)

grown_other :
    (m : Memory) (p b k : Str) (o : Option Str) → k ≢ p → content (grown p b m o).1 k ≡ content m k
grown_other m p b k none n = refl
grown_other m p b k (some old) n = created_other m p k (old ++ b) n

found_ok : (o : Option Str) (b : Str) → found o ≡ ok b → o ≡ some b
found_ok none b h = cc
found_ok (some x) b h = ap some (ok_injective h)

found_missing : (o : Option Str) → o ≡ none → found o ≡ err cannot_open
found_missing o h = ap found h

in_memory-IsFiles : IsFiles in_memory content
in_memory-IsFiles = record {
  created = created_at;
  create_other = λ s p k n. created_other s p k [] n;
  grown = λ s t p b old h e. grown_ok s t p b old (content s p) h e;
  append_other = λ s p b k n. grown_other s p b k (content s p) n;
  mkdir_same = λ s d k. refl;
  read_content = λ s p b h. found_ok (content s p) b h;
  read_missing = λ s p h. found_missing (content s p) h;
  remove_all_other = λ s d k h. look-outside k d s.objects h;
}

abbrev upload : CompleteMultipartUploadInput
upload = record {
  bucket = bytes "b";
  key = bytes "photo";
  upload_id = bytes "u";
  parts = part 1 ∷ (part 2 ∷ []);
}

abbrev disk : Memory
disk = record {
  objects =
      (bytes "r/.sgw_parts/u/00001", bytes "he")
      ∷ ((bytes "r/.sgw_parts/u/00002", bytes "llo") ∷ ((bytes "r/b/photo", bytes "old") ∷ []));
  time = 1;
}

apart_1 : bytes "r/.sgw_parts/u/00001" ≢ bytes "r/b/photo"
unfolding str_eq
apart_1 e = true≢false (ap (str_eq (bytes "r/.sgw_parts/u/00001")) e)

apart_2 : bytes "r/.sgw_parts/u/00002" ≢ bytes "r/b/photo"
unfolding str_eq
apart_2 e = true≢false (ap (str_eq (bytes "r/.sgw_parts/u/00002")) e)

complete_multipart_upload-joined_example :
    (b : Str) × (joined
        (content disk)
        (paths in_memory (bytes "r") (λ s. s) (bytes "u") upload.parts)
      ≡ some b)
    × (content
          (complete_multipart_upload in_memory (bytes "r") (λ s. s) upload disk).1
          (bytes "r/b/photo")
        ≡ some b)
    × (bytes "hello" ≡ b)
unfolding storage_gateway.Backend.Local.Files.part_path
    storage_gateway.Backend.Local.Files.object_path format_5_int format_5 has_prefix
    storage_gateway.Backend.Local.Files.upload_dir complete_multipart_upload
    storage_gateway.Backend.Local.Files.copy_parts str_eq
complete_multipart_upload-joined_example =
    complete_multipart_upload-joined in_memory (bytes "r") (λ s. s) content in_memory-IsFiles upload
      disk (complete_multipart_upload in_memory (bytes "r") (λ s. s) upload disk).1 (bytes "hello")
      (apart_1, (apart_2, tt)) refl refl

abbrev lost : CompleteMultipartUploadInput
lost = record upload { parts = part 7 ∷ [] }

apart_7 : bytes "r/.sgw_parts/u/00007" ≢ bytes "r/b/photo"
unfolding str_eq
apart_7 e = true≢false (ap (str_eq (bytes "r/.sgw_parts/u/00007")) e)

complete_multipart_upload-emptied_example :
    ((complete_multipart_upload in_memory (bytes "r") (λ s. s) lost disk).0 ≡ err upstream_error)
    × (content
          (complete_multipart_upload in_memory (bytes "r") (λ s. s) lost disk).1
          (bytes "r/b/photo")
        ≡ some [])
unfolding storage_gateway.Backend.Local.Files.object_path
    storage_gateway.Backend.Local.Files.part_path format_5_int format_5 str_eq
complete_multipart_upload-emptied_example =
    complete_multipart_upload-emptied in_memory (bytes "r") (λ s. s) content in_memory-IsFiles lost
      disk disk (record disk { objects = (bytes "r/b/photo", []) ∷ disk.objects }) (part 7) [] refl
      refl refl apart_7 refl
