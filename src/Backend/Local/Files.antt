-- ===== src/Backend/Local/Files.antt =====
-- internal/backend/local.go: the operations that write, over the calls of packages os and io on a
-- file system and filepath.Join and Dir, which are a parameter with its own state.
pub mod Complete
use storage_gateway.Prelude.{
  map_err, ℕ, zero, suc, ◌+◌, ◌-◌, ◌*◌, ◌/◌, ◌%◌, ◌^◌, ◌≤◌, ◌<◌, ◌≡◌, refl, sym, ap, ◌∙◌, fun_ext,
  ◌≢◌, ◌↔◌, ◌⊎◌, inl, inr, Bool, true, false, ◌&&◌, ◌||◌, not, Option, none, some, List, [], ◌∷◌,
  ◌++◌, map, append_assoc, append-nil, arith, ltb, leb, ◌==◌, if◌then◌else◌, Bool-cases,
  Option-cases, ltb→lt, lt→ltb, leb→le, Str, bytes, str_eq, str_eq_iff, str_eq_refl, is_empty,
  sort_strings, mem_str, str_leb, has_prefix, trim_prefix, cut_byte, IsFree, All, filter, find, any,
  length, take, drop, length-append, length-drop, take-append, drop-append, Result, ok, err,
  ok_injective, err-ne-ok, continue_ok, Exec, pure, raise, lift, continue, ◌>>=◌, ◌>>◌,
}
use storage_gateway.Prelude.Int.{ℤ, pos}
use mathlib.Core.Path.{subst}
use storage_gateway.Strconv.{format_nat, format_5_int}
use storage_gateway.Backend.{
  Error, object_not_found, bucket_not_found, upstream_error, other, Body, ObjectRef,
  HeadObjectOutput, PutObjectInput, DeleteObjectsInput, DeleteError, DeleteObjectsOutput,
  CreateMultipartUploadInput, UploadPartInput, CompletedPart, CompleteMultipartUploadInput,
  AbortMultipartUploadInput, PresignInput,
}
use storage_gateway.Backend.Local.{File, size_of, local_etag}

-- An error of package os: os.IsNotExist holds of the first one only.
pub data OsError : Type 0 where
  not_exist os_failed : OsError

-- What os.Stat tells of a path.
pub data Info : Type 0 where
  directory : Info
  regular : File → Info

-- A file that could not be opened, or one whose reading broke off after a portion.
pub data ReadFailure : Type 0 where
  cannot_open : ReadFailure
  broke_off : Str → ReadFailure

-- `copy` is io.Copy of a body into a file that was created, and gives the bytes that it copied;
-- `append` copies bytes that were read from another file. `read` opens a file and reads all of it.
pub record FileSystem (S : Type 0) : Type 0 where
  pub join : List Str → Str
  pub dir : Str → Str
  pub mkdir_all : Str → Exec S OsError (Unit {0})
  pub create : Str → Exec S OsError (Unit {0})
  pub copy : Str → Body → Exec S OsError Str
  pub append : Str → Str → Exec S OsError (Unit {0})
  pub read : Str → S → Result ReadFailure Str
  pub stat : Str → S → Result OsError Info
  pub remove : Str → Exec S OsError (Unit {0})
  pub remove_all : Str → Exec S OsError (Unit {0})
  pub unix_nano : S → ℕ × S
  pub message : OsError → Str

abbrev pub upstream : {S A : Type 0} → Result OsError A × S → Result Error A × S
upstream = map_err (λ e. upstream_error)

abbrev pub unwrapped : {S : Type 0} → Result OsError (Unit {0}) × S → Result Error (Unit {0}) × S
unwrapped = map_err (λ e. other)

abbrev dash : ℕ → ℕ
dash c = if c == b'/' then b'-' else c

module _ {S : Type 0} (fs : FileSystem S) (root : Str) (md5_hex : Str → Str) where
  unfoldable pub object_path : Str → Str → Str
  object_path bucket key = fs.join (root ∷ (bucket ∷ (key ∷ [])))

  unfoldable pub upload_dir : Str → Str
  upload_dir upload = fs.join (root ∷ (bytes ".sgw_parts" ∷ (upload ∷ [])))

  unfoldable pub part_path : Str → ℤ → Str
  part_path upload n = fs.join (root ∷ (bytes ".sgw_parts" ∷ (upload ∷ (format_5_int n ∷ []))))

  abbrev head_output : File → HeadObjectOutput
  head_output f = record {
    content_length = size_of f;
    content_type = bytes "application/octet-stream";
    etag = local_etag md5_hex f;
    last_modified = some f.mod_time;
    metadata = [];
  }

  -- os.Stat of a directory gives its own size and time, which `of_dir` stands for.
  unfoldable pub head_object : File → ObjectRef → S → Result Error HeadObjectOutput
  head_object of_dir o s = elim (fs.stat (object_path o.bucket o.key) s) [
    | ok i ↦ elim i [ directory ↦ ok (head_output of_dir) | regular f ↦ ok (head_output f) ]
    | err e ↦ elim e [ not_exist ↦ err object_not_found | os_failed ↦ err upstream_error ]
  ]

  -- MkdirAll, Create and io.Copy into the file and the digest.
  unfoldable pub write_file : Str → Body → Exec S Error Str
  write_file path body = do
    (λ s. upstream (fs.mkdir_all (fs.dir path) s))
    (λ s. upstream (fs.create path s))
    copied ← λ s. upstream (fs.copy path body s)
    pure (md5_hex copied)

  unfoldable pub put_object : PutObjectInput → Exec S Error Str
  put_object inp = write_file (object_path inp.bucket inp.key) inp.body

  abbrev absent_is_done : Result OsError (Unit {0}) × S → Result OsError (Unit {0}) × S
  absent_is_done (ok _, s) = (ok tt, s)
  absent_is_done (err not_exist, s) = (ok tt, s)
  absent_is_done (err os_failed, s) = (err os_failed, s)

  unfoldable pub delete_object : ObjectRef → Exec S Error (Unit {0})
  delete_object o s = unwrapped (absent_is_done (fs.remove (object_path o.bucket o.key) s))

  abbrev with_outcome :
      Bool → Str → Result OsError (Unit {0}) → DeleteObjectsOutput → DeleteObjectsOutput
  with_outcome quiet key (err e) out = record out {
    errors =
        record { key = key; code = bytes "InternalError"; message = fs.message e } ∷ out.errors;
  }
  with_outcome quiet key (ok _) out = record out {
    deleted = if quiet then out.deleted else key ∷ out.deleted;
  }

  unfoldable pub delete_loop : Str → Bool → List Str → S → DeleteObjectsOutput × S
  delete_loop bucket quiet [] s = (record { deleted = []; errors = [] }, s)
  delete_loop bucket quiet (key ∷ keys) s =
      let one = absent_is_done (fs.remove (object_path bucket key) s) in
      let rest = delete_loop bucket quiet keys one.1 in
      (with_outcome quiet key one.0 rest.0, rest.1)

  unfoldable pub delete_objects : DeleteObjectsInput → Exec S Error DeleteObjectsOutput
  delete_objects inp s =
      let done = delete_loop inp.bucket inp.quiet inp.objects s in (ok done.0, done.1)

  unfoldable pub head_bucket : Str → S → Result Error (Unit {0})
  head_bucket bucket s = elim (fs.stat (fs.join (root ∷ (bucket ∷ []))) s) [
    | ok i ↦ elim i [ directory ↦ ok tt | regular f ↦ err bucket_not_found ]
    | err e ↦ elim e [ not_exist ↦ err bucket_not_found | os_failed ↦ err other ]
  ]

  unfoldable pub create_multipart_upload : CreateMultipartUploadInput → Exec S Error Str
  create_multipart_upload inp = do
    now ← λ s. (ok (fs.unix_nano s).0, (fs.unix_nano s).1)
    (λ s. upstream (fs.mkdir_all (upload_dir (map dash inp.key ++ (b'-' ∷ format_nat now))) s))
    pure (map dash inp.key ++ (b'-' ∷ format_nat now))

  unfoldable pub upload_part : UploadPartInput → Exec S Error Str
  upload_part inp = write_file (part_path inp.upload_id inp.part_number) inp.body

  abbrev pub paths : Str → List CompletedPart → List Str
  paths upload ps = map (λ (p : CompletedPart). part_path upload p.part_number) ps

  abbrev pub appended : Exec S Error Str → Result OsError (Unit {0}) × S → Result Error Str × S
  appended go (err e, s) = (err upstream_error, s)
  appended go (ok _, s) = go s

  abbrev pub part_read :
      (Str → Exec S Error Str) → Str → Str → Result ReadFailure Str → Exec S Error Str
  part_read go dest seen (err cannot_open) s = (err upstream_error, s)
  part_read go dest seen (err (broke_off portion)) s =
      (err upstream_error, (fs.append dest portion s).1)
  part_read go dest seen (ok content) s = appended (go (seen ++ content)) (fs.append dest content s)

  -- The loop over the parts; `seen` is what the digest has read.
  unfoldable pub copy_parts : Str → Str → List CompletedPart → Str → Exec S Error Str
  copy_parts dest upload [] seen s = (ok seen, s)
  copy_parts dest upload (p ∷ ps) seen s =
      part_read (copy_parts dest upload ps) dest seen (fs.read (part_path upload p.part_number) s) s

  -- What RemoveAll answers is ignored.
  unfoldable pub complete_multipart_upload : CompleteMultipartUploadInput → Exec S Error Str
  complete_multipart_upload inp =
      (λ s. upstream (fs.mkdir_all (fs.dir (object_path inp.bucket inp.key)) s))
      >> (λ s. upstream (fs.create (object_path inp.bucket inp.key) s))
      >> copy_parts (object_path inp.bucket inp.key) inp.upload_id inp.parts []
      >>= λ seen s. (ok (md5_hex seen), (fs.remove_all (upload_dir inp.upload_id) s).1)

  unfoldable pub abort_multipart_upload : AbortMultipartUploadInput → Exec S Error (Unit {0})
  abort_multipart_upload inp s = unwrapped (fs.remove_all (upload_dir inp.upload_id) s)

  unfoldable pub presign_url : PresignInput → Result Error Str
  presign_url inp = err upstream_error

-- newLocalBackend: the root is created if it is missing.
unfoldable pub new_local_backend : {S : Type 0} → FileSystem S → Str → Exec S Error Str
new_local_backend fs root s =
    if is_empty root
    then (err other, s)
    else ((λ s'. unwrapped (fs.mkdir_all root s')) >> pure root) s
