-- ===== src/Backend/Local/Files/Complete.antt =====
-- internal/backend/local.go: what CompleteMultipartUpload leaves in the file of the object.
use storage_gateway.Prelude.{
  map_err_ok, map_err_state, ◌≡◌, refl, sym, ap, ◌∙◌, ◌≢◌, false, Option, none, some, List, [], ◌∷◌,
  ◌++◌, append_assoc, append-nil, Str, has_prefix, All, Result, ok, err, ok_injective, err-ne-ok,
  continue_ok, Exec, ◌>>◌,
}
use storage_gateway.Backend.{Error, upstream_error, CompletedPart, CompleteMultipartUploadInput}
use storage_gateway.Backend.Joined.{joined, joined_same}
use storage_gateway.Backend.Local.Files.{
  OsError, ReadFailure, cannot_open, broke_off, FileSystem, upstream, object_path, upload_dir,
  part_path, paths, appended, part_read, copy_parts, complete_multipart_upload,
}

-- The documented behaviour of the calls on files: Create empties its file or makes an empty one, a
-- copy is added at the end, and neither these nor MkdirAll change another file; a file is read as it
-- is, and only if it is there; RemoveAll changes no file whose path does not begin with its own.
pub record IsFiles {S : Type 0} (fs : FileSystem S) (content : S → Str → Option Str) : Type 0 where
  pub created : (s t : S) (p : Str) → fs.create p s ≡ (ok tt, t) → content t p ≡ some []
  pub create_other : (s : S) (p k : Str) → k ≢ p → content (fs.create p s).1 k ≡ content s k
  pub grown :
      (s t : S) (p b old : Str)
      → fs.append p b s ≡ (ok tt, t)
      → content s p ≡ some old
      → content t p ≡ some (old ++ b)
  pub append_other : (s : S) (p b k : Str) → k ≢ p → content (fs.append p b s).1 k ≡ content s k
  pub mkdir_same : (s : S) (d k : Str) → content (fs.mkdir_all d s).1 k ≡ content s k
  pub read_content : (s : S) (p b : Str) → fs.read p s ≡ ok b → content s p ≡ some b
  pub read_missing : (s : S) (p : Str) → content s p ≡ none → fs.read p s ≡ err cannot_open
  pub remove_all_other :
      (s : S) (d k : Str) → has_prefix k d ≡ false → content (fs.remove_all d s).1 k ≡ content s k

module _ {S : Type 0} (fs : FileSystem S) (root : Str) (md5_hex : Str → Str)
    (content : S → Str → Option Str) (law : IsFiles fs content) where
  appended_ok :
      (go : Exec S Error Str) (res : Result OsError (Unit {0})) (s t : S) (out : Str)
      → appended fs root md5_hex go (res, s) ≡ (ok out, t)
      → (res ≡ ok tt) × (go s ≡ (ok out, t))
  appended_ok go (ok u) s t out h = (refl, h)
  appended_ok go (err e) s t out h = absurd (err-ne-ok h)

  part_read_ok :
      (go : Str → Exec S Error Str) (dest seen out : Str) (res : Result ReadFailure Str) (s t : S)
      → part_read fs root md5_hex go dest seen res s ≡ (ok out, t)
      → (b : Str) × (res ≡ ok b)
        × ((fs.append dest b s).0 ≡ ok tt)
        × (go (seen ++ b) (fs.append dest b s).1 ≡ (ok out, t))
  part_read_ok go dest seen out (err cannot_open) s t h = absurd (err-ne-ok h)
  part_read_ok go dest seen out (err (broke_off p)) s t h = absurd (err-ne-ok h)
  part_read_ok go dest seen out (ok b) s t h =
      let r = appended_ok (go (seen ++ b)) (fs.append dest b s).0 (fs.append dest b s).1 t out h in
      (b, refl, r.0, r.1)

  others_same :
      (f g : Str → Option Str) (dest : Str) (ks : List Str)
      → ((k : Str) → k ≢ dest → g k ≡ f k)
      → All (λ k. k ≢ dest) ks
      → All (λ k. g k ≡ f k) ks
  others_same f g dest [] e a = tt
  others_same f g dest (k ∷ ks) e (n, a) = (e k n, others_same f g dest ks e a)

  -- The loop adds the parts to the file one after the other, and shows the digest the same bytes.
  pub copy_parts_ok :
      (dest upload : Str) (ps : List CompletedPart) (seen out : Str) (s t : S)
      → All (λ k. k ≢ dest) (paths fs root md5_hex upload ps)
      → content s dest ≡ some seen
      → copy_parts fs root md5_hex dest upload ps seen s ≡ (ok out, t)
      → (b : Str) × (joined (content s) (paths fs root md5_hex upload ps) ≡ some b)
        × (out ≡ seen ++ b)
        × (content t dest ≡ some out)
  unfolding copy_parts
  copy_parts_ok dest upload [] seen out s t a f h =
      let e : seen ≡ out = ok_injective (ap (λ p. p.0) h) in
      ([], refl, sym e ∙ sym (append-nil seen), ap (λ p. content p.1 dest) (sym h) ∙ f ∙ ap some e)
  copy_parts_ok dest upload (p ∷ ps) seen out s t (n, a) f h =
      let path = part_path fs root md5_hex upload p.part_number in
      let r =
        part_read_ok (copy_parts fs root md5_hex dest upload ps) dest seen out (fs.read path s) s t
          h in
      let u = (fs.append dest r.0 s).1 in
      let rest =
        copy_parts_ok dest upload ps (seen ++ r.0) out u t a
          (law.grown s u dest r.0 seen (ap (λ x. (x, u)) r.2) f) r.3 in
      let same : joined (content u) (paths fs root md5_hex upload ps)
          ≡ joined (content s) (paths fs root md5_hex upload ps) =
        joined_same (content s) (content u) (paths fs root md5_hex upload ps) (
          others_same (content s) (content u) dest (paths fs root md5_hex upload ps)
            (law.append_other s dest r.0) a) in
      (
        r.0 ++ rest.0,
        rw (law.read_content s path r.0 r.1, sym same, rest.1) refl,
        rest.2 ∙ append_assoc seen r.0 rest.0,
        rest.3,
      )

  module _ (inp : CompleteMultipartUploadInput) where
    abbrev dest : Str
    dest = object_path fs root md5_hex inp.bucket inp.key

    abbrev made_dir : S → Result Error (Unit {0}) × S
    made_dir s = upstream (fs.mkdir_all (fs.dir dest) s)

    -- MkdirAll and Create change the object's own file only.
    opened_other :
        (s : S) (k : Str) → k ≢ dest → content (fs.create dest (made_dir s).1).1 k ≡ content s k
    opened_other s k n =
        let d = fs.mkdir_all (fs.dir dest) s in
        law.create_other (made_dir s).1 dest k n
        ∙ ap (λ x. content x k) (map_err_state (λ e. upstream_error) d.0 d.1)
        ∙ law.mkdir_same s (fs.dir dest) k

    -- CompleteMultipartUpload, where the object's file is none of the parts and not in their directory:
    -- if it returns no error, the file is the parts that the request names in their order, and the ETag
    -- is the digest of just that.
    pub complete_multipart_upload-joined :
        (s t : S) (etag : Str)
        → All (λ k. k ≢ dest) (paths fs root md5_hex inp.upload_id inp.parts)
        → has_prefix dest (upload_dir fs root md5_hex inp.upload_id) ≡ false
        → complete_multipart_upload fs root md5_hex inp s ≡ (ok etag, t)
        → (b : Str) × (joined (content s) (paths fs root md5_hex inp.upload_id inp.parts) ≡ some b)
          × (content t dest ≡ some b)
          × (etag ≡ md5_hex b)
    unfolding complete_multipart_upload
    complete_multipart_upload-joined s t etag a outside h =
        let make = λ (x : S). made_dir x in
        let truncate = λ (x : S). upstream (fs.create dest x) in
        let copy = copy_parts fs root md5_hex dest inp.upload_id inp.parts [] in
        let gone =
          λ (seen : Str) (x : S). (fs.remove_all (upload_dir fs root md5_hex inp.upload_id) x).1 in
        let y = (make >> truncate) s in
        let x = (make >> truncate >> copy) s in
        let c1 = continue_ok x.0 (λ seen z. (ok (md5_hex seen), gone seen z)) x.1 t etag h in
        let c2 = continue_ok y.0 (λ u. copy) y.1 x.1 c1.0 (ap (λ o. (o, x.1)) c1.1) in
        let c3 =
          continue_ok (make s).0 (λ u. truncate) (make s).1 y.1 c2.0 (ap (λ o. (o, y.1)) c2.1) in
        let cr = fs.create dest (make s).1 in
        let raw = map_err_ok (λ e. upstream_error) cr.0 cr.1 c2.0 (ap (λ q. q.0) c3.2) in
        let after : cr.1 ≡ y.1 =
          sym (map_err_state (λ e. upstream_error) cr.0 cr.1) ∙ ap (λ q. q.1) c3.2 in
        let empty =
          law.created (make s).1 y.1 dest (ap (λ o. (o, cr.1)) raw ∙ ap (λ z. (ok tt, z)) after) in
        let done = copy_parts_ok dest inp.upload_id inp.parts [] c1.0 y.1 x.1 a empty c2.2 in
        let kept =
          λ (k : Str) (n : k ≢ dest). ap (λ z. content z k) (sym after) ∙ opened_other s k n in
        (
          done.0,
          sym (
                joined_same (content s) (content y.1)
                  (paths fs root md5_hex inp.upload_id inp.parts)
                  (others_same (content s) (content y.1) dest
                    (paths fs root md5_hex inp.upload_id inp.parts) kept a))
              ∙ done.1,
          ap (λ q. content q.1 dest) (sym c1.2)
              ∙ law.remove_all_other x.1 (upload_dir fs root md5_hex inp.upload_id) dest outside
              ∙ done.3
              ∙ ap some done.2,
          sym (ok_injective (ap (λ q. q.0) c1.2)) ∙ ap md5_hex done.2,
        )

    -- If the first part is not there, and the object's directory and file can be made, the completion
    -- fails, and it has emptied the object's file by then, whatever the file held before.
    pub complete_multipart_upload-emptied :
        (s u v : S) (p : CompletedPart) (ps : List CompletedPart)
        → inp.parts ≡ p ∷ ps
        → fs.mkdir_all (fs.dir dest) s ≡ (ok tt, u)
        → fs.create dest u ≡ (ok tt, v)
        → part_path fs root md5_hex inp.upload_id p.part_number ≢ dest
        → content s (part_path fs root md5_hex inp.upload_id p.part_number) ≡ none
        → ((complete_multipart_upload fs root md5_hex inp s).0 ≡ err upstream_error)
          × (content (complete_multipart_upload fs root md5_hex inp s).1 dest ≡ some [])
    unfolding complete_multipart_upload copy_parts
    complete_multipart_upload-emptied s u v p ps l m o n gone =
        let path = part_path fs root md5_hex inp.upload_id p.part_number in
        let before : content v path ≡ none =
          ap (λ q. content q.1 path) (sym o)
          ∙ law.create_other u dest path n
          ∙ ap (λ q. content q.1 path) (sym m)
          ∙ law.mkdir_same s (fs.dir dest) path
          ∙ gone in
        let missing = law.read_missing v path before in
        rw (l, m, o, missing) (refl, law.created u v dest o)
