-- ===== src/Backend/Azure/Blocks.antt =====
-- internal/backend/azure.go: whose parts CompleteMultipartUpload commits.
use storage_gateway.Prelude.{
  map_err_ok, map_err_state, ◌≡◌, refl, sym, ap, ◌∙◌, Option, none, some, List, map, [], ◌∷◌, ◌++◌,
  Str, ok, continue_ok, pure, continue, ◌>>◌,
}
use mathlib.Core.Path.{subst}
use storage_gateway.Backend.{CompletedPart, UploadPartInput}
use storage_gateway.Backend.Joined.{joined, append_found, joined-append}
use storage_gateway.Backend.Azure.{
  Client, map_azure_err, mapped, azure_block_id, buffered, upload_part, complete_multipart_upload,
  deref_etag,
}

-- The documented behaviour of blocks on one container: a block that is staged under an id of an
-- object replaces the one before, and the object that a list of ids commits is the blocks under them.
pub record IsBlobs {S : Type 0} (c : Client S) (bucket : Str) (block : S → Str → Str → Option Str)
    (content : S → Str → Option Str) : Type 0 where
  pub staged :
      (s t : S) (key id b : Str)
      → c.stage_block bucket key id b s ≡ (ok tt, t)
      → block t key id ≡ some b
  pub committed :
      (s t : S) (key : Str) (ids : List Str) (e : Option Str)
      → c.commit_block_list bucket key ids s ≡ (ok e, t)
      → (b : Str) × (joined (block s key) ids ≡ some b) × (content t key ≡ some b)

some_injective : {a b : Str} → ◌≡◌ {A = Option Str} (some a) (some b) → b ≡ a
some_injective h = cc

none_left : {A : Type 0} {b : Str} → ◌≡◌ {A = Option Str} none (some b) → A
none_left h = cc

found_parts :
    (m n : Option Str) (b z : Str)
    → append_found m (append_found (some b) n) ≡ some z
    → (x y : Str) × (m ≡ some x) × (n ≡ some y) × (z ≡ x ++ (b ++ y))
found_parts none n b z h = none_left h
found_parts (some x) none b z h = none_left h
found_parts (some x) (some y) b z h = (x, y, refl, refl, some_injective h)

module _ {S : Type 0} (c : Client S) (block : S → Str → Str → Option Str)
    (content : S → Str → Option Str) where
  -- A part that was uploaded is the block of its number.
  upload_part-staged :
      (inp : UploadPartInput) (law : IsBlobs c inp.bucket block content) (s u t : S) (b e : Str)
      → c.buffer inp.body s ≡ (some b, u)
      → upload_part c inp s ≡ (ok e, t)
      → block t inp.key (azure_block_id c inp.part_number) ≡ some b
  unfolding upload_part
  upload_part-staged inp law s u t b e f h =
      let id = azure_block_id c inp.part_number in
      let run = mapped (c.stage_block inp.bucket inp.key id b u) in
      let raw = c.stage_block inp.bucket inp.key id b u in
      let step =
        continue_ok run.0 (λ x. pure id) run.1 t e
          (subst
            (λ p.
              (continue (buffered c p).0
                (λ d. (λ z. mapped (c.stage_block inp.bucket inp.key id d z)) >> pure id)
                (buffered c p).1)
              ≡ (ok e, t))
            f h) in
      let after : raw.1 ≡ t =
        sym (map_err_state map_azure_err raw.0 raw.1) ∙ ap (λ p. p.1) step.2 in
      law.staged u t inp.key id b (
        ap (λ r. (r, raw.1)) (map_err_ok map_azure_err raw.0 raw.1 step.0 step.1)
        ∙ ap (λ z. (ok tt, z)) after)

  abbrev pub ids_of : List CompletedPart → List Str
  ids_of = map (λ (p : CompletedPart). azure_block_id c p.part_number)

  ids_of-append : (ps qs : List CompletedPart) → ids_of (ps ++ qs) ≡ ids_of ps ++ ids_of qs
  ids_of-append [] qs = refl
  ids_of-append (p ∷ ps) qs = ap (λ t. azure_block_id c p.part_number ∷ t) (ids_of-append ps qs)

  -- A part is kept under its number, not under its upload: whatever upload the part was sent to, a
  -- later completion of any upload of the same object whose list names this number commits the part's
  -- bytes at that place of the list, as long as the block under the number is still the part's.
  pub complete_multipart_upload-shared :
      (inp : UploadPartInput) (law : IsBlobs c inp.bucket block content) (s u t w v : S)
      (b e upload tag etag : Str) (before after : List CompletedPart)
      → c.buffer inp.body s ≡ (some b, u)
      → upload_part c inp s ≡ (ok e, t)
      → block w inp.key (azure_block_id c inp.part_number)
        ≡ block t inp.key (azure_block_id c inp.part_number)
      → complete_multipart_upload c
          (record {
            bucket = inp.bucket;
            key = inp.key;
            upload_id = upload;
            parts = before ++ record { part_number = inp.part_number; etag = tag } ∷ after;
          })
          w
        ≡ (ok etag, v)
      → (x y : Str) × (joined (block w inp.key) (ids_of before) ≡ some x)
        × (joined (block w inp.key) (ids_of after) ≡ some y)
        × (content v inp.key ≡ some (x ++ (b ++ y)))
  unfolding complete_multipart_upload
  complete_multipart_upload-shared inp law s u t w v b e upload tag etag before after f h same k =
      let id = azure_block_id c inp.part_number in
      let part : CompletedPart = record { part_number = inp.part_number; etag = tag } in
      let ids = ids_of (before ++ part ∷ after) in
      let raw = c.commit_block_list inp.bucket inp.key ids w in
      let step = continue_ok (mapped raw).0 (λ x. pure (deref_etag x)) (mapped raw).1 v etag k in
      let end : raw.1 ≡ v = sym (map_err_state map_azure_err raw.0 raw.1) ∙ ap (λ p. p.1) step.2 in
      let done = law.committed w v inp.key ids step.0 (
        ap (λ r. (r, raw.1)) (map_err_ok map_azure_err raw.0 raw.1 step.0 step.1)
        ∙ ap (λ z. (ok step.0, z)) end) in
      let mine : block w inp.key id ≡ some b = same ∙ upload_part-staged inp law s u t b e f h in
      let joins : append_found (joined (block w inp.key) (ids_of before))
            (append_found (some b) (joined (block w inp.key) (ids_of after)))
          ≡ some done.0 =
        ap
          (λ o.
            append_found (joined (block w inp.key) (ids_of before))
              (append_found o (joined (block w inp.key) (ids_of after))))
          (sym mine)
        ∙ sym (joined-append (block w inp.key) (ids_of before) (id ∷ ids_of after))
        ∙ ap (joined (block w inp.key)) (sym (ids_of-append before (part ∷ after)))
        ∙ done.1 in
      let parts =
        found_parts (joined (block w inp.key) (ids_of before))
          (joined (block w inp.key) (ids_of after)) b done.0 joins in
      (parts.0, parts.1, parts.2, parts.3, done.2 ∙ ap some parts.4)
