-- ===== src/Tests/Azure.antt =====
-- Blocks and blobs in memory, and a part that another upload commits.
use storage_gateway.Prelude.{
  ◌≡◌, refl, sym, ap, ◌∙◌, Option, none, some, [], ◌∷◌, ◌++◌, Str, bytes, str_eq, str_eq_refl,
  Result, ok, err, err-ne-ok,
}
use storage_gateway.Prelude.Int.{pos}
use storage_gateway.Backend.{
  CompletedPart, Body, plain, chunked, UploadPartInput, CompleteMultipartUploadInput,
}
use storage_gateway.Backend.Joined.{joined}
use storage_gateway.Backend.Azure.{
  Client, AzureError, transport, azure_block_id, upload_part, complete_multipart_upload,
}
use storage_gateway.Backend.Azure.Blocks.{IsBlobs, ids_of, complete_multipart_upload-shared}
use storage_gateway.Tests.Gcs.{Objects, look}

record Blobs : Type 0 where
  blocks : Objects
  objects : Objects

abbrev block : Blobs → Str → Str → Option Str
block m key id = look (key ++ (b'/' ∷ id)) m.blocks

abbrev content : Blobs → Str → Option Str
content m key = look key m.objects

abbrev written : Str → Blobs → Option Str → Result AzureError (Option Str) × Blobs
written d m none = (err transport, m)
written d m (some b) = (ok none, record m { objects = (d, b) ∷ m.objects })

abbrev text : Body → Option Str
text (plain b) = some b
text (chunked b) = none

abbrev in_memory : Client Blobs
in_memory = record {
  get_properties = λ bucket k m. (err transport, m);
  download = λ bucket k w m. (err transport, m);
  upload_stream = λ bucket k t d b m. (err transport, m);
  delete_blob = λ bucket k m. (err transport, m);
  container_properties = λ bucket m. (ok tt, m);
  list_flat = λ bucket p n t m. (err transport, m);
  list_hierarchy = λ bucket d p n t m. (err transport, m);
  buffer = λ b m. (text b, m);
  stage_block = λ bucket k id b m. (ok tt, record m { blocks = (k ++ (b'/' ∷ id), b) ∷ m.blocks });
  commit_block_list = λ bucket k ids m. written k m (joined (block m k) ids);
  unix_nano = λ m. (1, m);
  base64 = λ s. s;
  service_url = [];
  sign = λ i get m. (none, m);
  message = λ e. [];
}

staged_block :
    (s t : Blobs) (key id b : Str)
    → ◌≡◌ {A = Result AzureError (Unit {0}) × Blobs}
        (ok tt, record s { blocks = (key ++ (b'/' ∷ id), b) ∷ s.blocks })
        (ok tt, t)
    → block t key id ≡ some b
staged_block s t key id b h =
    ap (λ r. block r.1 key id) (sym h) ∙ rw (str_eq_refl (key ++ (b'/' ∷ id))) refl

written_ok :
    (d : Str) (m t : Blobs) (o : Option Str) (e : Option Str)
    → written d m o ≡ (ok e, t)
    → (b : Str) × (o ≡ some b) × (content t d ≡ some b)
written_ok d m t none e h = absurd (err-ne-ok h)
written_ok d m t (some b) e h = (b, refl, ap (λ r. content r.1 d) (sym h) ∙ rw (str_eq_refl d) refl)

in_memory-IsBlobs : (bucket : Str) → IsBlobs in_memory bucket block content
in_memory-IsBlobs bucket = record {
  staged = staged_block;
  committed = λ s t key ids e h. written_ok key s t (joined (block s key) ids) e h;
}

abbrev second_upload : UploadPartInput
second_upload = record {
  bucket = bytes "b";
  key = bytes "photo";
  upload_id = bytes "sgw-photo-2";
  part_number = pos 1;
  body = plain (bytes "two");
  size = pos 3;
}

-- The first upload has staged its own part before.
abbrev first_staged : Blobs
first_staged = record { blocks = (bytes "photo/00001", bytes "one") ∷ []; objects = [] }

abbrev both_staged : Blobs
both_staged = (upload_part in_memory second_upload first_staged).1

abbrev first_upload : CompleteMultipartUploadInput
first_upload = record {
  bucket = bytes "b";
  key = bytes "photo";
  upload_id = bytes "sgw-photo-1";
  parts =
      record { part_number = pos 1; etag = bytes "e" }
      ∷ (record { part_number = pos 1; etag = bytes "e" } ∷ []);
}

abbrev part : CompletedPart
part = record { part_number = pos 1; etag = bytes "e" }

complete_multipart_upload-shared_example :
    (x y : Str) × (joined (block both_staged (bytes "photo")) (ids_of in_memory block content [])
      ≡ some x)
    × (joined (block both_staged (bytes "photo")) (ids_of in_memory block content (part ∷ []))
        ≡ some y)
    × (content (complete_multipart_upload in_memory first_upload both_staged).1 (bytes "photo")
        ≡ some (x ++ (bytes "two" ++ y)))
unfolding upload_part azure_block_id storage_gateway.Strconv.format_5_int
    storage_gateway.Strconv.format_5 complete_multipart_upload str_eq
complete_multipart_upload-shared_example =
    complete_multipart_upload-shared in_memory block content second_upload
      (in_memory-IsBlobs (bytes "b")) first_staged first_staged both_staged both_staged
      (complete_multipart_upload in_memory first_upload both_staged).1 (bytes "two") (bytes "00001")
      (bytes "sgw-photo-1") (bytes "e") [] [] (part ∷ []) refl refl refl refl
