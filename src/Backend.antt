-- ===== src/Backend.antt =====
-- internal/backend/backend.go and errors.go: the interface of an upstream store, its inputs and
-- outputs and its errors. A time is in seconds, and `none` is Go's zero time; a nil map of metadata
-- is the empty list; a body is what the reader behind it will give.
pub mod Range
pub mod Joined
pub mod Local
pub mod Pool
pub mod Gcs
pub mod Azure
pub mod S3
pub mod Config
use storage_gateway.Prelude.{
  ℕ, ◌≡◌, Bool, true, false, ◌||◌, Option, List, Str, Exec, leb, if◌then◌else◌,
}
use storage_gateway.Prelude.Int.{ℤ, pos, negsuc}

-- The sentinel errors; an error that wraps one of them by %w is that one to errors.Is. `other` is an
-- error that wraps none.
pub data Error : Type 0 where
  object_not_found bucket_not_found access_denied unknown_size invalid_range : Error
  upstream_error other : Error

unfoldable pub is_not_found : Error → Bool
is_not_found object_not_found = true
is_not_found bucket_not_found = true
is_not_found _ = false

abbrev pub Time : Type 0
Time = Option ℕ

abbrev pub Metadata : Type 0
Metadata = List (Str × Str)

-- An io.Reader over a request body: the bytes themselves, or the bytes under an awsChunkedReader.
pub data Body : Type 0 where
  plain chunked : Str → Body

pub record ObjectRef : Type 0 where
  pub bucket : Str
  pub key : Str

pub record HeadObjectOutput : Type 0 where
  pub content_length : ℤ
  pub content_type : Str
  pub etag : Str
  pub last_modified : Time
  pub metadata : Metadata

pub record GetObjectInput : Type 0 where
  pub bucket : Str
  pub key : Str
  pub range : Str

pub record GetObjectOutput : Type 0 where
  pub body : Str
  pub content_length : ℤ
  pub content_range : Str
  pub content_type : Str
  pub etag : Str
  pub last_modified : Time
  pub metadata : Metadata

pub record PutObjectInput : Type 0 where
  pub bucket : Str
  pub key : Str
  pub body : Body
  pub size : ℤ
  pub content_type : Str
  pub metadata : Metadata

pub record DeleteObjectsInput : Type 0 where
  pub bucket : Str
  pub objects : List Str
  pub quiet : Bool

pub record DeleteError : Type 0 where
  pub key : Str
  pub code : Str
  pub message : Str

pub record DeleteObjectsOutput : Type 0 where
  pub deleted : List Str
  pub errors : List DeleteError

pub record ListObjectsInput : Type 0 where
  pub bucket : Str
  pub prefix : Str
  pub delimiter : Str
  pub max_keys : ℤ
  pub start_after : Str
  pub continuation_token : Str

pub record ObjectInfo : Type 0 where
  pub key : Str
  pub size : ℕ
  pub etag : Str
  pub last_modified : Time
  pub storage_class : Str

pub record ListObjectsOutput : Type 0 where
  pub contents : List ObjectInfo
  pub common_prefixes : List Str
  pub is_truncated : Bool
  pub next_continuation_token : Str
  pub key_count : ℕ

pub record CreateMultipartUploadInput : Type 0 where
  pub bucket : Str
  pub key : Str
  pub content_type : Str
  pub metadata : Metadata

pub record UploadPartInput : Type 0 where
  pub bucket : Str
  pub key : Str
  pub upload_id : Str
  pub part_number : ℤ
  pub body : Body
  pub size : ℤ

pub record CompletedPart : Type 0 where
  pub part_number : ℤ
  pub etag : Str

pub record CompleteMultipartUploadInput : Type 0 where
  pub bucket : Str
  pub key : Str
  pub upload_id : Str
  pub parts : List CompletedPart

pub record AbortMultipartUploadInput : Type 0 where
  pub bucket : Str
  pub key : Str
  pub upload_id : Str

pub record PresignInput : Type 0 where
  pub bucket : Str
  pub key : Str
  pub method : Str
  pub expires : ℕ

-- The interface Backend over the state `S` of the upstream. A method that returns only an error
-- returns the unit.
pub record Backend (S : Type 0) : Type 0 where
  pub head_object : ObjectRef → Exec S Error HeadObjectOutput
  pub get_object : GetObjectInput → Exec S Error GetObjectOutput
  pub put_object : PutObjectInput → Exec S Error Str
  pub delete_object : ObjectRef → Exec S Error (Unit {0})
  pub delete_objects : DeleteObjectsInput → Exec S Error DeleteObjectsOutput
  pub head_bucket : Str → Exec S Error (Unit {0})
  pub list_objects : ListObjectsInput → Exec S Error ListObjectsOutput
  pub create_multipart_upload : CreateMultipartUploadInput → Exec S Error Str
  pub upload_part : UploadPartInput → Exec S Error Str
  pub complete_multipart_upload : CompleteMultipartUploadInput → Exec S Error Str
  pub abort_multipart_upload : AbortMultipartUploadInput → Exec S Error (Unit {0})
  pub presign_url : PresignInput → Exec S Error Str

-- The number of entries of a page: 1000 unless the request has a positive one.
abbrev pub page_size : ℤ → ℕ
page_size (pos n) = if leb n 0 then 1000 else n
page_size (negsuc n) = 1000
