-- ===== src/Backend/S3.antt =====
-- internal/backend/s3.go: the operations of s3Backend over the calls of the SDK's client, which are a
-- parameter with its own state. A nil pointer of a request or a response is none.
use storage_gateway.Prelude.{
  ℕ, Bool, false, ◌||◌, Option, none, some, List, [], map, if◌then◌else◌, Str, bytes, str_eq,
  is_empty, map_err, Exec, pure, raise, ◌>>=◌,
}
use storage_gateway.Prelude.Int.{ℤ, pos, ltb_ℤ}
use storage_gateway.Backend.{
  Backend, Error, object_not_found, bucket_not_found, access_denied, invalid_range, upstream_error,
  other, Time, Metadata, Body, ObjectRef, HeadObjectOutput, GetObjectInput, GetObjectOutput,
  PutObjectInput, DeleteObjectsInput, DeleteError, DeleteObjectsOutput, ListObjectsInput,
  ListObjectsOutput, ObjectInfo, CreateMultipartUploadInput, UploadPartInput, CompletedPart,
  CompleteMultipartUploadInput, AbortMultipartUploadInput, PresignInput,
}
use storage_gateway.Backend.Azure.{strip_quotes}

-- An error of the SDK, as errors.As tells it: the two types, an API error with its code, or another.
pub data SdkError : Type 0 where
  no_such_key no_such_bucket transport : SdkError
  api : Str → SdkError

abbrev api_error : Str → Error
api_error code =
    if str_eq code (bytes "NoSuchKey") || str_eq code (bytes "NotFound")
    then object_not_found
    else if str_eq code (bytes "NoSuchBucket")
    then bucket_not_found
    else if str_eq code (bytes "AccessDenied") || str_eq code (bytes "Forbidden")
    then access_denied
    else if str_eq code (bytes "InvalidRange")
    then invalid_range
    else upstream_error

unfoldable pub map_s3_err : SdkError → Error
map_s3_err no_such_key = object_not_found
map_s3_err no_such_bucket = bucket_not_found
map_s3_err (api code) = api_error code
map_s3_err transport = upstream_error

-- What the client answers about an object.
pub record Described : Type 0 where
  pub content_length : Option ℤ
  pub content_type : Option Str
  pub content_range : Option Str
  pub etag : Option Str
  pub last_modified : Time
  pub metadata : Metadata

pub record PutRequest : Type 0 where
  pub bucket : Str
  pub key : Str
  pub body : Body
  pub metadata : Metadata
  pub content_type : Option Str
  pub content_length : Option ℤ

pub record PartRequest : Type 0 where
  pub bucket : Str
  pub key : Str
  pub upload_id : Str
  pub part_number : ℤ
  pub body : Body
  pub content_length : Option ℤ

pub record ListRequest : Type 0 where
  pub bucket : Str
  pub prefix : Option Str
  pub delimiter : Option Str
  pub max_keys : Option ℤ
  pub start_after : Option Str
  pub continuation_token : Option Str

pub record Listed : Type 0 where
  pub key : Option Str
  pub size : Option ℕ
  pub etag : Option Str
  pub last_modified : Time
  pub storage_class : Str

pub record ListPage : Type 0 where
  pub contents : List Listed
  pub common_prefixes : List (Option Str)
  pub is_truncated : Option Bool
  pub next_continuation_token : Option Str
  pub key_count : Option ℕ

-- The client and its presigner.
pub record Client (S : Type 0) : Type 0 where
  pub head_object : Str → Str → Exec S SdkError Described
  pub get_object : Str → Str → Option Str → Exec S SdkError (Described × Str)
  pub put_object : PutRequest → Exec S SdkError (Option Str)
  pub delete_object : Str → Str → Exec S SdkError (Unit {0})
  pub delete_objects :
      Str
      → List Str
      → Bool
      → Exec S SdkError (List (Option Str) × List (Option Str × Option Str × Option Str))
  pub head_bucket : Str → Exec S SdkError (Unit {0})
  pub list_objects_v2 : ListRequest → Exec S SdkError ListPage
  pub create_multipart_upload : Str → Str → Metadata → Option Str → Exec S SdkError (Option Str)
  pub upload_part : PartRequest → Exec S SdkError (Option Str)
  pub complete_multipart_upload :
      Str → Str → Str → List CompletedPart → Exec S SdkError (Option Str)
  pub abort_multipart_upload : Str → Str → Str → Exec S SdkError (Unit {0})
  pub presign_get_object : Str → Str → ℕ → Exec S SdkError Str
  pub presign_put_object : Str → Str → ℕ → Exec S SdkError Str

-- aws.ToString and its like: the zero value for nil.
abbrev to_value : {A : Type 0} → A → Option A → A
to_value zero_value none = zero_value
to_value zero_value (some a) = a

abbrev to_string : Option Str → Str
to_string s = to_value [] s

-- A field that is set only where the text is not empty.
abbrev given : Str → Option Str
given s = if is_empty s then none else some s

-- The size of a body, where it is known.
abbrev known_size : ℤ → Option ℤ
known_size n = if ltb_ℤ n (pos 0) then none else some n

abbrev head_output : Described → HeadObjectOutput
head_output d = record {
  content_length = to_value (pos 0) d.content_length;
  content_type = to_string d.content_type;
  etag = strip_quotes (to_string d.etag);
  last_modified = d.last_modified;
  metadata = d.metadata;
}

abbrev get_output : Described × Str → GetObjectOutput
get_output (d, body) = record {
  body = body;
  content_length = to_value (pos 0) d.content_length;
  content_range = to_string d.content_range;
  content_type = to_string d.content_type;
  etag = strip_quotes (to_string d.etag);
  last_modified = d.last_modified;
  metadata = d.metadata;
}

unfoldable pub put_request : PutObjectInput → PutRequest
put_request i = record {
  bucket = i.bucket;
  key = i.key;
  body = i.body;
  metadata = i.metadata;
  content_type = given i.content_type;
  content_length = known_size i.size;
}

unfoldable pub list_request : ListObjectsInput → ListRequest
list_request i = record {
  bucket = i.bucket;
  prefix = given i.prefix;
  delimiter = given i.delimiter;
  max_keys = if ltb_ℤ (pos 0) i.max_keys then some i.max_keys else none;
  start_after = given i.start_after;
  continuation_token = given i.continuation_token;
}

abbrev object_info : Listed → ObjectInfo
object_info o = record {
  key = to_string o.key;
  size = to_value 0 o.size;
  etag = strip_quotes (to_string o.etag);
  last_modified = o.last_modified;
  storage_class = o.storage_class;
}

unfoldable pub list_output : ListPage → ListObjectsOutput
list_output p = record {
  contents = map object_info p.contents;
  common_prefixes = map to_string p.common_prefixes;
  is_truncated = to_value false p.is_truncated;
  next_continuation_token = to_string p.next_continuation_token;
  key_count = to_value 0 p.key_count;
}

abbrev delete_error : Option Str × Option Str × Option Str → DeleteError
delete_error (key, code, message) = record {
  key = to_string key;
  code = to_string code;
  message = to_string message;
}

unfoldable pub part_request : UploadPartInput → PartRequest
part_request i = record {
  bucket = i.bucket;
  key = i.key;
  upload_id = i.upload_id;
  part_number = i.part_number;
  body = i.body;
  content_length = known_size i.size;
}

module _ {S : Type 0} where
  -- A call of the client whose error goes through mapS3Err.
  abbrev pub sdk : {A : Type 0} → Exec S SdkError A → Exec S Error A
  sdk m s = map_err map_s3_err (m s)

  module _ (c : Client S) where
    unfoldable pub head_object : ObjectRef → Exec S Error HeadObjectOutput
    head_object i = do d ← sdk (c.head_object i.bucket i.key); pure (head_output d)

    unfoldable pub get_object : GetObjectInput → Exec S Error GetObjectOutput
    get_object i = do d ← sdk (c.get_object i.bucket i.key (given i.range)); pure (get_output d)

    unfoldable pub put_object : PutObjectInput → Exec S Error Str
    put_object i = do
      etag ← sdk (c.put_object (put_request i))
      pure (strip_quotes (to_string etag))

    unfoldable pub delete_object : ObjectRef → Exec S Error (Unit {0})
    delete_object i = sdk (c.delete_object i.bucket i.key)

    unfoldable pub delete_objects : DeleteObjectsInput → Exec S Error DeleteObjectsOutput
    delete_objects i = do
      out ← sdk (c.delete_objects i.bucket i.objects i.quiet)
      pure (record { deleted = map to_string out.0; errors = map delete_error out.1 })

    unfoldable pub head_bucket : Str → Exec S Error (Unit {0})
    head_bucket bucket = sdk (c.head_bucket bucket)

    unfoldable pub list_objects : ListObjectsInput → Exec S Error ListObjectsOutput
    list_objects i = do p ← sdk (c.list_objects_v2 (list_request i)); pure (list_output p)

    unfoldable pub create_multipart_upload : CreateMultipartUploadInput → Exec S Error Str
    create_multipart_upload i = do
      id ← sdk (c.create_multipart_upload i.bucket i.key i.metadata (given i.content_type))
      pure (to_string id)

    unfoldable pub upload_part : UploadPartInput → Exec S Error Str
    upload_part i = do
      etag ← sdk (c.upload_part (part_request i))
      pure (strip_quotes (to_string etag))

    unfoldable pub complete_multipart_upload : CompleteMultipartUploadInput → Exec S Error Str
    complete_multipart_upload i = do
      etag ← sdk (c.complete_multipart_upload i.bucket i.key i.upload_id i.parts)
      pure (strip_quotes (to_string etag))

    unfoldable pub abort_multipart_upload : AbortMultipartUploadInput → Exec S Error (Unit {0})
    abort_multipart_upload i = sdk (c.abort_multipart_upload i.bucket i.key i.upload_id)

    unfoldable pub presign_url : PresignInput → Exec S Error Str
    presign_url i =
        if str_eq i.method (bytes "GET")
        then sdk (c.presign_get_object i.bucket i.key i.expires)
        else if str_eq i.method (bytes "PUT")
        then sdk (c.presign_put_object i.bucket i.key i.expires)
        else raise other

    -- s3Backend as a Backend.
    unfoldable pub s3_backend : Backend S
    s3_backend = record {
      head_object = head_object;
      get_object = get_object;
      put_object = put_object;
      delete_object = delete_object;
      delete_objects = delete_objects;
      head_bucket = head_bucket;
      list_objects = list_objects;
      create_multipart_upload = create_multipart_upload;
      upload_part = upload_part;
      complete_multipart_upload = complete_multipart_upload;
      abort_multipart_upload = abort_multipart_upload;
      presign_url = presign_url;
    }
