-- ===== src/Backend/Local/Listing.antt =====
-- internal/backend/local.go, ListObjects: one page over the entries of the bucket's directory.
pub mod Pages
pub mod Sound
use storage_gateway.Prelude.{
  ℕ, suc, ◌≡◌, Bool, true, false, ◌&&◌, ◌||◌, not, Option, none, some, List, [], ◌∷◌, ◌++◌, Str,
  has_prefix, trim_prefix, is_empty, str_leb, sort_strings, through, mem_str, length, leb,
  if◌then◌else◌, Result, ok, err,
}
use storage_gateway.Strconv.{format_nat}
use storage_gateway.Backend.{Error, bucket_not_found, upstream_error}
use storage_gateway.Backend.{page_size, ListObjectsInput, ListObjectsOutput, ObjectInfo}
use storage_gateway.Backend.Local.{File, local_etag}

-- An os.DirEntry: its name and what e.Info() answers. os.ReadDir sorts the entries by name.
pub record Entry : Type 0 where
  pub name : Str
  pub info : Option File

-- What os.ReadDir answers.
pub data Dir : Type 0 where
  no_dir read_failed : Dir
  entries : List Entry → Dir

-- The three tests with `continue` at the head of the loop.
unfoldable pub skips : ListObjectsInput → Str → Bool
skips inp key =
    not (has_prefix key inp.prefix)
    || (not (is_empty inp.start_after) && str_leb key inp.start_after)
    || (not (is_empty inp.continuation_token) && str_leb key inp.continuation_token)

-- The common prefix that a key rolls up into.
unfoldable pub roll_up : ListObjectsInput → Str → Option Str
unfolding trim_prefix through
roll_up inp key =
    if is_empty inp.delimiter
    then none
    else elim (through inp.delimiter (trim_prefix key inp.prefix)) [
      | none ↦ none
      | some t ↦ some (inp.prefix ++ t)
    ]

unfoldable pub add_prefix : Str → List Str → List Str
unfolding mem_str
add_prefix p seen = if mem_str p seen then seen else seen ++ p ∷ []

module _ (md5_hex : Str → Str) where
  unfoldable pub object_info : Str → File → ObjectInfo
  unfolding local_etag
  object_info key f = record {
    key = key;
    size = length f.content;
    etag = local_etag md5_hex f;
    last_modified = some f.mod_time;
    storage_class = [];
  }

  unfoldable pub add_info : Str → Option File → List ObjectInfo → List ObjectInfo
  unfolding object_info
  add_info key none contents = contents
  add_info key (some f) contents = contents ++ object_info key f ∷ []

  unfoldable pub page : List ObjectInfo → List Str → Bool → Str → ListObjectsOutput
  unfolding sort_strings
  page contents prefixes truncated token = record {
    contents = contents;
    common_prefixes = sort_strings prefixes;
    is_truncated = truncated;
    next_continuation_token = token;
    key_count = length contents;
  }

  module _ (inp : ListObjectsInput) (max_keys : ℕ) where
    -- The loop over the entries, with the contents and the prefixes found so far.
    unfoldable pub list_loop : List Entry → List ObjectInfo → List Str → ListObjectsOutput
    list_loop [] contents prefixes = page contents prefixes false []
    list_loop (e ∷ es) contents prefixes = elim (skips inp e.name) [
      | true ↦ list_loop es contents prefixes
      | false ↦ elim (roll_up inp e.name) [
        | some p ↦ list_loop es contents (add_prefix p prefixes)
        | none ↦ elim (leb max_keys (length contents)) [
          | true ↦ page contents prefixes true e.name
          | false ↦ list_loop es (add_info e.name e.info contents) prefixes
        ]
      ]
    ]

  unfoldable pub list_objects : Dir → ListObjectsInput → Result Error ListObjectsOutput
  list_objects no_dir inp = err bucket_not_found
  list_objects read_failed inp = err upstream_error
  list_objects (entries es) inp = ok (list_loop inp (page_size inp.max_keys) es [] [])
