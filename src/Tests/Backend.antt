-- ===== src/Tests/Backend.antt =====
-- internal/backend/local_range_test.go and runs of the local backend.
use storage_gateway.Prelude.{
  ◌≡◌, refl, true, false, List, [], ◌∷◌, some, none, Str, bytes, str_leb, arith, ok, take, drop,
  ◌-◌, ◌^◌,
}
use storage_gateway.Prelude.Int.{pos, negsuc, wrap64, ◌+ℤ◌, ◌-ℤ◌}
use storage_gateway.Strconv.{format_nat}
use storage_gateway.Backend.{page_size, ListObjectsInput, ListObjectsOutput, GetObjectOutput}
use storage_gateway.Backend.Range.{parse_http_range, range_header, parse_http_range-open}
use storage_gateway.Backend.Local.{File, get_object, opened}
use storage_gateway.Backend.Local.Window.{request, slice, get_object-closed, get_object-overflow}
use storage_gateway.Backend.Local.Listing.{list_objects, entries, Entry, page}
use storage_gateway.Backend.Local.Listing.Pages.{infos, directory, list_objects-boundary}
use storage_gateway.Backend.Local.Listing.Pages
use storage_gateway.Backend.Local.Listing.Sound.{IsPage, list_objects-IsPage}

range_closed : parse_http_range (bytes "bytes=0-99") ≡ ok (pos 0, pos 100)
unfolding parse_http_range wrap64 ◌+ℤ◌ ◌-ℤ◌
range_closed = refl

range_open : parse_http_range (bytes "bytes=5-") ≡ ok (pos 5, negsuc 0)
unfolding parse_http_range wrap64 ◌+ℤ◌ ◌-ℤ◌
range_open = refl

abbrev digest : Str → Str
digest s = take 4 s

abbrev ten : File
ten = record { content = bytes "0123456789"; mod_time = 7; mod_nano = 7000000000 }

get_object-closed_example :
    get_object digest
      (opened ten)
      true
      (request digest ten (bytes "b") (bytes "k") (omega arith) (range_header 8 (format_nat 20)))
    ≡ ok (slice digest ten (bytes "b") (bytes "k") (omega arith) 8 2)
get_object-closed_example =
    get_object-closed digest ten (bytes "b") (bytes "k") (omega arith) 8 20 (omega arith)
      (omega arith) (omega arith)

get_object-overflow_example :
    (out : GetObjectOutput) × (get_object digest (opened ten) true (
        request digest ten
          (bytes "b")
          (bytes "k")
          (omega arith)
          (range_header 3 (format_nat (2 ^ 63 - 1))))
      ≡ ok out)
    × (out.content_length ≡ pos (2 ^ 63 - 3))
    × (out.body ≡ drop 3 ten.content)
get_object-overflow_example =
    get_object-overflow digest ten (bytes "b") (bytes "k") (omega arith) 3 (omega arith)
      (omega arith)

parse_http_range-open_example : parse_http_range (range_header 3 []) ≡ ok (pos 3, negsuc 0)
parse_http_range-open_example = parse_http_range-open 3 (omega arith)

abbrev everything : ListObjectsInput
everything = record {
  bucket = bytes "b";
  prefix = bytes "a";
  delimiter = b'/' ∷ [];
  max_keys = pos 2;
  start_after = [];
  continuation_token = [];
}

abbrev files : List Entry
files =
    record { name = bytes "a1"; info = some ten }
    ∷ (record { name = bytes "a2"; info = none }
        ∷ (record { name = bytes "b"; info = some ten } ∷ []))

list_objects-IsPage_example :
    (out : ListObjectsOutput) × (list_objects digest (entries files) everything ≡ ok out)
    × IsPage everything (page_size (pos 2)) out
list_objects-IsPage_example = list_objects-IsPage digest everything files

abbrev in_front : List (Str × File)
in_front = (bytes "a", ten) ∷ []

abbrev behind : List (Str × File)
behind = (bytes "c", ten) ∷ []

list_objects-boundary_example :
    (list_objects digest
        (entries (directory digest (bytes "d") 1 in_front (bytes "b") ten behind))
        (Pages.request digest (bytes "d") 1 [])
      ≡ ok (page digest (infos digest in_front) [] true (bytes "b")))
    × (list_objects digest
          (entries (directory digest (bytes "d") 1 in_front (bytes "b") ten behind))
          (Pages.request digest (bytes "d") 1 (bytes "b"))
        ≡ ok (page digest (infos digest behind) [] false []))
unfolding str_leb
list_objects-boundary_example =
    list_objects-boundary digest (bytes "d") 1 in_front (bytes "b") ten behind (omega arith) refl
      (omega arith) refl (refl, tt) (refl, tt)
