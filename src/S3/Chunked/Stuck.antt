-- ===== src/S3/Chunked/Stuck.antt =====
-- internal/api/s3/objects.go, awsChunkedReader: bodies on which the reader does not behave.
use storage_gateway.Prelude.{
  ℕ, zero, suc, ◌-◌, ◌≤◌, ◌≡◌, ◌∙◌, ap, refl, false, none, some, [], ◌∷◌, ◌++◌, Str, IsFree, length,
  length-drop, take, drop, leb, ◌==◌, if◌then◌else◌, arith,
}
use storage_gateway.Prelude.Int.{pos}
use storage_gateway.S3.Chunked.{
  Reader, new_reader, data_read, chunk_size, sized, granted, read_data, after_header, read,
}
use storage_gateway.S3.Chunked.Frames.{drain, proceed}
use storage_gateway.S3.Chunked.Decode.{header_line}

-- A reader with more bytes to come in the chunk than there are.
abbrev short : Str → ℕ → Reader
short left n = record { rest = left; remaining = pos (suc n); done = false }

got_bounds :
    (room cap n left : ℕ)
    → left ≤ n
    → granted room (if leb cap (suc n) then cap else suc n) left ≤ left
got_bounds room cap n left h = ground arith

abbrev got_of : ℕ → ℕ → Str → ℕ → ℕ
got_of room cap left n = granted room (if leb cap (suc n) then cap else suc n) (length left)

minus_suc : (n got : ℕ) → got ≤ n → suc n - got ≡ suc (n - got)
minus_suc n got h = omega arith

not_done : (n : ℕ) → (suc n == 0) ≡ false
not_done n = ground arith

-- Such a reader stays one: a call of Read returns what there is, with no error.
read-short :
    (room cap : ℕ) (left : Str) (n : ℕ)
    → length left ≤ n
    → read room cap (short left n) ≡ (
      data_read (take (got_of room cap left n) left),
      short (drop (got_of room cap left n) left) (n - got_of room cap left n),
    )
read-short room cap left n h =
    let fits : got_of room cap left n ≤ n = omega (arith, got_bounds room cap n (length left) h) in
    unfold read read_data in
    rw (minus_suc n (got_of room cap left n) fits, not_done (n - got_of room cap left n)) refl

still_short :
    (room cap : ℕ) (left : Str) (n : ℕ)
    → length left ≤ n
    → length (drop (got_of room cap left n) left) ≤ n - got_of room cap left n
still_short room cap left n h = omega (arith, length-drop (got_of room cap left n) left)

drain-short :
    (f : ℕ) (room : ℕ → ℕ) (cap : ℕ) (left : Str) (n : ℕ) (acc : Str)
    → length left ≤ n
    → drain f room cap (short left n) acc ≡ none
unfolding drain
drain-short zero room cap left n acc h = refl
drain-short (suc f) room cap left n acc h =
    ap (proceed (drain f room cap) acc) (read-short (room f) cap left n h)
    ∙ drain-short f room cap (drop (got_of (room f) cap left n) left)
        (n - got_of (room f) cap left n) (acc ++ take (got_of (room f) cap left n) left)
        (still_short (room f) cap left n h)

first_read :
    (r cap : ℕ) (line left : Str) (n : ℕ)
    → IsFree 10 (line ++ 13 ∷ [])
    → chunk_size (line ++ 13 ∷ []) ≡ some (pos (suc n))
    → read r cap (new_reader (line ++ (13 ∷ 10 ∷ left))) ≡ read r cap (short left n)
first_read r cap line left n plain e =
    unfold read new_reader in
    ap (after_header r cap) (header_line line left plain ∙ ap (sized left) e)

-- A body that breaks off inside its first chunk: the header announces more bytes than follow. A
-- caller that reads until the end never gets one, nor an error, whatever the number of calls.
pub drain-truncated :
    (f : ℕ) (room : ℕ → ℕ) (cap : ℕ) (line left : Str) (n : ℕ)
    → IsFree 10 (line ++ 13 ∷ [])
    → chunk_size (line ++ 13 ∷ []) ≡ some (pos (suc n))
    → length left ≤ n
    → drain f room cap (new_reader (line ++ (13 ∷ 10 ∷ left))) [] ≡ none
unfolding drain
drain-truncated zero room cap line left n plain e h = refl
drain-truncated (suc f) room cap line left n plain e h =
    ap (proceed (drain f room cap) [])
      (first_read (room f) cap line left n plain e ∙ read-short (room f) cap left n h)
    ∙ drain-short f room cap (drop (got_of (room f) cap left n) left)
        (n - got_of (room f) cap left n) (take (got_of (room f) cap left n) left)
        (still_short (room f) cap left n h)
