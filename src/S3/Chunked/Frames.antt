-- ===== src/S3/Chunked/Frames.antt =====
-- internal/api/s3/objects.go, awsChunkedReader: a framed body is read back whole, however the reads
-- are split.
use storage_gateway.Prelude.{
  ℕ, zero, suc, ◌-◌, ◌≤◌, ◌<◌, ◌≡◌, refl, true, false, Option, none, some, List, [], ◌∷◌, ◌++◌, Str,
  IsFree, length, length-append, length-drop, take-front, drop-front, drop_all, take, drop, leb,
  ◌==◌, if◌then◌else◌, arith, Bool-cases, inl, inr,
}
use storage_gateway.Prelude.Int.{pos}
use storage_gateway.S3.Chunked.{
  Reader, Outcome, data_read, eof, chunk_size, skip_line, granted, read_data, read,
}

-- What a caller that reads until the end gets: the bytes, or the outcome that stopped it.
pub data Drained : Type 0 where
  whole : Str → Drained
  stopped : Outcome → Drained

abbrev pub proceed : (Reader → Str → Option Drained) → Str → Outcome × Reader → Option Drained
proceed go acc (data_read s, a) = go a (acc ++ s)
proceed go acc (eof, a) = some (whole acc)
proceed go acc (o, a) = some (stopped o)

-- io.Copy: it calls Read until io.EOF or another error. `room` chooses how much the network has for
-- each call; the fuel bounds the calls, and none means that it ran out.
unfoldable pub drain : ℕ → (ℕ → ℕ) → ℕ → Reader → Str → Option Drained
drain zero room cap a acc = none
drain (suc f) room cap a acc = proceed (drain f room cap) acc (read (room f) cap a)

-- A header line and the data of a chunk, as a client frames them.
pub record Chunk : Type 0 where
  pub line : Str
  pub payload : Str

abbrev pub crlf : Str
crlf = 13 ∷ 10 ∷ []

abbrev pub frame : Chunk → Str → Str
frame c more = c.line ++ (13 ∷ 10 ∷ (c.payload ++ (13 ∷ 10 ∷ more)))

-- The line has no newline in it and announces the length of the data, which is not empty.
pub record IsChunk (c : Chunk) : Type 0 where
  pub one_line : IsFree 10 (c.line ++ 13 ∷ [])
  pub announced : chunk_size (c.line ++ 13 ∷ []) ≡ some (pos (length c.payload))
  pub nonempty : 0 < length c.payload

abbrev pub frames : List Chunk → Str → Str
frames [] more = more
frames (c ∷ cs) more = frame c (frames cs more)

abbrev pub payloads : List Chunk → Str
payloads [] = []
payloads (c ∷ cs) = c.payload ++ payloads cs

granted_bounds :
    (room want left : ℕ)
    → 0 < want
    → want ≤ left
    → (0 < granted room want left) × (granted room want left ≤ want)
granted_bounds room want left h k = ground arith

abbrev pub in_chunk : Str → Str → Reader
in_chunk left more = record {
  rest = left ++ (13 ∷ 10 ∷ more);
  remaining = pos (length left);
  done = false;
}

abbrev pub at_header : Str → Reader
at_header rest = record { rest = rest; remaining = pos 0; done = false }

-- The reader after `got` of the bytes that are left in the chunk.
abbrev pub after_bytes : ℕ → Str → Str → Reader
after_bytes got left more =
    if length left - got == 0 then at_header more else in_chunk (drop got left) more

skip_crlf : (more : Str) → skip_line (13 ∷ 10 ∷ more) ≡ more
unfolding skip_line
skip_crlf more = refl

-- The state after `got` bytes, as the code computes it and as it is described.
abbrev rest_after : ℕ → Str → Str → Reader
rest_after got left more = record {
  rest =
      if length left - got == 0
      then skip_line (drop got (left ++ (13 ∷ 10 ∷ more)))
      else drop got (left ++ (13 ∷ 10 ∷ more));
  remaining = pos (length left - got);
  done = false;
}

module _ (got : ℕ) (left more : Str) (fits : got ≤ length left) where
  rest_after-last :
      (length left - got == 0) ≡ true → rest_after got left more ≡ after_bytes got left more
  rest_after-last z =
      let none_left : length left - got ≡ 0 = ground arith in
      rw
        (
          z,
          none_left,
          drop-front got left (13 ∷ 10 ∷ more) fits,
          drop_all got left (omega arith),
          skip_crlf more,
        )
        refl

  rest_after-more :
      (length left - got == 0) ≡ false → rest_after got left more ≡ after_bytes got left more
  rest_after-more z = rw (z, drop-front got left (13 ∷ 10 ∷ more) fits, length-drop got left) refl

  rest_after_lem : rest_after got left more ≡ after_bytes got left more
  rest_after_lem = elim (Bool-cases (length left - got == 0)) [
    | inl z ↦ rest_after-last z
    | inr z ↦ rest_after-more z
  ]

abbrev wanted : ℕ → ℕ → ℕ
wanted cap n = if leb cap n then cap else n

wanted_bounds : (cap n : ℕ) → 0 < cap → 0 < n → (0 < wanted cap n) × (wanted cap n ≤ n)
wanted_bounds cap n h k = ground arith

pub read_data_step :
    (room cap : ℕ) (left more : Str)
    → 0 < cap
    → 0 < length left
    → (got : ℕ) × (0 < got)
      × (got ≤ length left)
      × (read_data room cap (length left) (left ++ (13 ∷ 10 ∷ more))
          ≡ (data_read (take got left), after_bytes got left more))
read_data_step room cap left more h k =
    let want = wanted cap (length left) in
    let got = granted room want (length (left ++ (13 ∷ 10 ∷ more))) in
    let wb = wanted_bounds cap (length left) h k in
    let gb =
      granted_bounds room want (length (left ++ (13 ∷ 10 ∷ more))) wb.0
        (omega (arith, length-append left (13 ∷ 10 ∷ more), wb.1)) in
    let fits : got ≤ length left = omega (arith, gb.1, wb.1) in
    (
      got,
      gb.0,
      fits,
      unfold read_data in
          λ i. (
            data_read (take-front got left (13 ∷ 10 ∷ more) fits i),
            rest_after_lem got left more fits i,
          ),
    )
