-- ===== src/S3/Chunked.antt =====
-- internal/api/s3/objects.go, awsChunkedReader: the framing of an aws-chunked body. The buffered
-- reader under it is the list of the bytes that are left, and it reports io.EOF at their end.
pub mod Frames
pub mod Decode
pub mod Stuck
use storage_gateway.Prelude.{
  ℕ, zero, suc, ◌+◌, ◌-◌, ◌^◌, ◌≡◌, Bool, true, false, ◌||◌, Option, none, some, List, [], ◌∷◌,
  ◌++◌, Str, is_empty, cut_byte, length, take, drop, leb, ◌==◌, if◌then◌else◌,
}
use storage_gateway.Prelude.Int.{ℤ, pos, negsuc}
use storage_gateway.Strconv.{parse_int}

pub record Reader : Type 0 where
  pub rest : Str
  pub remaining : ℤ
  pub done : Bool

unfoldable pub new_reader : Str → Reader
new_reader body = record { rest = body; remaining = pos 0; done = false }

-- What Read returns: bytes with no error, io.EOF, another error, or a panic of p[:toRead].
pub data Outcome : Type 0 where
  data_read : Str → Outcome
  eof bad_header bad_size panic : Outcome

-- strings.TrimSpace and TrimRight(line, "\r\n") by the tests on one byte.
abbrev is_newline : ℕ → Bool
is_newline c = c == 13 || c == 10

abbrev pub is_space : ℕ → Bool
is_space c = (c == 32 || c == 9) || (c == 10 || c == 11) || (c == 12 || c == 13)

unfoldable pub trim_left : (ℕ → Bool) → Str → Str
trim_left p [] = []
trim_left p (c ∷ s) = elim (p c) [ true ↦ trim_left p s | false ↦ c ∷ s ]

-- Drops the last bytes that pass the test.
unfoldable pub trim_right : (ℕ → Bool) → Str → Str
trim_right p [] = []
trim_right p (c ∷ s) =
    let t = trim_right p s in if is_empty t then (if p c then [] else c ∷ []) else c ∷ t

abbrev before_semicolon : Str → Option (Str × Str) → Str
before_semicolon line none = line
before_semicolon line (some (head, tail)) = head

-- The size in a header line. White space is that of ASCII; TrimSpace takes Unicode's off as well, which
-- only a line with other bytes can hold.
unfoldable pub chunk_size : Str → Option ℤ
unfolding trim_right trim_left parse_int cut_byte
chunk_size line =
    let line' = trim_right is_newline line in
    parse_int 16 (2 ^ 63)
      (trim_right is_space (trim_left is_space (before_semicolon line' (cut_byte b';' line'))))

-- ReadString('\n'): the line is cut at the first newline; with none the rest is gone.
abbrev after_line : Str → Option (Str × Str) → Str
after_line rest none = []
after_line rest (some (line, more)) = more

unfoldable pub skip_line : Str → Str
unfolding cut_byte
skip_line rest = after_line rest (cut_byte 10 rest)

abbrev sized : Str → Option ℤ → Outcome × Reader
sized more none = (bad_size, record { rest = more; remaining = pos 0; done = false })
sized more (some (pos zero)) = (eof, record { rest = more; remaining = pos 0; done = true })
sized more (some n) = (data_read [], record { rest = more; remaining = n; done = false })

abbrev header : Option (Str × Str) → Outcome × Reader
header none = (bad_header, record { rest = []; remaining = pos 0; done = false })
header (some (line, more)) = sized more (chunk_size line)

-- The loop `for a.remaining == 0`: it reads one header, since a size of 0 returns and any other
-- ends the loop. `data_read []` stands for going on to the data.
unfoldable pub read_header : Str → Outcome × Reader
unfolding chunk_size cut_byte
read_header rest = header (cut_byte 10 rest)

-- What bufio.Reader.Read may hand over: with a positive `want` and bytes left, at least one byte and
-- at most `want` of them; how many is `room`, the environment's choice.
abbrev granted : ℕ → ℕ → ℕ → ℕ
granted room want left =
    let most = if leb want left then want else left in
    if leb most room then most else if room == 0 then (if most == 0 then 0 else 1) else room

-- The data part of Read, for a caller's buffer of `cap` bytes and a chunk with `n` bytes left.
unfoldable pub read_data : ℕ → ℕ → ℕ → Str → Outcome × Reader
unfolding skip_line
read_data room cap n rest =
    let want = if leb cap n then cap else n in
    let got = granted room want (length rest) in
    let left = n - got in
    (
      data_read (take got rest),
      record {
        rest = if left == 0 then skip_line (drop got rest) else drop got rest;
        remaining = pos left;
        done = false;
      },
    )

-- p[:toRead] panics where a chunk size was negative.
abbrev read_remaining : ℕ → ℕ → ℤ → Str → Outcome × Reader
read_remaining room cap (pos n) rest = read_data room cap n rest
read_remaining room cap (negsuc n) rest =
    (panic, record { rest = rest; remaining = negsuc n; done = false })

abbrev after_header : ℕ → ℕ → Outcome × Reader → Outcome × Reader
after_header room cap (data_read _, a) = read_remaining room cap a.remaining a.rest
after_header room cap (o, a) = (o, a)

abbrev dispatch : ℕ → ℕ → Reader → ℤ → Outcome × Reader
dispatch room cap a (pos zero) = after_header room cap (read_header a.rest)
dispatch room cap a (pos (suc n)) = read_remaining room cap (pos (suc n)) a.rest
dispatch room cap a (negsuc n) = read_remaining room cap (negsuc n) a.rest

-- One call Read(p) with len(p) = cap.
unfoldable pub read : ℕ → ℕ → Reader → Outcome × Reader
unfolding read_header read_data
read room cap a = if a.done then (eof, a) else dispatch room cap a a.remaining
