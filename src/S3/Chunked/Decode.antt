-- ===== src/S3/Chunked/Decode.antt =====
-- internal/api/s3/objects.go, awsChunkedReader: the bytes of a framed body.
use storage_gateway.Prelude.{
  ℕ, zero, suc, ◌+◌, ◌-◌, ◌≤◌, ◌<◌, ◌≡◌, ◌∙◌, ap, sym, refl, true, false, some, List, [], ◌∷◌, ◌++◌,
  append_assoc, append-nil, Str, IsFree, cut_byte, cut_byte-append, length, length-append,
  length-drop, take, drop, take-append-drop, take_all, ◌==◌, arith, Bool-cases, inl, inr, All,
}
use storage_gateway.Prelude.Int.{pos}
use storage_gateway.S3.Chunked.{
  Reader, new_reader, data_read, eof, chunk_size, header, sized, read_header, read_data,
  after_header, read,
}
use storage_gateway.S3.Chunked.Frames.{
  whole, drain, proceed, Chunk, IsChunk, frame, frames, payloads, in_chunk, at_header, after_bytes,
  read_data_step,
}

-- A header line is read up to its newline.
pub header_line :
    (line more : Str)
    → IsFree 10 (line ++ 13 ∷ [])
    → read_header (line ++ (13 ∷ 10 ∷ more)) ≡ sized more (chunk_size (line ++ 13 ∷ []))
header_line line more h =
    unfold read_header in
    ap (λ s. header (cut_byte 10 s)) (sym (append_assoc line (13 ∷ []) (10 ∷ more)))
    ∙ ap header (cut_byte-append 10 (line ++ 13 ∷ []) more h)

module _ (room : ℕ → ℕ) (cap : ℕ) (positive : 0 < cap) where
  drain_data :
      (f : ℕ) (a a' : Reader) (s acc : Str)
      → read (room f) cap a ≡ (data_read s, a')
      → drain (suc f) room cap a acc ≡ drain f room cap a' (acc ++ s)
  unfolding drain
  drain_data f a a' s acc h = ap (proceed (drain f room cap) acc) h

  drain_eof :
      (f : ℕ) (a a' : Reader) (acc : Str)
      → read (room f) cap a ≡ (eof, a')
      → drain (suc f) room cap a acc ≡ some (whole acc)
  unfolding drain
  drain_eof f a a' acc h = ap (proceed (drain f room cap) acc) h

  -- A reader that stands in front of the bytes `left` of a chunk.
  abbrev Reads : Reader → Str → Str → Type 0
  Reads a left more =
      (r : ℕ) → read r cap a ≡ read_data r cap (length left) (left ++ (13 ∷ 10 ∷ more))

  in_chunk-Reads : (left more : Str) → 0 < length left → Reads (in_chunk left more) left more
  unfolding read
  in_chunk-Reads [] more h r = elim h [ ]
  in_chunk-Reads (x ∷ left) more h r = refl

  frame-Reads :
      (c : Chunk) (more : Str) → IsChunk c → Reads (at_header (frame c more)) c.payload more
  frame-Reads c more h r =
      unfold read in
      ap (after_header r cap) (
        header_line c.line (c.payload ++ (13 ∷ 10 ∷ more)) h.one_line
        ∙ ap (sized (c.payload ++ (13 ∷ 10 ∷ more))) h.announced)
      ∙ data_behind (length c.payload) h.nonempty
    where
      data_behind :
          (n : ℕ)
          → 0 < n
          → after_header r cap (sized (c.payload ++ (13 ∷ 10 ∷ more)) (some (pos n)))
            ≡ read_data r cap n (c.payload ++ (13 ∷ 10 ∷ more))
      data_behind zero p = elim p [ ]
      data_behind (suc n) p = refl

  after_last :
      (f got : ℕ) (left more acc : Str)
      → (length left - got == 0) ≡ true
      → drain f room cap (after_bytes got left more) (acc ++ take got left)
        ≡ drain f room cap (at_header more) (acc ++ left)
  after_last f got left more acc z = rw (z, take_all got left (ground arith)) refl

  after_some :
      (f got : ℕ) (left more acc : Str)
      → (length left - got == 0) ≡ false
      → drain f room cap (after_bytes got left more) (acc ++ take got left)
        ≡ drain f room cap (in_chunk (drop got left) more) (acc ++ take got left)
  after_some f got left more acc z = rw z refl

  rejoin : (got : ℕ) (left acc : Str) → (acc ++ take got left) ++ drop got left ≡ acc ++ left
  rejoin got left acc =
      append_assoc acc (take got left) (drop got left)
      ∙ ap (λ t. acc ++ t) (take-append-drop got left)

  -- All that is left of a chunk is read in at most as many calls as it has bytes.
  chunk_drain :
      (f : ℕ) (a : Reader) (left more acc : Str)
      → Reads a left more
      → 0 < length left
      → length left ≤ f
      → (g : ℕ) × (f ≤ g + length left)
        × (drain f room cap a acc ≡ drain g room cap (at_header more) (acc ++ left))
  chunk_drain zero a left more acc h p k = absurd (omega arith)
  chunk_drain (suc f) a left more acc h p k =
      let (got, some_bytes, fits, step) = read_data_step (room f) cap left more positive p in
      let first =
        drain_data f a (after_bytes got left more) (take got left) acc (h (room f) ∙ step) in
      elim (Bool-cases (length left - got == 0)) [
        | inl z ↦ (f, omega arith, first ∙ after_last f got left more acc z)
        | inr z ↦
            let shorter = length-drop got left in
            let some_left : 0 < length (drop got left) = ground (arith, shorter) in
            let (g, enough, ends) =
              chunk_drain f (in_chunk (drop got left) more) (drop got left) more
                (acc ++ take got left) (in_chunk-Reads (drop got left) more some_left) some_left
                (omega (arith, shorter)) in
            (
              g,
              omega (arith, shorter),
              first
                  ∙ after_some f got left more acc z
                  ∙ ends
                  ∙ ap (drain g room cap (at_header more)) (rejoin got left acc),
            )
      ]

  module _ (last more : Str) (plain : IsFree 10 (last ++ 13 ∷ [])) where
    -- The terminator: a line with the size 0, and whatever follows it.
    abbrev pub terminator : Str
    terminator = last ++ (13 ∷ 10 ∷ more)

    module _ (final : chunk_size (last ++ 13 ∷ []) ≡ some (pos 0)) where
      read_end :
          (r : ℕ)
          → read r cap (at_header terminator)
            ≡ (eof, record { rest = more; remaining = pos 0; done = true })
      read_end r =
          unfold read in
          ap (after_header r cap) (header_line last more plain ∙ ap (sized more) final)

      drain_from :
          (cs : List Chunk) (f : ℕ) (acc : Str)
          → All IsChunk cs
          → length (payloads cs) < f
          → drain f room cap (at_header (frames cs terminator)) acc
            ≡ some (whole (acc ++ payloads cs))
      drain_from [] zero acc h k = elim k [ ]
      drain_from [] (suc f) acc h k =
          drain_eof f (at_header terminator) _ acc (read_end (room f))
          ∙ ap (λ t. some (whole t)) (sym (append-nil acc))
      drain_from (c ∷ cs) f acc (h, hs) k =
          let total = length-append c.payload (payloads cs) in
          let (g, enough, ends) =
            chunk_drain f (at_header (frame c (frames cs terminator))) c.payload
              (frames cs terminator) acc (frame-Reads c (frames cs terminator) h) h.nonempty
              (omega (arith, total)) in
          ends
          ∙ drain_from cs g (acc ++ c.payload) hs (omega (arith, total))
          ∙ ap (λ t. some (whole t)) (append_assoc acc c.payload (payloads cs))

-- A body of any number of framed chunks and a terminator is read back as the data of its chunks in
-- order, and the reading ends, however many bytes the network has for each call, for every buffer
-- that is not empty, within one call more than there are bytes.
pub drain-frames :
    (room : ℕ → ℕ) (cap : ℕ) (cs : List Chunk) (last more : Str) (f : ℕ)
    → 0 < cap
    → All IsChunk cs
    → IsFree 10 (last ++ 13 ∷ [])
    → chunk_size (last ++ 13 ∷ []) ≡ some (pos 0)
    → length (payloads cs) < f
    → drain f room cap (new_reader (frames cs (last ++ (13 ∷ 10 ∷ more)))) []
      ≡ some (whole (payloads cs))
unfolding new_reader
drain-frames room cap cs last more f p h plain final k =
    drain_from room cap p last more plain final cs f [] h k
