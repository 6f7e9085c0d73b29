-- ===== src/Tests/S3.antt =====
-- Runs of the aws-chunked reader of internal/api/s3/objects.go on short bodies.
use storage_gateway.Prelude.{◌≡◌, refl, [], ◌∷◌, ◌++◌, some, none, bytes, arith}
use storage_gateway.S3.Chunked.{chunk_size, new_reader}
use storage_gateway.S3.Chunked.Frames.{Chunk, IsChunk, frames, whole, drain}
use storage_gateway.S3.Chunked.Decode.{drain-frames}
use storage_gateway.S3.Chunked.Stuck.{drain-truncated}

drain-truncated_example :
    drain 5 (λ _. 4) 8 (new_reader (bytes "a" ++ (13 ∷ 10 ∷ bytes "four"))) [] ≡ none
unfolding chunk_size
drain-truncated_example =
    drain-truncated 5 (λ _. 4) 8 (bytes "a") (bytes "four") 9 (refl, (refl, tt)) refl (omega arith)

abbrev hello : Chunk
hello = record { line = bytes "5;chunk-signature=ab"; payload = bytes "hello" }

hello-IsChunk : IsChunk hello
unfolding chunk_size
hello-IsChunk = record { one_line = ground arith; announced = refl; nonempty = omega arith }

-- Two chunks and the terminator, read at most three bytes at a time.
drain-frames_example :
    drain 11
      (λ _. 3)
      8
      (new_reader (frames (hello ∷ hello ∷ []) (bytes "0" ++ (13 ∷ 10 ∷ 13 ∷ 10 ∷ []))))
      []
    ≡ some (whole (bytes "hellohello"))
unfolding chunk_size
drain-frames_example =
    drain-frames (λ _. 3) 8 (hello ∷ hello ∷ []) (bytes "0") (13 ∷ 10 ∷ []) 11 (omega arith)
      (hello-IsChunk, (hello-IsChunk, tt)) (refl, (refl, tt)) refl (omega arith)
