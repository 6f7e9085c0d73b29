-- ===== src/Backend/Gcs/Compose/Storage.antt =====
-- internal/backend/gcs.go: what composeTree relies on of package storage.
use storage_gateway.Prelude.{◌≤◌, ◌≡◌, ◌≢◌, ◌⊎◌, Option, some, List, Str, length, ok, err}
use storage_gateway.Backend.Joined.{joined}
use storage_gateway.Backend.Gcs.{Client, GcsError}
use storage_gateway.Backend.Gcs.Compose.{compose_limit}

-- The documented behaviour of the calls on one bucket: Compose takes at most 32 sources and writes no
-- object but its destination; it writes that at once, as the sources were before, or not at all, and
-- an error may come after it was written. Delete changes no other object; Attrs and a reading of the
-- clock change none. Nothing is asked of what the clock shows.
pub record IsStorage {S : Type 0} (c : Client S) (bucket : Str) (content : S → Str → Option Str)
    : Type 0 where
  pub composed :
      (s t : S) (ks : List Str) (d : Str)
      → length ks ≤ compose_limit
      → c.compose bucket ks d s ≡ (ok tt, t)
      → (b : Str) × (joined (content s) ks ≡ some b) × (content t d ≡ some b)
  pub compose_failed :
      (s t : S) (ks : List Str) (d : Str) (e : GcsError)
      → c.compose bucket ks d s ≡ (err e, t)
      → (content t d ≡ content s d)
        ⊎ ((b : Str) × (joined (content s) ks ≡ some b) × (content t d ≡ some b))
  pub compose_other :
      (s : S) (ks : List Str) (d k : Str)
      → k ≢ d
      → content (c.compose bucket ks d s).1 k ≡ content s k
  pub delete_other : (s : S) (d k : Str) → k ≢ d → content (c.delete bucket d s).1 k ≡ content s k
  pub attrs_same : (s : S) (d k : Str) → content (c.attrs bucket d s).1 k ≡ content s k
  pub clock_same : (s : S) (k : Str) → content (c.unix_nano s).1 k ≡ content s k
