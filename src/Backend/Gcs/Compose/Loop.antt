-- ===== src/Backend/Gcs/Compose/Loop.antt =====
-- internal/backend/gcs.go: the loop of composeTree over its slices.
use storage_gateway.Prelude.{
  ℕ, ◌+◌, ◌*◌, ◌≡◌, refl, sym, ap, ◌∙◌, ◌≢◌, Option, none, some, List, [], ◌∷◌, ◌++◌, append_assoc,
  append-nil, arith, Str, All, length, length-append, Result, ok, err, ok_injective, err-ne-ok,
  Exec,
}
use mathlib.Core.Path.{subst}
use storage_gateway.Backend.{Error}
use storage_gateway.Backend.Gcs.{Client, GcsError, mapped}
use storage_gateway.Backend.Gcs.Compose.{
  tmp_key, compose_limit, compose_direct, compose_chunks, delete_keys, after_chunk,
}
use storage_gateway.Backend.Gcs.Compose.Storage.{IsStorage}
use storage_gateway.Backend.Joined.{joined, append_found, joined-append, joined_same}
use storage_gateway.Backend.Gcs.Compose.Chunks.{flat, Small}
use storage_gateway.Backend.Gcs.Compose.Names.{
  IsOutside, Made, Slices, All-every, All-map, All-snoc, Placed-apart, Made-apart, Made-snoc,
}

module _ {S : Type 0} (c : Client S) (bucket : Str) (content : S → Str → Option Str)
    (law : IsStorage c bucket content) where
  pub delete_keys_other :
      (s : S) (ks : List Str) (k : Str)
      → All (λ d. k ≢ d) ks
      → content (delete_keys c bucket ks s) k ≡ content s k
  unfolding delete_keys
  delete_keys_other s [] k h = refl
  delete_keys_other s (d ∷ ks) k (n, h) =
      delete_keys_other (c.delete bucket d s).1 ks k h ∙ law.delete_other s d k n

  -- A reading of the clock and a Compose under its name leave every other name alone.
  step_same :
      (s : S) (ks : List Str) (d k : Str)
      → k ≢ d
      → content (c.compose bucket ks d (c.unix_nano s).1).1 k ≡ content s k
  step_same s ks d k n = law.compose_other (c.unix_nano s).1 ks d k n ∙ law.clock_same s k

  after_chunk_other :
      (go : List Str → Exec S Error (List Str)) (made : List Str) (tmp k : Str)
      (res : Result GcsError (Unit {0})) (s : S)
      → content (go (made ++ (tmp ∷ [])) s).1 k ≡ content s k
      → All (λ d. k ≢ d) made
      → content (after_chunk c go bucket made tmp (mapped (res, s))).1 k ≡ content s k
  after_chunk_other go made tmp k (ok u) s g h = g
  after_chunk_other go made tmp k (err e) s g h = delete_keys_other s made k h

  -- Whatever the loop does, it changes no object outside the area of the intermediates.
  pub chunks_other :
      (cs : List (ℕ × List Str)) (made : List Str) (s : S) (k : Str)
      → IsOutside k
      → All (λ d. k ≢ d) made
      → content (compose_chunks c bucket cs made s).1 k ≡ content s k
  unfolding compose_chunks compose_direct IsOutside
  chunks_other [] made s k o m = refl
  chunks_other ((i, ks) ∷ cs) made s k o m =
      let tmp = tmp_key i (c.unix_nano s).0 in
      let run = c.compose bucket ks tmp (c.unix_nano s).1 in
      let apart : k ≢ tmp = o i (c.unix_nano s).0 in
      after_chunk_other (compose_chunks c bucket cs) made tmp k run.0 run.1
        (chunks_other cs (made ++ (tmp ∷ [])) run.1 k o (All-snoc (λ d. k ≢ d) made tmp m apart)) m
      ∙ step_same s ks tmp k apart

  snoc_ok :
      (go : List Str → Exec S Error (List Str)) (made out : List Str) (tmp : Str)
      (res : Result GcsError (Unit {0})) (s t : S)
      → after_chunk c go bucket made tmp (mapped (res, s)) ≡ (ok out, t)
      → (res ≡ ok tt) × (go (made ++ (tmp ∷ [])) s ≡ (ok out, t))
  snoc_ok go made out tmp (ok u) s t h = (refl, h)
  snoc_ok go made out tmp (err e) s t h = absurd (err-ne-ok h)

  -- A loop that succeeds has composed its slices into intermediates, in their order.
  pub record Progress (cs : List (ℕ × List Str)) (made out : List Str) (s u : S) : Type 0 where
    pub all_made : Made 0 out
    pub count : length out ≡ length made + length cs
    pub bytes_of : Str
    pub found : joined (content s) (flat cs) ≡ some bytes_of
    pub kept : joined (content u) out ≡ append_found (joined (content s) made) (some bytes_of)

  nothing_more : (o : Option Str) → append_found o (some []) ≡ o
  nothing_more none = refl
  nothing_more (some a) = ap some (append-nil a)

  join_step :
      (m : Option Str) (b f : Str)
      → append_found (append_found m (append_found (some b) (some []))) (some f)
        ≡ append_found m (some (b ++ f))
  join_step none b f = refl
  join_step (some a) b f =
      ap some (append_assoc a (b ++ []) f ∙ ap (λ x. a ++ (x ++ f)) (append-nil b))

  Progress-nil : (made : List Str) (s : S) → Made 0 made → Progress [] made made s s
  Progress-nil made s m = record {
    all_made = m;
    count = omega arith;
    bytes_of = [];
    found = refl;
    kept = sym (nothing_more (joined (content s) made));
  }

  Progress-cons :
      (i : ℕ) (ks : List Str) (cs : List (ℕ × List Str)) (made out : List Str) (s u : S)
      (tmp b : Str)
      → All (λ m. m ≢ tmp) made
      → All (λ k. k ≢ tmp) (flat cs)
      → joined (content (c.unix_nano s).1) ks ≡ some b
      → content (c.compose bucket ks tmp (c.unix_nano s).1).1 tmp ≡ some b
      → Progress cs (made ++ (tmp ∷ [])) out (c.compose bucket ks tmp (c.unix_nano s).1).1 u
      → Progress ((i, ks) ∷ cs) made out s u
  Progress-cons i ks cs made out s u tmp b m o src dst p =
      let v = (c.compose bucket ks tmp (c.unix_nano s).1).1 in
      let sources : joined (content s) ks ≡ some b =
        joined_same (content (c.unix_nano s).1) (content s) ks
          (All-every (λ k. sym (law.clock_same s k)) ks)
        ∙ src in
      let others : joined (content s) (flat cs) ≡ some p.bytes_of =
        joined_same (content v) (content s) (flat cs)
          (All-map (λ k n. sym (step_same s ks tmp k n)) (flat cs) o)
        ∙ p.found in
      let before : joined (content v) made ≡ joined (content s) made =
        joined_same (content s) (content v) made (All-map (step_same s ks tmp) made m) in
      record {
        all_made = p.all_made;
        count = omega (arith, p.count, length-append made (tmp ∷ []));
        bytes_of = b ++ p.bytes_of;
        found = joined-append (content s) ks (flat cs) ∙ rw (sources, others) refl;
        kept =
            p.kept
            ∙ ap (λ x. append_found x (some p.bytes_of)) (joined-append (content v) made (tmp ∷ []))
            ∙ rw (before, dst) (join_step (joined (content s) made) b p.bytes_of);
      }

  pub chunks_ok :
      (cs : List (ℕ × List Str)) (made out : List Str) (s u : S) (i : ℕ)
      → compose_chunks c bucket cs made s ≡ (ok out, u)
      → i ≡ 32 * length made
      → Made 0 made
      → Slices i cs
      → All Small cs
      → Progress cs made out s u
  unfolding compose_chunks compose_direct Slices
  chunks_ok [] made out s u i h e m o small =
      subst (λ x. Progress [] made x s u) (ok_injective (ap (λ p. p.0) h))
        (subst (λ v. Progress [] made made s v) (ap (λ p. p.1) h) (Progress-nil made s m))
  chunks_ok ((j, ks) ∷ cs) made out s u i h e m (same, behind, rest) small =
      let now = (c.unix_nano s).0 in
      let tmp = tmp_key j now in
      let run = c.compose bucket ks tmp (c.unix_nano s).1 in
      let next = snoc_ok (compose_chunks c bucket cs) made out tmp run.0 run.1 u h in
      let got = law.composed (c.unix_nano s).1 run.1 ks tmp small.0 (ap (λ x. (x, run.1)) next.0) in
      Progress-cons j ks cs made out s u tmp got.0 (Made-apart 0 j now made (omega arith) m)
        (Placed-apart (i + compose_limit) j now (flat cs) (omega arith) behind) got.1 got.2
        (chunks_ok cs (made ++ (tmp ∷ [])) out run.1 u (i + compose_limit) next.1
          (omega (arith, length-append made (tmp ∷ []))) (Made-snoc 0 j now made (omega arith) m)
          rest small.1)
