-- ===== src/Backend/Gcs/Compose/Fuel.antt =====
-- internal/backend/gcs.go: the recursion of composeTree ends.
use storage_gateway.Prelude.{
  ℕ, zero, suc, ◌+◌, ◌<◌, ◌≡◌, refl, ap, inl, inr, Option, some, List, [], ◌∷◌, ◌++◌, arith, leb,
  Bool-cases, Str, length, length-append, Result, ok, err, ok_injective, err-ne-ok, Exec,
}
use storage_gateway.Backend.{Error}
use storage_gateway.Backend.Gcs.{Client, GcsError, mapped}
use storage_gateway.Backend.Gcs.Compose.{
  tmp_key, chunks, compose_limit, compose_direct, compose_chunks, compose_tree, after_chunk,
  after_chunks, cleaned,
}
use storage_gateway.Backend.Gcs.Compose.Chunks.{chunks_fewer}

module _ {S : Type 0} (c : Client S) (bucket : Str) where
  after_chunk_count :
      (go : List Str → Exec S Error (List Str)) (n : ℕ) (made out : List Str) (tmp : Str)
      (res : Result GcsError (Unit {0})) (s : S)
      → ((out' : List Str) → (go (made ++ (tmp ∷ [])) s).0 ≡ ok out' → length out' ≡ n)
      → (after_chunk c go bucket made tmp (mapped (res, s))).0 ≡ ok out
      → length out ≡ n
  after_chunk_count go n made out tmp (ok u) s g h = g out h
  after_chunk_count go n made out tmp (err e) s g h = absurd (err-ne-ok (ap (λ r. (r, s)) h))

  -- One intermediate for each slice.
  chunks_made :
      (cs : List (ℕ × List Str)) (made out : List Str) (s : S)
      → (compose_chunks c bucket cs made s).0 ≡ ok out
      → length out ≡ length made + length cs
  unfolding compose_chunks compose_direct
  chunks_made [] made out s h = omega (arith, ap length (ok_injective h))
  chunks_made ((i, ks) ∷ cs) made out s h =
      let tmp = tmp_key i (c.unix_nano s).0 in
      let run = c.compose bucket ks tmp (c.unix_nano s).1 in
      after_chunk_count (compose_chunks c bucket cs) (length made + length ((i, ks) ∷ cs)) made out
        tmp run.0 run.1
        (λ o e.
          omega
            (arith, chunks_made cs (made ++ (tmp ∷ [])) o run.1 e, length-append made (tmp ∷ [])))
        h

  after_chunks_ends :
      (go : List Str → S → Option (Result Error (Unit {0}) × S)) (res : Result Error (List Str))
      (s : S)
      → ((made : List Str)
          → res ≡ ok made
          → (r : Result Error (Unit {0}) × S) × (go made s ≡ some r))
      → (r : Result Error (Unit {0}) × S) × (after_chunks c go bucket (res, s) ≡ some r)
  after_chunks_ends go (err e) s g = ((err e, s), refl)
  after_chunks_ends go (ok made) s g = let e = g made refl in (_, ap (cleaned c bucket made) e.1)

  -- On fuel greater than the number of its sources, composeTree returns a result, whatever the service
  -- answers.
  pub compose_tree-ends :
      (n : ℕ) (ks : List Str) (dest : Str) (s : S)
      → length ks < n
      → (r : Result Error (Unit {0}) × S) × (compose_tree c n bucket ks dest s ≡ some r)
  unfolding compose_tree
  compose_tree-ends zero ks dest s h = elim h [ ]
  compose_tree-ends (suc n) ks dest s h = elim (Bool-cases (leb (length ks) compose_limit)) [
    | inl small ↦ (compose_direct c bucket ks dest s, rw small refl)
    | inr big ↦
        let cs = chunks (length ks) 0 ks in
        let run = compose_chunks c bucket cs [] s in
        let e =
          after_chunks_ends (λ made. compose_tree c n bucket made dest) run.0 run.1
            (λ made f.
              compose_tree-ends n made dest run.1
                (omega (arith, chunks_made cs [] made s f, chunks_fewer (length ks) 0 ks big))) in
        (e.0, rw big e.1)
  ]
