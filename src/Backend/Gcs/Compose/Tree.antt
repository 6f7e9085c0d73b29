-- ===== src/Backend/Gcs/Compose/Tree.antt =====
-- internal/backend/gcs.go: composeTree ends, and joins its sources.
use storage_gateway.Prelude.{
  map_err_state, ℕ, zero, suc, ◌≤◌, ◌<◌, ◌≡◌, refl, sym, ap, ◌∙◌, ◌≢◌, ◌⊎◌, inl, inr, Option, some,
  List, [], arith, leb, Bool-cases, leb→le, Str, length, Result, ok, err,
}
use storage_gateway.Backend.{Error}
use storage_gateway.Backend.Gcs.{map_gcs_err, Client, GcsError, mapped}
use storage_gateway.Backend.Gcs.Compose.{
  chunks, compose_limit, compose_direct, compose_chunks, compose_tree, delete_keys, after_chunks,
  cleaned,
}
use storage_gateway.Backend.Gcs.Compose.Storage.{IsStorage}
use storage_gateway.Backend.Joined.{joined}
use storage_gateway.Backend.Gcs.Compose.Chunks.{chunks-Small, flat-chunks, chunks_fewer}
use storage_gateway.Backend.Gcs.Compose.Names.{
  IsOutside, Placed, Made, Made-Placed, outside-Made, chunks-Slices,
}
use storage_gateway.Backend.Gcs.Compose.Loop.{delete_keys_other, chunks_other, chunks_ok}

module _ {S : Type 0} (c : Client S) (bucket : Str) (content : S → Str → Option Str)
    (law : IsStorage c bucket content) where
  abbrev pub IsJoined : S → List Str → Str → S → Type 0
  IsJoined s ks d t = (b : Str) × (joined (content s) ks ≡ some b) × (content t d ≡ some b)

  -- What composing `ks` into `d` promises: the concatenation, and after an error that or nothing.
  unfoldable pub Composed : S → List Str → Str → Result Error (Unit {0}) × S → Type 0
  Composed s ks d (ok u, t) = IsJoined s ks d t
  Composed s ks d (err e, t) = (content t d ≡ content s d) ⊎ IsJoined s ks d t

  direct-Composed :
      (ks : List Str) (d : Str) (s t : S) (res : Result GcsError (Unit {0}))
      → length ks ≤ compose_limit
      → c.compose bucket ks d s ≡ (res, t)
      → Composed s ks d (mapped (res, t))
  unfolding Composed
  direct-Composed ks d s t (ok u) l h = law.composed s t ks d l h
  direct-Composed ks d s t (err e) l h = law.compose_failed s t ks d e h

  carried :
      (ks made : List Str) (d : Str) (s u t v : S) (res : Result Error (Unit {0}))
      → Composed u made d (res, t)
      → content v d ≡ content t d
      → joined (content u) made ≡ joined (content s) ks
      → content u d ≡ content s d
      → Composed s ks d (res, v)
  unfolding Composed
  carried ks made d s u t v (ok x) (b, f, g) e j k = (b, sym j ∙ f, e ∙ g)
  carried ks made d s u t v (err x) (inl f) e j k = inl (e ∙ f ∙ k)
  carried ks made d s u t v (err x) (inr (b, f, g)) e j k = inr (b, sym j ∙ f, e ∙ g)

  -- A run that ends with a result, keeps the promise, and leaves the object `k` as it was.
  unfoldable pub Ends : Option (Result Error (Unit {0}) × S) → S → List Str → Str → Str → Type 0
  Ends run s ks d k =
      (r : Result Error (Unit {0}) × S) × (run ≡ some r)
      × Composed s ks d r
      × (content r.1 k ≡ content s k)

  module _ (n : ℕ) (d k : Str) (od : IsOutside d) (outside : IsOutside k)
      (rec : (ks : List Str) (s : S)
        → length ks < n
        → Placed 0 ks
        → Ends (compose_tree c n bucket ks d s) s ks d k) where
    abbrev slices : List Str → List (ℕ × List Str)
    slices ks = chunks (length ks) 0 ks

    loop_same :
        (ks : List Str) (x : Str) (s u : S) (res : Result Error (List Str))
        → compose_chunks c bucket (slices ks) [] s ≡ (res, u)
        → IsOutside x
        → content u x ≡ content s x
    loop_same ks x s u res h o =
        ap (λ p. content p.1 x) (sym h) ∙ chunks_other c bucket content law (slices ks) [] s x o tt

    loop-Ends :
        (ks : List Str) (s u : S) (res : Result Error (List Str))
        → compose_chunks c bucket (slices ks) [] s ≡ (res, u)
        → length (slices ks) < n
        → Placed 0 ks
        → Ends (after_chunks c (λ made. compose_tree c n bucket made d) bucket (res, u)) s ks d k
    unfolding Ends Composed Made
    loop-Ends ks s u (err e) h l os = (
      (err e, u),
      refl,
      inl (loop_same ks d s u (err e) h od),
      loop_same ks k s u (err e) h outside,
    )
    loop-Ends ks s u (ok made) h l os =
        let whole = flat-chunks (length ks) 0 ks (omega arith) in
        let p =
          chunks_ok c bucket content law (slices ks) [] made s u 0 h refl tt
            (chunks-Slices (length ks) 0 ks (omega arith) os) (chunks-Small (length ks) 0 ks) in
        let e = rec made u (omega (arith, p.count)) (Made-Placed 0 made p.all_made) in
        let rest = λ (x : Str) (o : IsOutside x).
          delete_keys_other c bucket content law e.0.1 made x
            (outside-Made 0 made x o p.all_made) in
        (
          (e.0.0, delete_keys c bucket made e.0.1),
          ap (cleaned c bucket made) e.1,
          carried ks made d s u e.0.1 (delete_keys c bucket made e.0.1) e.0.0 e.2 (rest d od)
              (p.kept ∙ sym p.found ∙ ap (joined (content s)) whole)
              (loop_same ks d s u (ok made) h od),
          rest k outside ∙ e.3 ∙ loop_same ks k s u (ok made) h outside,
        )

  pub tree-Ends :
      (n : ℕ) (ks : List Str) (d k : Str) (s : S)
      → length ks < n
      → k ≢ d
      → Placed 0 ks
      → IsOutside d
      → IsOutside k
      → Ends (compose_tree c n bucket ks d s) s ks d k
  unfolding compose_tree compose_direct Ends
  tree-Ends zero ks d k s h a os od ok' = elim h [ ]
  tree-Ends (suc n) ks d k s h a os od ok' = elim (Bool-cases (leb (length ks) compose_limit)) [
    | inl small ↦
        let run = c.compose bucket ks d s in
        (
          mapped run,
          rw small refl,
          direct-Composed ks d s run.1 run.0 (leb→le (length ks) compose_limit small) refl,
          ap (λ x. content x k) (map_err_state map_gcs_err run.0 run.1)
              ∙ law.compose_other s ks d k a,
        )
    | inr big ↦
        let run = compose_chunks c bucket (chunks (length ks) 0 ks) [] s in
        let e =
          loop-Ends n d k od ok' (λ xs u l os'. tree-Ends n xs d k u l a os' od ok') ks s run.1
            run.0 refl (omega (arith, chunks_fewer (length ks) 0 ks big)) os in
        (e.0, rw big e.1, e.2, e.3)
  ]
