-- ===== src/Admin/Browse/Sizes.antt =====
-- internal/api/admin/browse.go, browseSizeStream: its events against the pages that the upstream gives.
use storage_gateway.Prelude.{
  ℕ, zero, suc, ◌+◌, ◌^◌, ◌≤◌, ◌<◌, ◌≡◌, refl, sym, ap, ◌∙◌, true, false, List, [], ◌∷◌, ◌++◌,
  append-nil, append_assoc, arith, length, length-append, ok, continue,
}
use storage_gateway.Prelude.Int.{pos, ◌+ℤ◌, wrap64, wrap64_id}
use storage_gateway.Registry.{ResolvedBucket}
use storage_gateway.Backend.{Backend, ListObjectsInput, ListObjectsOutput, ObjectInfo}
use storage_gateway.S3.Handler.{World}
use storage_gateway.Admin.{Request, Frame, progress, done}
use storage_gateway.Admin.Access.{Api}
use storage_gateway.Admin.Browse.{
  tally, scan, scan_page, stream_sizes, size_input, event_stream, resolve_browse_context,
  browse_size_stream,
}

-- The upstream lists these pages, one call after the other, each with the token of the page before it,
-- and says of the last that it is not truncated.
pub data Paging {S : Type 0} (be : Backend S)
    : ListObjectsInput → S → List (List ObjectInfo) → S → Type 0 where
  last_page :
      (i : ListObjectsInput) (s t : S) (out : ListObjectsOutput)
      → be.list_objects i s ≡ (ok out, t)
      → out.is_truncated ≡ false
      → Paging be i s (out.contents ∷ []) t
  next_page :
      (i : ListObjectsInput) (s t u : S) (out : ListObjectsOutput) (pages : List (List ObjectInfo))
      → be.list_objects i s ≡ (ok out, t)
      → out.is_truncated ≡ true
      → Paging be (record i { continuation_token = out.next_continuation_token }) t pages u
      → Paging be i s (out.contents ∷ pages) u

unfoldable pub bytes_of : List ObjectInfo → ℕ
bytes_of [] = 0
bytes_of (o ∷ os) = o.size + bytes_of os

unfoldable pub objects_of : List (List ObjectInfo) → List ObjectInfo
objects_of [] = []
objects_of (p ∷ ps) = p ++ objects_of ps

-- What the stream shows of the pages: the running totals after each, and the last totals once more.
unfoldable pub events_of : ℕ → ℕ → List (List ObjectInfo) → List Frame
events_of c b [] = done (pos c) (pos b) ∷ []
events_of c b (p ∷ ps) =
    progress (pos (c + length p)) (pos (b + bytes_of p))
    ∷ events_of (c + length p) (b + bytes_of p) ps

pair_eq : {a b c d : ℕ} → a ≡ c → b ≡ d → ◌≡◌ {A = ℕ × ℕ} (a, b) (c, d)
pair_eq h k = cc

add_pos : (a b : ℕ) → a + b < 2 ^ 63 → wrap64 (pos a +ℤ pos b) ≡ pos (a + b)
unfolding ◌+ℤ◌
add_pos a b h =
    let plain : pos a +ℤ pos b ≡ pos (a + b) = ground arith in
    ap wrap64 plain ∙ wrap64_id (pos (a + b)) (h, omega arith)

tally_pos :
    (c b : ℕ) (os : List ObjectInfo)
    → c + length os < 2 ^ 63
    → b + bytes_of os < 2 ^ 63
    → tally (pos c) (pos b) os ≡ (pos (c + length os), pos (b + bytes_of os))
unfolding tally bytes_of
tally_pos c b [] h k = ap (λ p. (pos p.0, pos p.1)) (pair_eq (omega arith) (omega arith))
tally_pos c b (o ∷ os) h k =
    let next = tally_pos (c + 1) (b + o.size) os (omega arith) (omega arith) in
    rw (add_pos c 1 (omega arith), add_pos b o.size (omega arith))
      (next ∙ ap (λ p. (pos p.0, pos p.1)) (pair_eq (omega arith) (omega arith)))

bytes_of-append : (p q : List ObjectInfo) → bytes_of (p ++ q) ≡ bytes_of p + bytes_of q
unfolding bytes_of
bytes_of-append [] q = omega arith
bytes_of-append (o ∷ p) q = omega (arith, bytes_of-append p q)

-- The first page takes its part of what is left below the bound.
module _ (p : List ObjectInfo) (ps : List (List ObjectInfo)) (c b : ℕ) where
  count_split : c + length (objects_of (p ∷ ps)) ≡ c + length p + length (objects_of ps)
  unfolding objects_of
  count_split = omega (arith, length-append p (objects_of ps))

  bytes_split : b + bytes_of (objects_of (p ∷ ps)) ≡ b + bytes_of p + bytes_of (objects_of ps)
  unfolding objects_of
  bytes_split = omega (arith, bytes_of-append p (objects_of ps))

module _ {S : Type 0} (be : Backend S) where
  scan_pages :
      (n c b : ℕ) (i : ListObjectsInput) (s u : S) (pages : List (List ObjectInfo))
      → Paging be i s pages u
      → length pages ≤ n
      → c + length (objects_of pages) < 2 ^ 63
      → b + bytes_of (objects_of pages) < 2 ^ 63
      → scan be n i (pos c) (pos b) s ≡ (events_of c b pages, u)
  unfolding scan scan_page events_of
  scan_pages zero c b i s u _ (last_page _ _ _ out e f) l h k = elim l [ ]
  scan_pages zero c b i s u _ (next_page _ _ t _ out pages e f p) l h k = elim l [ ]
  scan_pages (suc n) c b i s u _ (last_page _ _ _ out e f) l h k =
      let whole =
        tally_pos c b out.contents (omega (arith, count_split out.contents [] c b))
          (omega (arith, bytes_split out.contents [] c b)) in
      ap (scan_page (λ token. scan be n (record i { continuation_token = token })) (pos c) (pos b))
        e
      ∙ rw (whole, f) refl
  scan_pages (suc n) c b i s u _ (next_page _ _ t _ out pages e f p) l h k =
      let c' = c + length out.contents in
      let b' = b + bytes_of out.contents in
      let whole =
        tally_pos c b out.contents (omega (arith, count_split out.contents pages c b))
          (omega (arith, bytes_split out.contents pages c b)) in
      let rest =
        scan_pages n c' b' (record i { continuation_token = out.next_continuation_token }) t u pages
          p (omega arith) (omega (arith, count_split out.contents pages c b))
          (omega (arith, bytes_split out.contents pages c b)) in
      ap (scan_page (λ token. scan be n (record i { continuation_token = token })) (pos c) (pos b))
        e
      ∙ rw (whole, f, rest) refl

-- The objects and the bytes of `seen` and the pages up to each one, page by page.
unfoldable pub totals_of : List ObjectInfo → List (List ObjectInfo) → List Frame
totals_of seen [] = []
totals_of seen (p ∷ ps) =
    progress (pos (length (seen ++ p))) (pos (bytes_of (seen ++ p))) ∷ totals_of (seen ++ p) ps

-- The last event: the totals of the objects `os`.
abbrev pub done_with : List ObjectInfo → Frame
done_with os = done (pos (length os)) (pos (bytes_of os))

events_of-totals :
    (seen : List ObjectInfo) (ps : List (List ObjectInfo))
    → events_of (length seen) (bytes_of seen) ps
      ≡ totals_of seen ps ++ done_with (seen ++ objects_of ps) ∷ []
unfolding events_of objects_of totals_of
events_of-totals seen [] = ap (λ os. done_with os ∷ []) (sym (append-nil seen))
events_of-totals seen (p ∷ ps) =
    ap (λ q. progress (pos q.0) (pos q.1) ∷ events_of q.0 q.1 ps)
      (pair_eq (sym (length-append seen p)) (sym (bytes_of-append seen p)))
    ∙ ap (λ fs. progress (pos (length (seen ++ p))) (pos (bytes_of (seen ++ p))) ∷ fs)
        (events_of-totals (seen ++ p) ps
          ∙ ap (λ os. totals_of (seen ++ p) ps ++ done_with os ∷ [])
              (append_assoc seen p (objects_of ps)))

-- When the upstream's listing under the prefix ends after some pages, holding fewer than 2^63 objects
-- and bytes, browseSizeStream ends after as many rounds with status 200. Its events are, for each
-- page, the number and the bytes of the objects of the pages so far, and at the end those of all pages.
pub browse_size_stream-totals :
    {M S : Type 0} (api : Api M S) (n : ℕ) (r : Request) (w v : World M S) (rb : ResolvedBucket)
    (be : Backend S) (pages : List (List ObjectInfo)) (u : S)
    → resolve_browse_context api r w ≡ (ok (rb, be), v)
    → Paging be (size_input r rb) v.upstream pages u
    → length pages ≤ n
    → length (objects_of pages) < 2 ^ 63
    → bytes_of (objects_of pages) < 2 ^ 63
    → browse_size_stream api n r w ≡ (
      ok (event_stream (totals_of [] pages ++ done_with (objects_of pages) ∷ [])),
      record v { upstream = u },
    )
unfolding browse_size_stream bytes_of
browse_size_stream-totals api n r w v rb be pages u e p l h k =
    let run =
      scan_pages be n 0 0 (size_input r rb) v.upstream u pages p l (omega arith) (omega arith) in
    ap (λ q. continue q.0 (λ (t : ResolvedBucket × Backend _). stream_sizes api n r t.0 t.1) q.1) e
    ∙ ap (λ q. (ok (event_stream q.0), record v { upstream = q.1 })) run
    ∙ ap (λ fs. (ok (event_stream fs), record v { upstream = u })) (events_of-totals [] pages)
