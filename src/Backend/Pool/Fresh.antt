-- ===== src/Backend/Pool/Fresh.antt =====
-- internal/backend/factory.go, Pool: which configuration the backend that Get returns was built from.
use storage_gateway.Prelude.{
  ℕ, ◌≡◌, ◌∙◌, ap, none, some, [], ◌∷◌, ◌==◌, if◌then◌else◌, ok, Result, arith,
}
use storage_gateway.Registry.{ResolvedBucket}
use storage_gateway.Backend.Pool.{
  Pool, PoolError, Providers, lookup, evict, invalidate, publish, build, get, keep_existing,
  get_found_or_built, publish_result,
}

-- A Get that looked into the pool while it was `seen`, and that enters its second critical section when
-- it is `now`.
abbrev pub in_flight :
    {B : Type 0} → Providers B → ResolvedBucket → Pool B → Pool B → Result PoolError B × Pool B
in_flight env rb seen now = get_found_or_built env rb now (lookup rb.store_id seen)

module _ {B : Type 0} where
  lookup-evict :
      (id j : ℕ) (p : Pool B) → lookup j (evict id p) ≡ (if id == j then none else lookup j p)
  unfolding lookup evict
  lookup-evict id j [] = ground arith
  lookup-evict id j ((i, b) ∷ p) = ground (arith, lookup-evict id j p)

  lookup-invalidate : (id : ℕ) (p : Pool B) → lookup id (invalidate id p) ≡ none
  lookup-invalidate id p = unfold invalidate in ground (arith, lookup-evict id id p)

  publish-new :
      (id : ℕ) (b : B) (p : Pool B) → lookup id p ≡ none → publish id b p ≡ (b, (id, b) ∷ p)
  unfolding publish
  publish-new id b p h = ap (keep_existing id b p) h

  lookup-front : (id : ℕ) (b : B) (p : Pool B) → lookup id ((id, b) ∷ p) ≡ some b
  unfolding lookup
  lookup-front id b p = ground arith

  module _ (env : Providers B) (rb : ResolvedBucket) (p : Pool B) (b : B) where
    pub get_built :
        lookup rb.store_id p ≡ none
        → build env rb ≡ ok b
        → get env rb p ≡ (ok b, (rb.store_id, b) ∷ p)
    unfolding get
    get_built h e =
        ap (get_found_or_built env rb p) h
        ∙ ap (λ r. publish_result env rb.store_id r p) e
        ∙ ap (λ q. (ok q.0, q.1)) (publish-new rb.store_id b p h)

    get_found : lookup rb.store_id p ≡ some b → get env rb p ≡ (ok b, p)
    unfolding get
    get_found h = ap (get_found_or_built env rb p) h

-- After Invalidate with no Get in flight, the next Get returns what is built from the configuration
-- that it is given, where that succeeds. A Get for that store right after it returns the same backend,
-- whatever configuration it is given, and leaves the pool as it is.
pub get-invalidate :
    {B : Type 0} (env : Providers B) (rb later : ResolvedBucket) (p : Pool B) (b : B)
    → build env rb ≡ ok b
    → later.store_id ≡ rb.store_id
    → ((get env rb (invalidate rb.store_id p)).0 ≡ ok b)
      × (get env later (get env rb (invalidate rb.store_id p)).1
          ≡ (ok b, (get env rb (invalidate rb.store_id p)).1))
get-invalidate env rb later p b e s =
    let first = get_built env rb (invalidate rb.store_id p) b (lookup-invalidate rb.store_id p) e in
    let again = get_found env later ((rb.store_id, b) ∷ invalidate rb.store_id p) b (
      ap (λ i. lookup i ((rb.store_id, b) ∷ invalidate rb.store_id p)) s
      ∙ lookup-front rb.store_id b (invalidate rb.store_id p)) in
    (ap (λ q. q.0) first, rw first again)
