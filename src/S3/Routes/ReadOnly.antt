-- ===== src/S3/Routes/ReadOnly.antt =====
-- internal/api/s3/handler.go with auth.go: a read-only key changes nothing upstream.
use storage_gateway.Prelude.{
  ℕ, ◌≡◌, refl, sym, ap, ◌∙◌, inl, inr, Bool, true, false, not, Option, none, some, List, [], ◌∷◌,
  arith, ◌==◌, Bool-cases, Option-cases, Str, bytes, str_eq, is_empty, All, Result, ok, err,
  ok_injective, result-err-ne-ok, bind_ok, Exec, ◌>>=◌,
}
use mathlib.Core.Path.{subst}
use mathlib.Core.Bool.{true≢false}
use storage_gateway.Registry.{AccessKeyRow, ResolvedBucket, Error}
use storage_gateway.Backend.{Backend, ObjectRef, GetObjectInput, ListObjectsInput, PresignInput}
use storage_gateway.Registry.Db.Attempts.{some_injective}
use storage_gateway.Backend.Pool.{Pool, Providers, PoolError, build, lookup, get}
use storage_gateway.S3.Handler
use storage_gateway.S3.Handler.{
  Request, Response, World, Gateway, ask, take_backend, resolve_bucket, registry_err,
  internal_error, answer_preflight, or_respond, bucket_and_key, bare_status,
}
use storage_gateway.S3.Objects
use storage_gateway.S3.Listing
use storage_gateway.S3.Auth.{
  Outside, parse_auth, authenticate, auth_middleware, with_auth, with_row, with_secret, checked,
  reads_only,
}
use storage_gateway.S3.Signature.{ParsedAuth}
use storage_gateway.S3.Objects.Isolation.{then_keeps, guard_keeps, answer_keeps, resolved_keeps}
use storage_gateway.Backend.Pool.Fresh.{get_built}
use storage_gateway.S3.Auth.Admitted.{authenticate-Admitted}
use storage_gateway.S3.Routes.{
  Operation, cors_options, list_buckets, head_bucket, list_objects_v2, post_on_bucket, head_object,
  get_object, put_object, delete_object, post_on_key, routes, Decoders, handler, serve,
}

-- The route's method, as the table has it.
unfoldable pub method_of : Operation → Str
method_of cors_options = bytes "OPTIONS"
method_of list_buckets = bytes "GET"
method_of head_bucket = bytes "HEAD"
method_of list_objects_v2 = bytes "GET"
method_of post_on_bucket = bytes "POST"
method_of head_object = bytes "HEAD"
method_of get_object = bytes "GET"
method_of put_object = bytes "PUT"
method_of delete_object = bytes "DELETE"
method_of post_on_key = bytes "POST"

-- The table says so too.
routes_methods : All (λ (t : Str × Str × Operation). t.0 ≡ method_of t.2) routes
unfolding routes method_of
routes_methods =
    (refl, (refl, (refl, (refl, (refl, (refl, (refl, (refl, (refl, (refl, (refl, tt)))))))))))

or_respond_ok :
    {E A : Type 0} (f : E → Response) (res : Result E A) (a : A)
    → or_respond f res ≡ ok a
    → res ≡ ok a
or_respond_ok f (ok x) a h = ap ok (ok_injective h)
or_respond_ok f (err e) a h = absurd (result-err-ne-ok h)

module _ {S : Type 0} (Inv : S → Type 0) where
  -- The calls of a backend that read keep the property.
  pub record KeptByReads (be : Backend S) : Type 0 where
    pub head_object : (i : ObjectRef) (s : S) → Inv s → Inv (be.head_object i s).1
    pub get_object : (i : GetObjectInput) (s : S) → Inv s → Inv (be.get_object i s).1
    pub head_bucket : (bucket : Str) (s : S) → Inv s → Inv (be.head_bucket bucket s).1
    pub list_objects : (i : ListObjectsInput) (s : S) → Inv s → Inv (be.list_objects i s).1
    pub presign_url : (i : PresignInput) (s : S) → Inv s → Inv (be.presign_url i s).1

  -- Every backend of the pool, and every one that can be built, is such a backend.
  abbrev KeptByPool : Pool (Backend S) → Type 0
  KeptByPool p = All (λ (slot : ℕ × Backend S). KeptByReads slot.1) p

  abbrev KeptByNew : Providers (Backend S) → Type 0
  KeptByNew env = (rb : ResolvedBucket) (be : Backend S) → build env rb ≡ ok be → KeptByReads be

  lookup-KeptByReads :
      (id : ℕ) (p : Pool (Backend S)) (be : Backend S)
      → KeptByPool p
      → lookup id p ≡ some be
      → KeptByReads be
  unfolding lookup
  lookup-KeptByReads id [] be k h = cc
  lookup-KeptByReads id ((i, b) ∷ p) be (kb, k) h = elim (Bool-cases (i == id)) [
    | inl here ↦ subst KeptByReads (some_injective (rw here at h)) kb
    | inr later ↦ lookup-KeptByReads id p be k (rw later at h)
  ]

  built-KeptByReads :
      (env : Providers (Backend S)) (rb : ResolvedBucket) (p : Pool (Backend S)) (be : Backend S)
      (res : Result PoolError (Backend S))
      → KeptByNew env
      → lookup rb.store_id p ≡ none
      → build env rb ≡ res
      → (get env rb p).0 ≡ ok be
      → KeptByReads be
  unfolding get
  built-KeptByReads env rb p be (ok b) n missing e h =
      subst KeptByReads (ok_injective (ap (λ q. q.0) (sym (get_built env rb p b missing e)) ∙ h))
        (n rb b e)
  built-KeptByReads env rb p be (err x) n missing e h =
      absurd (result-err-ne-ok (rw (missing, e) at h))

  get-KeptByReads :
      (env : Providers (Backend S)) (rb : ResolvedBucket) (p : Pool (Backend S)) (be : Backend S)
      → KeptByPool p
      → KeptByNew env
      → (get env rb p).0 ≡ ok be
      → KeptByReads be
  unfolding get
  get-KeptByReads env rb p be k n h = elim (Option-cases (lookup rb.store_id p)) [
    | inl missing ↦ built-KeptByReads env rb p be (build env rb) n missing refl h
    | inr (b, there) ↦
        subst KeptByReads (ok_injective (rw there at h))
          (lookup-KeptByReads rb.store_id p b k there)
  ]

  module _ {M : Type 0} (gw : Gateway M S) (n : KeptByNew gw.providers) (r : Request) where
    take_keeps :
        (f : PoolError → Response) (rb : ResolvedBucket) (w : World M S)
        (g : Backend S → Exec (World M S) Response Response)
        → KeptByPool w.pool
        → Inv w.upstream
        → ((be : Backend S)
            → KeptByReads be
            → (v : World M S) → Inv v.upstream
            → Inv (g be v).1.upstream)
        → Inv ((take_backend gw f rb >>= g) w).1.upstream
    take_keeps f rb w g k i h =
        then_keeps Inv (take_backend gw f rb w).0 g (take_backend gw f rb w).1 i λ be e j.
          h be
            (get-KeptByReads gw.providers rb w.pool be k n
              (or_respond_ok f (get gw.providers rb w.pool).0 be e))
            (take_backend gw f rb w).1 j

    resolve-KeptByReads :
        (bucket : Str) (w : World M S) (rb : ResolvedBucket) (be : Backend S)
        → KeptByPool w.pool
        → (resolve_bucket gw r bucket w).0 ≡ ok (rb, be)
        → KeptByReads be
    unfolding resolve_bucket
    resolve-KeptByReads bucket w rb be k h =
        let v = (resolve_bucket gw r bucket w).1 in
        let a =
          bind_ok (ask (registry_err r) (gw.manager.resolve_bucket r.tenant bucket)) _ w v (rb, be)
            (ap (λ x. (x, v)) h) in
        let b = bind_ok (take_backend gw (λ _. internal_error r) a.0) _ _ v (rb, be) a.2 in
        subst KeptByReads
          (ap (λ (q : ResolvedBucket × Backend S). q.1) (ok_injective (ap (λ x. x.0) b.2)))
          (get-KeptByReads gw.providers a.0 w.pool b.0 k n
            (or_respond_ok (λ _. internal_error r) (get gw.providers a.0 w.pool).0 b.0 b.1))

    preflight-upstream :
        (res : Result Error (List Str)) (w : World M S)
        → (answer_preflight gw r res w).1.upstream ≡ w.upstream
    preflight-upstream (err e) w = refl
    preflight-upstream (ok origins) w = ground arith

    module _ (w : World M S) (k : KeptByPool w.pool) (i : Inv w.upstream) where
      list_buckets_keeps : Inv (Objects.list_buckets gw r w).1.upstream
      unfolding Objects.list_buckets
      list_buckets_keeps =
          then_keeps Inv
            (ask (λ _. internal_error r) (gw.manager.list_gateway_buckets r.tenant) w).0 _ _ i
            λ bs e j. j

      head_bucket_keeps : Inv (Objects.head_bucket gw r w).1.upstream
      unfolding Objects.head_bucket
      head_bucket_keeps =
          then_keeps Inv
            (ask Objects.head_bucket_err (gw.manager.resolve_bucket r.tenant (bucket_and_key r).0)
              w).0
            _ _ i
            λ rb e j.
              take_keeps (λ _. bare_status 500) rb _ _ k j
                λ be kept v inv.
                  answer_keeps Inv _ _ _ (kept.head_bucket rb.backend_bucket v.upstream inv)

      head_object_keeps : Inv (Objects.head_object gw r w).1.upstream
      unfolding Objects.head_object
      head_object_keeps =
          guard_keeps Inv (not (is_empty (bucket_and_key r).1)) (bare_status 400) _ w i (
            then_keeps Inv
              (ask Objects.head_object_err (gw.manager.resolve_bucket r.tenant (bucket_and_key r).0)
                w).0
              _ _ i
              λ rb e j.
                take_keeps (λ _. bare_status 500) rb _ _ k j
                  λ be kept v inv.
                    answer_keeps Inv _ _ _
                      (kept.head_object (Objects.object_ref r rb) v.upstream inv))

      list_objects_v2_keeps : Inv (Listing.list_objects_v2 gw r w).1.upstream
      unfolding Listing.list_objects_v2
      list_objects_v2_keeps =
          resolved_keeps Inv gw r w _
            (λ rb be e v inv. answer_keeps Inv _ _ _ (
              (resolve-KeptByReads (bucket_and_key r).0 w rb be k e).list_objects
                (Listing.list_input r rb) v.upstream inv))
            i

      fetched_keeps :
          (rb : ResolvedBucket) (be : Backend S) (b : Bool) (v : World M S)
          → KeptByReads be
          → Inv v.upstream
          → Inv (Objects.fetch_object gw b r rb be v).1.upstream
      unfolding Objects.redirect_object Objects.proxy_object
      fetched_keeps rb be true v kept inv =
          answer_keeps Inv _ _ _ (kept.presign_url (Objects.presign_input r rb) v.upstream inv)
      fetched_keeps rb be false v kept inv =
          answer_keeps Inv _ _ _ (kept.get_object (Objects.get_input r rb) v.upstream inv)

      get_object_keeps : Inv (Objects.get_object gw r w).1.upstream
      unfolding Objects.get_object
      get_object_keeps =
          guard_keeps Inv (not (is_empty (bucket_and_key r).1)) (Objects.invalid_argument r) _ w i (
            resolved_keeps Inv gw r w _
              (λ rb be e v inv.
                fetched_keeps rb be (Objects.redirects rb.presigned_mode) v
                  (resolve-KeptByReads (bucket_and_key r).0 w rb be k e) inv)
              i)

      cors_options_keeps : Inv (Handler.cors_options gw r w).1.upstream
      unfolding Handler.cors_options
      cors_options_keeps =
          subst Inv
            (sym (
              preflight-upstream
                (gw.manager.get_bucket_allowed_origins (bucket_and_key r).0 w.mgr).0
                (record w {
                  mgr = (gw.manager.get_bucket_allowed_origins (bucket_and_key r).0 w.mgr).1;
                })))
            i

-- The checks call the manager only.
module _ {M S : Type 0} (gw : Gateway M S) (out : Outside) (r : Request) where
  abbrev SameBut : World M S → World M S → Type 0
  SameBut w v = (v.pool ≡ w.pool) × (v.upstream ≡ w.upstream)

  checked-SameBut :
      (pa : ParsedAuth) (row : AccessKeyRow) (secret : Str) (w : World M S)
      → SameBut w (checked gw out r pa row secret w).1
  checked-SameBut pa row secret w = (ground arith, ground arith)

  with_secret-SameBut :
      (pa : ParsedAuth) (row : AccessKeyRow) (o : Option Str) (w : World M S)
      → SameBut w (with_secret gw out r pa row o w).1
  with_secret-SameBut pa row none w = (refl, refl)
  with_secret-SameBut pa row (some secret) w = checked-SameBut pa row secret w

  with_row-SameBut :
      (pa : ParsedAuth) (res : Result Error AccessKeyRow) (w : World M S)
      → SameBut w (with_row gw out r pa res w).1
  with_row-SameBut pa (err e) w = (refl, refl)
  with_row-SameBut pa (ok row) w = with_secret-SameBut pa row (out.decrypt row.secret_key_enc) w

  with_auth-SameBut : (o : Option ParsedAuth) (w : World M S) → SameBut w (with_auth gw out r o w).1
  with_auth-SameBut none w = (refl, refl)
  with_auth-SameBut (some pa) w =
      with_row-SameBut pa (gw.manager.lookup_access_key pa.access_key_id w.mgr).0
        (record w { mgr = (gw.manager.lookup_access_key pa.access_key_id w.mgr).1 })

  authenticate-SameBut : (w : World M S) → SameBut w (authenticate gw out r w).1
  unfolding authenticate
  authenticate-SameBut w = with_auth-SameBut (parse_auth r) w

module _ {M S : Type 0} (Inv : S → Type 0) (gw : Gateway M S) (out : Outside) (xml : Decoders) where
  handler_keeps :
      (op : Operation) (r : Request) (w : World M S)
      → KeptByNew Inv gw.providers
      → KeptByPool Inv w.pool
      → Inv w.upstream
      → reads_only r ≡ true
      → r.verb ≡ method_of op
      → Inv (handler gw out xml op r w).1.upstream
  unfolding handler method_of str_eq
  handler_keeps cors_options r w n k i h e = cors_options_keeps Inv gw n r w k i
  handler_keeps list_buckets r w n k i h e = list_buckets_keeps Inv gw n r w k i
  handler_keeps head_bucket r w n k i h e = head_bucket_keeps Inv gw n r w k i
  handler_keeps list_objects_v2 r w n k i h e = list_objects_v2_keeps Inv gw n r w k i
  handler_keeps head_object r w n k i h e = head_object_keeps Inv gw n r w k i
  handler_keeps get_object r w n k i h e = get_object_keeps Inv gw n r w k i
  handler_keeps post_on_bucket r w n k i h e = absurd (true≢false (sym (rw e at h)))
  handler_keeps put_object r w n k i h e = absurd (true≢false (sym (rw e at h)))
  handler_keeps delete_object r w n k i h e = absurd (true≢false (sym (rw e at h)))
  handler_keeps post_on_key r w n k i h e = absurd (true≢false (sym (rw e at h)))

  module _ (op : Operation) (r : Request) (w : World M S)
      (readonly : (pa : ParsedAuth) (row : AccessKeyRow)
        → parse_auth r ≡ some pa
        → (gw.manager.lookup_access_key pa.access_key_id w.mgr).0 ≡ ok row
        → row.readonly ≡ true) where
    behind_keeps :
        KeptByNew Inv gw.providers
        → KeptByPool Inv w.pool
        → Inv w.upstream
        → r.verb ≡ method_of op
        → Inv (auth_middleware gw out (handler gw out xml op) r w).1.upstream
    unfolding auth_middleware
    behind_keeps n k i e =
        let v = (authenticate gw out r w).1 in
        let same = authenticate-SameBut gw out r w in
        then_keeps Inv (authenticate gw out r w).0 _ v (subst Inv (sym same.1) i) λ row a j.
          let who = authenticate-Admitted gw out r w row a in
          handler_keeps op (record r { tenant = row.tenant_id }) v n
            (subst (KeptByPool Inv) (sym same.0) k) j
            (who.permitted (readonly who.pa row who.parsed who.found)) e

  -- A request whose key is read-only keeps every property of the upstreams that the reading calls of
  -- the gateway's backends keep: heading and getting an object, heading a bucket, listing, and signing
  -- a URL. This holds for every route of the S3 API and on every branch.
  pub serve-readonly :
      (op : Operation) (r : Request) (w : World M S)
      → ((pa : ParsedAuth) (row : AccessKeyRow)
          → parse_auth r ≡ some pa
          → (gw.manager.lookup_access_key pa.access_key_id w.mgr).0 ≡ ok row
          → row.readonly ≡ true)
      → KeptByNew Inv gw.providers
      → KeptByPool Inv w.pool
      → Inv w.upstream
      → r.verb ≡ method_of op
      → Inv (serve gw out xml op r w).1.upstream
  unfolding serve handler
  serve-readonly cors_options r w o n k i e = cors_options_keeps Inv gw n r w k i
  serve-readonly op r w o n k i e = behind_keeps op r w o n k i e
