-- ===== src/S3/Objects/Isolation.antt =====
-- internal/api/s3/objects.go: a request touches the upstream only under the prefix of its bucket.
use storage_gateway.Prelude.{
  ◌≡◌, refl, sym, Bool, true, false, not, [], ◌∷◌, ◌++◌, Str, bytes, is_empty, has_prefix, Result,
  ok, err, Exec, ◌>>=◌, ◌>>◌, continue, pure, arith,
}
use mathlib.Core.Path.{subst}
use storage_gateway.Registry.{ResolvedBucket, prefix_key}
use storage_gateway.Registry.Prefix.{prefix_key-scoped}
use storage_gateway.Backend.{Backend, ObjectRef, GetObjectInput, PutObjectInput, PresignInput}
use storage_gateway.S3.Handler.{
  Request, Response, World, Gateway, bucket_and_key, guard, resolve_bucket, or_respond, backend_err,
  internal_error, write_s3_error, get_value,
}
use storage_gateway.S3.Objects.{
  get_object, do_put_object, do_delete_object, redirect_object, proxy_object, object_response,
  fetch_object, put_at, delete_at, put_input, get_input, object_ref, presign_input, stored,
  no_content, redirect_response, redirects,
}

module _ {S : Type 0} (Inv : S → Type 0) where
  abbrev InScope : ResolvedBucket → Str → Str → Type 0
  InScope rb bucket key =
      (bucket ≡ rb.backend_bucket) × (has_prefix key (rb.backend_prefix ++ b'/' ∷ []) ≡ true)

  -- The bucket has a prefix, and its backend keeps the property on calls for keys under it.
  pub record IsConfined (rb : ResolvedBucket) (be : Backend S) : Type 0 where
    pub scoped : is_empty rb.backend_prefix ≡ false
    pub head_keeps :
        (i : ObjectRef) (s : S) → InScope rb i.bucket i.key → Inv s → Inv (be.head_object i s).1
    pub get_keeps :
        (i : GetObjectInput) (s : S) → InScope rb i.bucket i.key → Inv s → Inv (be.get_object i s).1
    pub put_keeps :
        (i : PutObjectInput) (s : S) → InScope rb i.bucket i.key → Inv s → Inv (be.put_object i s).1
    pub delete_keeps :
        (i : ObjectRef) (s : S) → InScope rb i.bucket i.key → Inv s → Inv (be.delete_object i s).1
    pub presign_keeps :
        (i : PresignInput) (s : S) → InScope rb i.bucket i.key → Inv s → Inv (be.presign_url i s).1

  module _ {M : Type 0} where
    -- The rest of a handler keeps the property, whatever the part before it answered.
    pub then_keeps :
        {A B : Type 0} (res : Result Response A) (f : A → Exec (World M S) Response B)
        (w : World M S)
        → Inv w.upstream
        → ((a : A) → res ≡ ok a → Inv w.upstream → Inv (f a w).1.upstream)
        → Inv (continue res f w).1.upstream
    then_keeps (ok a) f w i h = h a refl i
    then_keeps (err e) f w i h = i

    pub guard_keeps :
        {B : Type 0} (b : Bool) (e : Response) (m : Exec (World M S) Response B) (w : World M S)
        → Inv w.upstream
        → Inv (m w).1.upstream
        → Inv ((guard b e >> m) w).1.upstream
    guard_keeps true e m w i h = h
    guard_keeps false e m w i h = i

    -- A last call of the upstream and the response that is made of its result.
    pub answer_keeps :
        {A : Type 0} (res : Result Response A) (f : A → Response) (w : World M S)
        → Inv w.upstream
        → Inv (continue res (λ a. pure (f a)) w).1.upstream
    answer_keeps (ok a) f w i = i
    answer_keeps (err e) f w i = i

    module _ (gw : Gateway M S) (r : Request) where
      resolve_bucket-upstream :
          (bucket : Str) (w : World M S) → (resolve_bucket gw r bucket w).1.upstream ≡ w.upstream
      unfolding resolve_bucket
      resolve_bucket-upstream bucket w = ground arith

      module _ (rb : ResolvedBucket) (be : Backend S) (h : IsConfined rb be) (v : World M S) where
        in_scope : InScope rb rb.backend_bucket (prefix_key rb (bucket_and_key r).1)
        in_scope = (refl, prefix_key-scoped rb (bucket_and_key r).1 h.scoped)

        put_at_keeps : Inv v.upstream → Inv (put_at gw r rb be v).1.upstream
        unfolding put_at
        put_at_keeps i =
            answer_keeps (or_respond (backend_err r) (be.put_object (put_input r rb) v.upstream).0)
              (stored r) (record v { upstream = (be.put_object (put_input r rb) v.upstream).1 })
              (h.put_keeps (put_input r rb) v.upstream in_scope i)

        delete_at_keeps : Inv v.upstream → Inv (delete_at gw r rb be v).1.upstream
        unfolding delete_at
        delete_at_keeps i =
            answer_keeps
              (or_respond (backend_err r) (be.delete_object (object_ref r rb) v.upstream).0)
              (λ _. no_content r)
              (record v { upstream = (be.delete_object (object_ref r rb) v.upstream).1 })
              (h.delete_keeps (object_ref r rb) v.upstream in_scope i)

        fetch_keeps : (b : Bool) → Inv v.upstream → Inv (fetch_object gw b r rb be v).1.upstream
        unfolding redirect_object proxy_object
        fetch_keeps true i =
            answer_keeps
              (or_respond (λ _. internal_error r)
                (be.presign_url (presign_input r rb) v.upstream).0)
              redirect_response
              (record v { upstream = (be.presign_url (presign_input r rb) v.upstream).1 })
              (h.presign_keeps (presign_input r rb) v.upstream in_scope i)
        fetch_keeps false i =
            answer_keeps (or_respond (backend_err r) (be.get_object (get_input r rb) v.upstream).0)
              (object_response r rb)
              (record v { upstream = (be.get_object (get_input r rb) v.upstream).1 })
              (h.get_keeps (get_input r rb) v.upstream in_scope i)

      module _ (w : World M S) where
        -- What a handler does with the bucket that it resolves.
        pub resolved_keeps :
            (f : ResolvedBucket × Backend S → Exec (World M S) Response Response)
            → ((rb : ResolvedBucket) (be : Backend S)
                → (resolve_bucket gw r (bucket_and_key r).0 w).0 ≡ ok (rb, be)
                → (v : World M S) → Inv v.upstream
                → Inv (f (rb, be) v).1.upstream)
            → Inv w.upstream
            → Inv ((resolve_bucket gw r (bucket_and_key r).0 >>= f) w).1.upstream
        resolved_keeps f k i =
            then_keeps (resolve_bucket gw r (bucket_and_key r).0 w).0 f
              (resolve_bucket gw r (bucket_and_key r).0 w).1
              (subst Inv (sym (resolve_bucket-upstream (bucket_and_key r).0 w)) i)
              λ target e j. k target.0 target.1 e (resolve_bucket gw r (bucket_and_key r).0 w).1 j

        module _
            (h : (rb : ResolvedBucket) (be : Backend S)
              → (resolve_bucket gw r (bucket_and_key r).0 w).0 ≡ ok (rb, be)
              → IsConfined rb be) where
          -- For a request whose bucket has a key prefix, and for any property of the upstream that
          -- the bucket's backend keeps on calls in its own bucket for keys under the prefix, getting,
          -- storing and deleting an object keep that property, on every branch.
          pub object_requests-confined :
              Inv w.upstream
              → Inv (get_object gw r w).1.upstream
                × Inv (do_put_object gw r w).1.upstream
                × Inv (do_delete_object gw r w).1.upstream
          unfolding get_object do_put_object do_delete_object
          object_requests-confined i = (
            guard_keeps (not (is_empty (bucket_and_key r).1)) _
                (resolve_bucket gw r (bucket_and_key r).0 >>= λ t.
                  fetch_object gw (redirects t.0.presigned_mode) r t.0 t.1)
                w i
                (resolved_keeps (λ t. fetch_object gw (redirects t.0.presigned_mode) r t.0 t.1)
                  (λ rb be e v. fetch_keeps rb be (h rb be e) v (redirects rb.presigned_mode)) i),
            guard_keeps (not (is_empty (bucket_and_key r).1)) _
                (guard (is_empty (get_value (bytes "X-Amz-Copy-Source") r.headers))
                    (write_s3_error r 501 (bytes "NotImplemented"))
                  >> (resolve_bucket gw r (bucket_and_key r).0 >>= λ t. put_at gw r t.0 t.1))
                w i
                (guard_keeps (is_empty (get_value (bytes "X-Amz-Copy-Source") r.headers)) _
                  (resolve_bucket gw r (bucket_and_key r).0 >>= λ t. put_at gw r t.0 t.1) w i
                  (resolved_keeps (λ t. put_at gw r t.0 t.1)
                    (λ rb be e. put_at_keeps rb be (h rb be e)) i)),
            guard_keeps (not (is_empty (bucket_and_key r).1)) _
                (resolve_bucket gw r (bucket_and_key r).0 >>= λ t. delete_at gw r t.0 t.1) w i
                (resolved_keeps (λ t. delete_at gw r t.0 t.1)
                  (λ rb be e. delete_at_keeps rb be (h rb be e)) i),
          )
