-- ===== src/Admin/Access/Passed.antt =====
-- internal/api/admin: what a handler that came to its end went through.
use storage_gateway.Prelude.{
  ℕ, ◌≡◌, refl, ap, ◌∙◌, Bool, true, false, Option, none, some, ◌==◌, Str, bytes, Result, ok, err,
  ok_injective, err-ne-ok, result-err-ne-ok, bind_ok, Exec, pure, continue, ◌>>=◌, ◌>>◌,
}
use storage_gateway.Registry.{Error, Store}
use storage_gateway.S3.Handler.{World, get_value}
use storage_gateway.Admin.{Request, Response, Decoded, end_of_body, malformed, decoded, handle_err}
use storage_gateway.Admin.Access.{
  Api, Handler, or_respond, ask, guard, body_or, try_to, uuid_param, id_or, verify_store_ownership,
}

or_respond_ok :
    {E A : Type 0} (f : E → Response) (res : Result E A) (a : A)
    → or_respond f res ≡ ok a
    → res ≡ ok a
or_respond_ok f (ok x) a h = ap ok (ok_injective h)
or_respond_ok f (err e) a h = absurd (result-err-ne-ok h)

module _ {M S A B : Type 0} (w v : World M S) (b : B) where
  pub ask_ok :
      (m : Exec M Error A) (f : A → Handler M S B)
      → (ask m >>= f) w ≡ (ok b, v)
      → (a : A) × ((m w.mgr).0 ≡ ok a) × (f a (record w { mgr = (m w.mgr).1 }) ≡ (ok b, v))
  ask_ok m f h =
      let step = bind_ok (ask m) f w v b h in
      (step.0, or_respond_ok handle_err (m w.mgr).0 step.0 step.1, step.2)

  pub body_ok :
      (message : Str) (d : Decoded A) (f : A → Handler M S B)
      → (body_or message d >>= f) w ≡ (ok b, v)
      → (a : A) × (d ≡ decoded a) × (f a w ≡ (ok b, v))
  body_ok message (decoded a) f h = (a, refl, h)
  body_ok message malformed f h = absurd (err-ne-ok h)
  body_ok message end_of_body f h = absurd (err-ne-ok h)

  pub try_ok :
      {E : Type 0} (message : Str) (res : Result E A) (f : A → Handler M S B)
      → (try_to message res >>= f) w ≡ (ok b, v)
      → (a : A) × (res ≡ ok a) × (f a w ≡ (ok b, v))
  try_ok message (ok a) f h = (a, refl, h)
  try_ok message (err e) f h = absurd (err-ne-ok h)

module _ {M S B : Type 0} (w v : World M S) (b : B) where
  pub guard_ok :
      (t : Bool) (status : ℕ) (message : Str) (f : Handler M S B)
      → (guard t status message >> f) w ≡ (ok b, v)
      → (t ≡ true) × (f w ≡ (ok b, v))
  guard_ok true status message f h = (refl, h)
  guard_ok false status message f h = absurd (err-ne-ok h)

  id_ok :
      (name : Str) (o : Option ℕ) (f : ℕ → Handler M S B)
      → (id_or name o >>= f) w ≡ (ok b, v)
      → (id : ℕ) × (o ≡ some id) × (f id w ≡ (ok b, v))
  id_ok name (some id) f h = (id, refl, h)
  id_ok name none f h = absurd (err-ne-ok h)

  pub param_ok :
      (api : Api M S) (r : Request) (key name : Str) (f : ℕ → Handler M S B)
      → (uuid_param api r key name >>= f) w ≡ (ok b, v)
      → (id : ℕ) × (api.uuids.parse (get_value key r.params) ≡ some id) × (f id w ≡ (ok b, v))
  unfolding uuid_param
  param_ok api r key name f h = id_ok name (api.uuids.parse (get_value key r.params)) f h

module _ {M S B : Type 0} (w v : World M S) (b : B) (api : Api M S) (r : Request) where
  -- The path names a store of the tenant that it names, and the rest ran on that store.
  pub own_ok :
      (f : Store → Handler M S B)
      → (verify_store_ownership api r >>= f) w ≡ (ok b, v)
      → (tenant : ℕ) × (id : ℕ) × (s : Store) × (api.uuids.parse
            (get_value (bytes "storeID") r.params)
          ≡ some id)
        × ((api.manager.get_store id w.mgr).0 ≡ ok s)
        × ((s.tenant_id == tenant) ≡ true)
        × (f s (record w { mgr = (api.manager.get_store id w.mgr).1 }) ≡ (ok b, v))
  unfolding verify_store_ownership
  own_ok f h =
      let whole = bind_ok (verify_store_ownership api r) f w v b h in
      let left = (verify_store_ownership api r w).1 in
      let t =
        param_ok w left whole.0 api r (bytes "tenantID") (bytes "tenant_id") _
          (ap (λ x. (x, left)) whole.1) in
      let i = param_ok w left whole.0 api r (bytes "storeID") (bytes "store_id") _ t.2 in
      let s = ask_ok w left whole.0 (api.manager.get_store i.0) _ i.2 in
      let now : World M S = record w { mgr = (api.manager.get_store i.0 w.mgr).1 } in
      let g =
        guard_ok now left whole.0 (s.0.tenant_id == t.0) 404 (bytes "store not found") (pure s.0)
          s.2 in
      (t.0, i.0, s.0, i.1, s.1, g.0, ap (λ p. continue p.0 f p.1) g.1 ∙ whole.2)

module _ {M S : Type 0} (api : Api M S) (r : Request) (w : World M S) where
  pub own_lookup :
      (tenant id : ℕ) (m : M) (s : Store)
      → api.uuids.parse (get_value (bytes "tenantID") r.params) ≡ some tenant
      → api.uuids.parse (get_value (bytes "storeID") r.params) ≡ some id
      → api.manager.get_store id w.mgr ≡ (ok s, m)
      → verify_store_ownership api r w
        ≡ (guard (s.tenant_id == tenant) 404 (bytes "store not found") >> pure s)
            (record w { mgr = m })
  unfolding verify_store_ownership uuid_param
  own_lookup tenant id m s t i g = rw (t, i, g) refl
