-- ===== src/S3/Auth/Admitted.antt =====
-- internal/api/s3/auth.go: what a request has shown when a handler runs for it.
use storage_gateway.Prelude.{
  ok_injective, ◌≡◌, refl, Bool, true, false, not, ◌||◌, Option, none, some, Str, bytes, str_eq,
  str_eq_iff, Result, ok, err, Exec, Bool-cases, inl, inr, arith, ◌>>◌, continue, pure,
}
use storage_gateway.Prelude.Int.{ℤ, ◌+ℤ◌, ltb_ℤ}
use mathlib.Core.Path.{subst}
use storage_gateway.Registry.{AccessKeyRow, Error}
use storage_gateway.S3.Handler.{Request, Response, World, Gateway, guard, write_s3_error}
use storage_gateway.S3.Signature.{ParsedAuth, compute_signature}
use storage_gateway.S3.Auth.{
  Outside, parse_auth, authenticate, auth_middleware, with_auth, with_row, with_secret, checked,
  check_expiry, expiry_of, in_time, nanoseconds, reads_only,
}

module _ {M S B : Type 0} where
  then_ok :
      {A : Type 0} (res : Result Response A) (f : A → Exec (World M S) Response B) (v : World M S)
      (b : B)
      → (continue res f v).0 ≡ ok b
      → (a : A) × (res ≡ ok a) × ((f a v).0 ≡ ok b)
  then_ok (ok a) f v b h = (a, refl, h)
  then_ok (err e) f v b h = ground arith

  guard_passed :
      (t : Bool) (e : Response) (m : Exec (World M S) Response B) (v : World M S) (b : B)
      → ((guard t e >> m) v).0 ≡ ok b
      → (t ≡ true) × ((m v).0 ≡ ok b)
  guard_passed true e m v b h = (refl, h)
  guard_passed false e m v b h = ground arith

module _ {M S : Type 0} (gw : Gateway M S) (out : Outside) (r : Request) where
  -- The date of a presigned request and its life are not over.
  abbrev pub IsTimely : ParsedAuth → Type 0
  IsTimely pa =
      (t : ℤ) × (out.parse_time pa.date_time ≡ some t)
      × (ltb_ℤ (t +ℤ nanoseconds pa.expires) out.now ≡ false)

  -- The request's credentials, its key's row and secret, as the checks saw them.
  pub record Admitted (w : World M S) (row : AccessKeyRow) : Type 0 where
    pub pa : ParsedAuth
    pub secret : Str
    pub parsed : parse_auth r ≡ some pa
    pub found : (gw.manager.lookup_access_key pa.access_key_id w.mgr).0 ≡ ok row
    pub opened : out.decrypt row.secret_key_enc ≡ some secret
    pub signed : pa.signature ≡ compute_signature out.digests r pa secret
    pub timely : pa.presigned ≡ true → IsTimely pa
    pub permitted : row.readonly ≡ true → reads_only r ≡ true

  in_time-IsTimely :
      (pa : ParsedAuth) (o : Option ℤ) (v : World M S) (u : Unit {0})
      → out.parse_time pa.date_time ≡ o
      → (in_time gw out r pa o v).0 ≡ ok u
      → IsTimely pa
  in_time-IsTimely pa none v u e h = ground arith
  in_time-IsTimely pa (some t) v u e h =
      elim (Bool-cases (ltb_ℤ (t +ℤ nanoseconds pa.expires) out.now)) [
        | inl late ↦ ground arith
        | inr early ↦ (t, e, early)
      ]

  expiry_of-IsTimely :
      (pa : ParsedAuth) (b : Bool) (v : World M S) (u : Unit {0})
      → (expiry_of gw out r pa b v).0 ≡ ok u
      → b ≡ true
      → IsTimely pa
  expiry_of-IsTimely pa true v u h e = in_time-IsTimely pa (out.parse_time pa.date_time) v u refl h
  expiry_of-IsTimely pa false v u h e = ground arith

  module _ (w v : World M S) (who : AccessKeyRow) where
    checked-Admitted :
        (pa : ParsedAuth) (row : AccessKeyRow) (secret : Str)
        → parse_auth r ≡ some pa
        → (gw.manager.lookup_access_key pa.access_key_id w.mgr).0 ≡ ok row
        → out.decrypt row.secret_key_enc ≡ some secret
        → (checked gw out r pa row secret v).0 ≡ ok who
        → Admitted w who
    checked-Admitted pa row secret p f d h =
        let timed =
          then_ok (check_expiry gw out r pa v).0
            (λ _.
              guard (str_eq pa.signature (compute_signature out.digests r pa secret))
                (write_s3_error r 403 (bytes "SignatureDoesNotMatch"))
              >> (guard (not row.readonly || reads_only r)
                    (write_s3_error r 403 (bytes "AccessDenied"))
                  >> pure row))
            (check_expiry gw out r pa v).1 who h in
        let signed =
          guard_passed (str_eq pa.signature (compute_signature out.digests r pa secret))
            (write_s3_error r 403 (bytes "SignatureDoesNotMatch"))
            (guard (not row.readonly || reads_only r) (write_s3_error r 403 (bytes "AccessDenied"))
              >> pure row)
            (check_expiry gw out r pa v).1 who timed.2 in
        let allowed =
          guard_passed (not row.readonly || reads_only r)
            (write_s3_error r 403 (bytes "AccessDenied")) (pure row) (check_expiry gw out r pa v).1
            who signed.1 in
        subst (Admitted w) (ok_injective allowed.1) (record {
          pa = pa;
          secret = secret;
          parsed = p;
          found = f;
          opened = d;
          signed = (str_eq_iff pa.signature (compute_signature out.digests r pa secret)).0 signed.0;
          timely = expiry_of-IsTimely pa pa.presigned v timed.0 timed.1;
          permitted = λ k. ground arith;
        })

    with_secret-Admitted :
        (pa : ParsedAuth) (row : AccessKeyRow) (o : Option Str)
        → parse_auth r ≡ some pa
        → (gw.manager.lookup_access_key pa.access_key_id w.mgr).0 ≡ ok row
        → out.decrypt row.secret_key_enc ≡ o
        → (with_secret gw out r pa row o v).0 ≡ ok who
        → Admitted w who
    with_secret-Admitted pa row none p f d h = ground arith
    with_secret-Admitted pa row (some secret) p f d h = checked-Admitted pa row secret p f d h

    with_row-Admitted :
        (pa : ParsedAuth) (res : Result Error AccessKeyRow)
        → parse_auth r ≡ some pa
        → (gw.manager.lookup_access_key pa.access_key_id w.mgr).0 ≡ res
        → (with_row gw out r pa res v).0 ≡ ok who
        → Admitted w who
    with_row-Admitted pa (ok row) p f h =
        with_secret-Admitted pa row (out.decrypt row.secret_key_enc) p f refl h
    with_row-Admitted pa (err e) p f h = ground arith

  with_auth-Admitted :
      (w : World M S) (who : AccessKeyRow) (o : Option ParsedAuth)
      → parse_auth r ≡ o
      → (with_auth gw out r o w).0 ≡ ok who
      → Admitted w who
  with_auth-Admitted w who none p h = ground arith
  with_auth-Admitted w who (some pa) p h =
      with_row-Admitted w
        (record w { mgr = (gw.manager.lookup_access_key pa.access_key_id w.mgr).1 }) who pa
        (gw.manager.lookup_access_key pa.access_key_id w.mgr).0 p refl h

  -- A request that the checks let through names a key whose row the manager gave and whose secret
  -- decrypts, carries the signature that computeSignature gives for that secret, is not expired if it is
  -- presigned, and only reads if the key is read-only.
  pub authenticate-Admitted :
      (w : World M S) (who : AccessKeyRow) → (authenticate gw out r w).0 ≡ ok who → Admitted w who
  unfolding authenticate
  authenticate-Admitted w who h = with_auth-Admitted w who (parse_auth r) refl h

  -- A request that any of the checks refuses never reaches the next handler: the response and the
  -- state are those of the check.
  pub auth_middleware-refused :
      (next : Request → Exec (World M S) Response Response) (w v : World M S) (res : Response)
      → authenticate gw out r w ≡ (err res, v)
      → auth_middleware gw out next r w ≡ (err res, v)
  auth_middleware-refused next w v res h = unfold auth_middleware in rw h refl
