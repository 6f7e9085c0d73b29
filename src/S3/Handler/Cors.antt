-- ===== src/S3/Handler/Cors.antt =====
-- internal/api/s3/handler.go: which origins the CORS headers admit.
use storage_gateway.Prelude.{
  ◌≡◌, refl, true, List, [], ◌∷◌, Str, bytes, str_eq, str_eq_iff, any, Result, ok, err, Bool-cases,
  inl, inr, ◌⊎◌, arith,
}
use storage_gateway.Registry.{Error}
use storage_gateway.S3.Handler.{
  Request, Response, World, Gateway, get_value, origin_allowed, cors_options, answer_preflight,
  bucket_and_key,
}

-- A list of origins admits an origin: it is on the list, or the list has the star.
abbrev pub IsAdmitted : Str → List Str → Type 0
IsAdmitted origin [] = ⊥
IsAdmitted origin (ao ∷ os) = (ao ≡ b'*' ∷ []) ⊎ (ao ≡ origin) ⊎ IsAdmitted origin os

origin_allowed-IsAdmitted :
    (origin : Str) (os : List Str) → origin_allowed origin os ≡ true → IsAdmitted origin os
unfolding origin_allowed any
origin_allowed-IsAdmitted origin [] h = ground arith
origin_allowed-IsAdmitted origin (ao ∷ os) h = elim (Bool-cases (str_eq ao (b'*' ∷ []))) [
  | inl star ↦ inl ((str_eq_iff ao (b'*' ∷ [])).0 star)
  | inr plain ↦ elim (Bool-cases (str_eq ao origin)) [
    | inl same ↦ inr (inl ((str_eq_iff ao origin).0 same))
    | inr differs ↦ inr (inr (origin_allowed-IsAdmitted origin os (rw (plain, differs) at h)))
  ]
]

module _ {M S : Type 0} (gw : Gateway M S) (r : Request) where
  admits :
      (res : Result Error (List Str)) (w : World M S) (out : Response)
      → (answer_preflight gw r res w).0 ≡ ok out
      → (os : List Str) × (res ≡ ok os) × IsAdmitted (get_value (bytes "Origin") r.headers) os
  admits (err e) w out h = ground arith
  admits (ok os) w out h = (
    os,
    refl,
    elim (Bool-cases (origin_allowed (get_value (bytes "Origin") r.headers) os)) [
      | inl granted ↦ origin_allowed-IsAdmitted (get_value (bytes "Origin") r.headers) os granted
      | inr denied ↦ ground arith
    ],
  )

  -- A preflight request that is granted is for a bucket whose allowed origins the manager gave, and
  -- the request's origin is one of them, or the star is.
  pub cors_options-IsAdmitted :
      (w : World M S) (out : Response)
      → (cors_options gw r w).0 ≡ ok out
      → (os : List Str) × ((gw.manager.get_bucket_allowed_origins (bucket_and_key r).0 w.mgr).0
          ≡ ok os)
        × IsAdmitted (get_value (bytes "Origin") r.headers) os
  unfolding cors_options
  cors_options-IsAdmitted w out h =
      admits (gw.manager.get_bucket_allowed_origins (bucket_and_key r).0 w.mgr).0
        (record w { mgr = (gw.manager.get_bucket_allowed_origins (bucket_and_key r).0 w.mgr).1 })
        out h
