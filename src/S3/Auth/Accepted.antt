-- ===== src/S3/Auth/Accepted.antt =====
-- internal/api/s3/auth.go: a request that is signed as the protocol says is let through.
use storage_gateway.Prelude.{
  ◌≡◌, refl, sym, ◌∙◌, inl, inr, true, false, ◌||◌, not, some, List, ◌∷◌, Bool-cases, Str, bytes,
  str_eq, str_eq_iff, ok, Exec,
}
use mathlib.Core.List.{Perm}
use storage_gateway.Prelude.Int.{ℤ, ◌+ℤ◌, ltb_ℤ}
use storage_gateway.Registry.{AccessKeyRow}
use storage_gateway.S3.Handler.{Request, Response, World, Gateway}
use storage_gateway.S3.Signature.{ParsedAuth, compute_signature}
use storage_gateway.S3.Signature.Order.{compute_signature-presigned}
use storage_gateway.S3.Auth.{
  Outside, parse_auth, authenticate, auth_middleware, reads_only, nanoseconds,
}

module _ {M S : Type 0} (gw : Gateway M S) (out : Outside) (w : World M S) where
  -- What a client and the gateway agree on: the request's credentials, the row of its key, and the
  -- secret that the row decrypts to.
  pub record IsSigned (r : Request) (pa : ParsedAuth) (row : AccessKeyRow) (m : M) : Type 0 where
    pub parsed : parse_auth r ≡ some pa
    pub found : gw.manager.lookup_access_key pa.access_key_id w.mgr ≡ (ok row, m)
    pub secret : Str
    pub opened : out.decrypt row.secret_key_enc ≡ some secret
    pub permitted : row.readonly ≡ true → reads_only r ≡ true

  allowed :
      (r : Request) (row : AccessKeyRow)
      → (row.readonly ≡ true → reads_only r ≡ true)
      → (not row.readonly || reads_only r) ≡ true
  allowed r row h = elim (Bool-cases row.readonly) [
    | inl only ↦ rw (only, h only) refl
    | inr any' ↦ rw any' refl
  ]

  -- A presigned request, whose credentials parse, whose key the manager finds with a secret that
  -- decrypts, and which only reads if the key is read-only, is let through until its life is over,
  -- where its signature is that of the request before the signature was put into its query, wherever
  -- it was put and in whatever order the pairs are sent. The next handler runs with the tenant of the
  -- key, and the checks change no state but the manager's.
  pub auth_middleware-presigned :
      (next : Request → Exec (World M S) Response Response) (r : Request) (pa : ParsedAuth)
      (row : AccessKeyRow) (m : M) (t : ℤ) (v : Str) (unsigned : List (Str × Str))
      (h : IsSigned r pa row m)
      → pa.presigned ≡ true
      → out.parse_time pa.date_time ≡ some t
      → ltb_ℤ (t +ℤ nanoseconds pa.expires) out.now ≡ false
      → Perm r.query ((bytes "X-Amz-Signature", v) ∷ unsigned)
      → pa.signature ≡ compute_signature out.digests (record r { query = unsigned }) pa h.secret
      → auth_middleware gw out next r w
        ≡ next (record r { tenant = row.tenant_id }) (record w { mgr = m })
  unfolding auth_middleware authenticate
  auth_middleware-presigned next r pa row m t v unsigned h p d e q s =
      let same =
        compute_signature-presigned out.digests (record r { query = unsigned }) pa h.secret v
          r.query p q in
      let matching : str_eq pa.signature (compute_signature out.digests r pa h.secret) ≡ true =
        (str_eq_iff pa.signature (compute_signature out.digests r pa h.secret)).1 (s ∙ sym same) in
      rw (h.parsed, h.found, h.opened, matching, allowed r row h.permitted, p, d, e) refl
