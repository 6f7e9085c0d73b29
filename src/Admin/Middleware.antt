-- ===== src/Admin/Middleware.antt =====
-- internal/api/admin/handler.go: the middleware in front of the handlers.
use storage_gateway.Prelude.{
  ◌||◌, not, List, [], ◌∷◌, ◌++◌, if◌then◌else◌, Str, bytes, str_eq, is_empty, mem_str, Result, ok,
  err, ◌>>◌,
}
use storage_gateway.S3.Handler.{World, get_value}
use storage_gateway.Admin.{Request, Response, no_content}
use storage_gateway.Admin.Access.{Handler, guard}

module _ {M S : Type 0} where
  unfoldable pub bearer_auth :
      Str → (Request → Handler M S Response) → Request → Handler M S Response
  bearer_auth token next r = do
    guard (str_eq (get_value (bytes "Authorization") r.headers) (bytes "Bearer " ++ token)) 401
        (bytes "invalid or missing admin token")
    next r

-- The headers that corsMiddleware sets before the next handler runs.
unfoldable pub cors_headers : List Str → Request → List (Str × Str)
cors_headers allowed r =
    let origin = get_value (bytes "Origin") r.headers in
    let wildcard = mem_str (b'*' ∷ []) allowed in
    let policy =
      (bytes "Access-Control-Allow-Methods", bytes "GET, POST, PUT, DELETE, OPTIONS")
      ∷ ((bytes "Access-Control-Allow-Headers", bytes "Authorization, Content-Type") ∷ []) in
    if is_empty origin || not (wildcard || mem_str origin allowed)
    then []
    else if wildcard
    then (bytes "Access-Control-Allow-Origin", b'*' ∷ []) ∷ policy
    else ((bytes "Access-Control-Allow-Origin", origin) ∷ ((bytes "Vary", bytes "Origin") ∷ policy))

abbrev pub with_headers : List (Str × Str) → Response → Response
with_headers hs res = record res { headers = hs ++ res.headers }

-- The response of a handler, whether raised or returned.
abbrev pub outcome : Result Response Response → Response
outcome (ok res) = res
outcome (err res) = res

module _ {M S : Type 0} where
  unfoldable pub cors_middleware :
      List Str → (Request → Handler M S Response) → Request → World M S → Response × World M S
  cors_middleware allowed next r w =
      let hs = cors_headers allowed r in
      let served = next r w in
      if str_eq r.verb (bytes "OPTIONS")
      then (with_headers hs no_content, w)
      else (with_headers hs (outcome served.0), served.1)
