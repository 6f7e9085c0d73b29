-- ===== src/S3/Routes.antt =====
-- internal/api/s3/handler.go: New. The matching of a path with a pattern is package chi's; a request
-- comes here with the operation whose method and pattern it matched.
pub mod ReadOnly
use storage_gateway.Prelude.{
  ℕ, zero, suc, ◌+◌, ◌-◌, ◌*◌, ◌/◌, ◌%◌, ◌^◌, ◌≤◌, ◌<◌, ◌≡◌, refl, sym, ap, ◌∙◌, fun_ext, ◌≢◌, ◌↔◌,
  ◌⊎◌, inl, inr, Bool, true, false, ◌&&◌, ◌||◌, not, Option, none, some, List, [], ◌∷◌, ◌++◌, map,
  append_assoc, append-nil, arith, ltb, leb, ◌==◌, if◌then◌else◌, Bool-cases, Option-cases, ltb→lt,
  lt→ltb, leb→le, Str, bytes, str_eq, str_eq_iff, str_eq_refl, is_empty, sort_strings, mem_str,
  str_leb, has_prefix, trim_prefix, cut_byte, IsFree, All, filter, find, any, length, take, drop,
  length-append, length-drop, take-append, drop-append, Result, ok, err, ok_injective, err-ne-ok,
  result-err-ne-ok, bind_ok, continue_ok, Exec, pure, raise, lift, continue, ◌>>=◌, ◌>>◌,
}
use storage_gateway.Backend.{CompletedPart}
use storage_gateway.S3.Handler
use storage_gateway.S3.Handler.{Request, Response, World, Gateway}
use storage_gateway.S3.Objects
use storage_gateway.S3.Objects.{DeleteRequest}
use storage_gateway.S3.Multipart
use storage_gateway.S3.Listing
use storage_gateway.S3.Auth.{Outside, auth_middleware}

-- The handlers that the routes name.
pub data Operation : Type 0 where
  cors_options list_buckets head_bucket list_objects_v2 post_on_bucket : Operation
  head_object get_object put_object delete_object post_on_key : Operation

-- Method, pattern and handler of each route.
unfoldable pub routes : List (Str × Str × Operation)
routes =
    (bytes "OPTIONS", bytes "/{bucket}", cors_options)
    ∷ (bytes "OPTIONS", bytes "/{bucket}/*", cors_options)
    ∷ (bytes "GET", bytes "/", list_buckets)
    ∷ (bytes "HEAD", bytes "/{bucket}", head_bucket)
    ∷ (bytes "GET", bytes "/{bucket}", list_objects_v2)
    ∷ (bytes "POST", bytes "/{bucket}", post_on_bucket)
    ∷ (bytes "HEAD", bytes "/{bucket}/*", head_object)
    ∷ (bytes "GET", bytes "/{bucket}/*", get_object)
    ∷ (bytes "PUT", bytes "/{bucket}/*", put_object)
    ∷ (bytes "DELETE", bytes "/{bucket}/*", delete_object)
    ∷ (bytes "POST", bytes "/{bucket}/*", post_on_key)
    ∷ []

-- What decodes the XML of a multi-object delete and of a completion.
pub record Decoders : Type 0 where
  pub delete : Str → Option DeleteRequest
  pub complete : Str → Option (List CompletedPart)

module _ {M S : Type 0} (gw : Gateway M S) (out : Outside) (xml : Decoders) where
  unfoldable pub handler : Operation → Request → Exec (World M S) Response Response
  handler cors_options = Handler.cors_options gw
  handler list_buckets = Objects.list_buckets gw
  handler head_bucket = Objects.head_bucket gw
  handler list_objects_v2 = Listing.list_objects_v2 gw
  handler post_on_bucket = Objects.post_on_bucket gw xml.delete
  handler head_object = Objects.head_object gw
  handler get_object = Objects.get_object gw
  handler put_object = Objects.put_object gw
  handler delete_object = Objects.delete_object gw
  handler post_on_key = Multipart.post_on_key gw xml.complete

  -- Every route but the preflight is behind authMiddleware.
  unfoldable pub serve : Operation → Request → Exec (World M S) Response Response
  serve cors_options r = handler cors_options r
  serve op r = auth_middleware gw out (handler op) r
