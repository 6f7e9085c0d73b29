-- ===== src/Admin/Buckets.antt =====
-- internal/api/admin/buckets.go: the handlers of bucket mappings.
use storage_gateway.Prelude.{not, map, bytes, is_empty, pure, ◌>>=◌, ◌>>◌}
use storage_gateway.Admin.{
  Request, Response, mapping_body, mappings_body, write_json, no_content, to_bucket_mapping_dto,
}
use storage_gateway.Admin.Access.{
  Api, Handler, ask, guard, read_body, uuid_param, verify_store_ownership,
}

module _ {M S : Type 0} (api : Api M S) where
  unfoldable pub create_bucket_mapping : Request → Handler M S Response
  create_bucket_mapping r = do
    s ← verify_store_ownership api r
    req ← read_body (api.json.mapping r.body)
    guard (not (is_empty req.0)) 400 (bytes "gateway_bucket is required")
    guard (not (is_empty req.1)) 400 (bytes "backend_bucket is required")
    bm ← ask (api.manager.create_bucket_mapping r.fresh.row_id s.id req.0 req.1)
    pure (write_json 201 (mapping_body (to_bucket_mapping_dto bm)))

  unfoldable pub list_bucket_mappings : Request → Handler M S Response
  list_bucket_mappings r = do
    s ← verify_store_ownership api r
    bms ← ask (api.manager.list_bucket_mappings s.id)
    pure (write_json 200 (mappings_body (map to_bucket_mapping_dto bms)))

  unfoldable pub delete_bucket_mapping : Request → Handler M S Response
  delete_bucket_mapping r = do
    s ← verify_store_ownership api r
    id ← uuid_param api r (bytes "mappingID") (bytes "mapping_id")
    ask (api.manager.delete_bucket_mapping id s.id)
    pure no_content
