-- ===== src/Admin/Tenants.antt =====
-- internal/api/admin/tenants.go: the handlers of tenants.
use storage_gateway.Prelude.{not, map, bytes, is_empty, pure, ◌>>=◌, ◌>>◌}
use storage_gateway.Admin.{Request, Response, tenant_body, tenants_body, write_json, to_tenant_dto}
use storage_gateway.Admin.Access.{Api, Handler, ask, guard, read_body, tenant_param}

module _ {M S : Type 0} (api : Api M S) where
  unfoldable pub list_tenants : Request → Handler M S Response
  list_tenants r = do
    ts ← ask api.manager.list_tenants
    pure (write_json 200 (tenants_body (map to_tenant_dto ts)))

  unfoldable pub create_tenant : Request → Handler M S Response
  create_tenant r = do
    name ← read_body (api.json.tenant_name r.body)
    guard (not (is_empty name)) 400 (bytes "name is required")
    t ← ask (api.manager.create_tenant r.fresh.row_id name)
    pure (write_json 201 (tenant_body (to_tenant_dto t)))

  unfoldable pub get_tenant : Request → Handler M S Response
  get_tenant r = do
    id ← tenant_param api r
    t ← ask (api.manager.get_tenant id)
    pure (write_json 200 (tenant_body (to_tenant_dto t)))
