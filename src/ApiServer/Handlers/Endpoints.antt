-- ===== src/ApiServer/Handlers/Endpoints.antt =====
-- mvp/cmd/apiserver/main.go: endpoints.
use kubernetes_style_orchest.Prelude.{
  ℕ, String, ◌==◌, string_eq, ◌||◌, Option, trim_prefix, if◌then◌else◌,
}
use kubernetes_style_orchest.Api.{Endpoints}
use kubernetes_style_orchest.Sql.{M, pure}
use kubernetes_style_orchest.Store.Services.{list_endpoints, upsert_endpoints, get_endpoints}
use kubernetes_style_orchest.ApiServer.Http.{
  HttpRequest, Reply, error, reply_items, reply_object, reply_read_back, after_write, with_body,
  method_not_allowed,
}

module _ (read : String → Option Endpoints) (now : ℕ) where
  unfoldable pub store_endpoints : Endpoints → M (Reply Endpoints)
  unfolding after_write upsert_endpoints reply_read_back get_endpoints
  store_endpoints ep =
      if ep.metadata.name == ""
      then pure (error 400)
      else after_write (upsert_endpoints now (record ep { api_version = "v1"; kind = "Endpoints" }))
          (reply_read_back 200 (get_endpoints ep.metadata.name))

  unfoldable pub handle_endpoints : HttpRequest → M (Reply Endpoints)
  unfolding reply_items list_endpoints with_body store_endpoints
  handle_endpoints r =
      if r.method == "GET"
      then reply_items list_endpoints
      else if r.method == "POST" || r.method == "PUT"
      then with_body read r store_endpoints
      else method_not_allowed

unfoldable pub handle_endpoints_by_name : HttpRequest → M (Reply Endpoints)
unfolding trim_prefix reply_object get_endpoints
handle_endpoints_by_name r =
    let name = trim_prefix "/api/v1/endpoints/" r.path in
    if name == ""
    then pure (error 400)
    else if r.method == "GET"
    then reply_object (get_endpoints name)
    else method_not_allowed
