-- ===== src/Store/Services.antt =====
-- mvp/internal/store/store.go: Services and Endpoints.
pub mod Rows
pub mod Cascade
use kubernetes_style_orchest.Prelude.{ℕ, String, ◌==◌, string_eq, not, map, List, keep, order_by}
use kubernetes_style_orchest.Api.{Service, Endpoints}
use kubernetes_style_orchest.Db.{ServiceRow, EndpointsRow}
use kubernetes_style_orchest.Sql.{
  M, Result, ok, err, not_found, failed, ◌>>=◌, ◌>>◌, pure, raise, attempt, ignore, query_row,
  query_all, insert_into, insert_or_update, update_where, delete_where, require_row,
}
use kubernetes_style_orchest.Store.Tables.{services, endpoints, ns_or_default}

unfoldable pub service_of_row : ServiceRow → Service
service_of_row r = record {
  api_version = "v1";
  kind = "Service";
  metadata = r.metadata;
  spec = r.spec;
  status = r.status;
}

unfoldable pub get_service : String → M Service
unfolding query_row service_of_row
get_service name = do r ← query_row services name; pure (service_of_row r)

-- The rest of `UpsertService`: an update keeps the cluster IP and the status.
unfoldable pub upsert_service_after : ℕ → Service → Result Service → M (Unit {0})
unfolding ns_or_default update_where insert_into
upsert_service_after now svc (ok existing) = do
  n ← update_where services svc.metadata.name (λ r. record r {
    namespace = ns_or_default svc.metadata.namespace;
    spec = record svc.spec { cluster_ip = existing.spec.cluster_ip };
    metadata = svc.metadata;
    status = existing.status;
    cluster_ip = existing.spec.cluster_ip;
    last_updated = now;
  })
  pure tt
upsert_service_after now svc (err not_found) = insert_into services svc.metadata.name (record {
  namespace = ns_or_default svc.metadata.namespace;
  spec = svc.spec;
  metadata = svc.metadata;
  status = record { last_updated = now };
  cluster_ip = svc.spec.cluster_ip;
  created_at = now;
  last_updated = now;
})
upsert_service_after now svc (err failed) = raise failed

unfoldable pub upsert_service : ℕ → Service → M (Unit {0})
unfolding get_service upsert_service_after
upsert_service now svc = do
  existing ← attempt (get_service svc.metadata.name)
  upsert_service_after now svc existing

unfoldable pub list_services : M (List Service)
unfolding query_all order_by service_of_row
list_services = do
  rows ← query_all services
  pure (map (λ r. service_of_row r.1) (order_by (λ r. r.1.created_at) rows))

-- The set is a list: only membership is asked of it.
unfoldable pub list_cluster_ips : M (List String)
unfolding query_all
list_cluster_ips = do
  rows ← query_all services
  pure (map (λ r. r.1.cluster_ip) (keep (λ r. not (r.1.cluster_ip == "")) rows))

-- The error of the second statement is dropped.
unfoldable pub delete_service : String → M (Unit {0})
unfolding delete_where
delete_service name = do
  n ← delete_where services name
  require_row n
  ignore (delete_where endpoints name)
  pure tt

unfoldable pub upsert_endpoints : ℕ → Endpoints → M (Unit {0})
unfolding ns_or_default insert_or_update
upsert_endpoints now ep =
    let row : EndpointsRow = record {
      namespace = ns_or_default ep.metadata.namespace;
      metadata = ep.metadata;
      subsets = ep.subsets;
      last_updated = now;
    } in
    insert_or_update endpoints ep.metadata.name row (λ _. row)

unfoldable pub endpoints_of_row : EndpointsRow → Endpoints
endpoints_of_row r = record {
  api_version = "v1";
  kind = "Endpoints";
  metadata = r.metadata;
  subsets = r.subsets;
  last_updated = r.last_updated;
}

unfoldable pub get_endpoints : String → M Endpoints
unfolding query_row endpoints_of_row
get_endpoints name = do r ← query_row endpoints name; pure (endpoints_of_row r)

unfoldable pub list_endpoints : M (List Endpoints)
unfolding query_all order_by endpoints_of_row
list_endpoints = do
  rows ← query_all endpoints
  pure (map (λ r. endpoints_of_row r.1) (order_by (λ r. r.1.last_updated) rows))
