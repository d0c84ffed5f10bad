-- ===== src/Store/Members.antt =====
-- mvp/internal/store/store_m6.go: network policies, member clusters, FederatedDeployments.
use kubernetes_style_orchest.Prelude.{ℕ, String, string_eq, map, List, order_by}
use kubernetes_style_orchest.Api.{
  NetworkPolicy, Cluster, ClusterStatus, FederatedDeployment, FederatedDeploymentSpec,
  FederatedDeploymentStatus,
}
use kubernetes_style_orchest.Db.{NetworkPolicyRow, ClusterRow, ObjectRow}
use kubernetes_style_orchest.Sql.{
  M, Result, ok, err, ◌>>=◌, pure, attempt, query_row, query_all, insert_or_update, update_where,
  delete_where, require_row,
}
use kubernetes_style_orchest.Store.Tables.{
  network_policies, clusters, federated_deployments, ns_or_default,
}

unfoldable pub upsert_network_policy : ℕ → NetworkPolicy → M (Unit {0})
unfolding ns_or_default insert_or_update
upsert_network_policy now np =
    let row : NetworkPolicyRow = record {
      namespace = ns_or_default np.metadata.namespace;
      spec = np.spec;
      metadata = np.metadata;
      created_at = now;
      last_updated = now;
    } in
    insert_or_update network_policies np.metadata.name row
      (λ r. record row { created_at = r.created_at })

unfoldable pub policy_of_row : NetworkPolicyRow → NetworkPolicy
policy_of_row r = record {
  api_version = "networking.mk.io/v1";
  kind = "NetworkPolicy";
  metadata = r.metadata;
  spec = r.spec;
}

unfoldable pub get_network_policy : String → M NetworkPolicy
unfolding query_row policy_of_row
get_network_policy name = do r ← query_row network_policies name; pure (policy_of_row r)

unfoldable pub list_network_policies : M (List NetworkPolicy)
unfolding query_all order_by policy_of_row
list_network_policies = do
  rows ← query_all network_policies
  pure (map (λ r. policy_of_row r.1) (order_by (λ r. r.1.created_at) rows))

unfoldable pub delete_network_policy : String → M (Unit {0})
unfolding delete_where
delete_network_policy name = do n ← delete_where network_policies name; require_row n

unfoldable pub upsert_cluster : ℕ → Cluster → M (Unit {0})
unfolding insert_or_update
upsert_cluster now c =
    let row : ClusterRow = record {
      spec = c.spec;
      metadata = c.metadata;
      status = c.status;
      created_at = now;
      last_updated = now;
    } in
    insert_or_update clusters c.metadata.name row (λ r. record row { created_at = r.created_at })

unfoldable pub cluster_of_row : ClusterRow → Cluster
cluster_of_row r = record {
  api_version = "federation.mk.io/v1";
  kind = "Cluster";
  metadata = r.metadata;
  spec = r.spec;
  status = r.status;
}

unfoldable pub get_cluster : String → M Cluster
unfolding query_row cluster_of_row
get_cluster name = do r ← query_row clusters name; pure (cluster_of_row r)

unfoldable pub list_clusters : M (List Cluster)
unfolding query_all order_by cluster_of_row
list_clusters = do
  rows ← query_all clusters
  pure (map (λ r. cluster_of_row r.1) (order_by (λ r. r.1.created_at) rows))

unfoldable pub update_cluster_status : ℕ → String → ClusterStatus → M (Unit {0})
unfolding update_where
update_cluster_status now name st = do
  n ←
      update_where clusters name
        (λ r. record r { status = record st { last_heartbeat = now }; last_updated = now })
  require_row n

unfoldable pub delete_cluster : String → M (Unit {0})
unfolding delete_where
delete_cluster name = do n ← delete_where clusters name; require_row n

unfoldable pub federated_of_row :
    ObjectRow FederatedDeploymentSpec FederatedDeploymentStatus → FederatedDeployment
federated_of_row r = record {
  api_version = "federation.mk.io/v1";
  kind = "FederatedDeployment";
  metadata = r.metadata;
  spec = r.spec;
  status = r.status;
}

unfoldable pub get_federated_deployment : String → M FederatedDeployment
unfolding query_row federated_of_row
get_federated_deployment name = do
  r ← query_row federated_deployments name
  pure (federated_of_row r)

-- `if err == nil { fd.Status = existing.Status }`: any error counts as a missing row.
unfoldable pub kept_federated_status :
    FederatedDeployment → Result FederatedDeployment → FederatedDeploymentStatus
kept_federated_status fd (ok existing) = existing.status
kept_federated_status fd (err e) = fd.status

unfoldable pub upsert_federated_deployment : ℕ → FederatedDeployment → M (Unit {0})
unfolding get_federated_deployment kept_federated_status ns_or_default insert_or_update
upsert_federated_deployment now fd = do
  existing ← attempt (get_federated_deployment fd.metadata.name)
  let row : ObjectRow FederatedDeploymentSpec FederatedDeploymentStatus = record {
    namespace = ns_or_default fd.metadata.namespace;
    spec = fd.spec;
    metadata = fd.metadata;
    status = kept_federated_status fd existing;
    created_at = now;
    last_updated = now;
  }
  insert_or_update federated_deployments fd.metadata.name row
      (λ r. record row { created_at = r.created_at })

unfoldable pub list_federated_deployments : M (List FederatedDeployment)
unfolding query_all order_by federated_of_row
list_federated_deployments = do
  rows ← query_all federated_deployments
  pure (map (λ r. federated_of_row r.1) (order_by (λ r. r.1.created_at) rows))

unfoldable pub update_federated_deployment_status :
    ℕ → String → FederatedDeploymentStatus → M (Unit {0})
unfolding update_where
update_federated_deployment_status now name st = do
  n ←
      update_where federated_deployments name
        (λ r. record r { status = record st { last_updated = now }; last_updated = now })
  require_row n

unfoldable pub delete_federated_deployment : String → M (Unit {0})
unfolding delete_where
delete_federated_deployment name = do n ← delete_where federated_deployments name; require_row n
