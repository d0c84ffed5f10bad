-- ===== src/Store/Workloads.antt =====
-- mvp/internal/store/store.go: ReplicaSets and Deployments.
use kubernetes_style_orchest.Prelude.{ℕ, String, string_eq, map, List, order_by}
use kubernetes_style_orchest.Api.{
  ReplicaSet, ReplicaSetSpec, ReplicaSetStatus, Deployment, DeploymentSpec, DeploymentStatus,
}
use kubernetes_style_orchest.Db.{ObjectRow}
use kubernetes_style_orchest.Sql.{
  M, Result, ok, err, not_found, failed, ◌>>=◌, pure, raise, attempt, query_row, query_all,
  insert_into, update_where, delete_where, require_row,
}
use kubernetes_style_orchest.Store.Tables.{replicasets, deployments, ns_or_default}

unfoldable pub replica_set_of_row : ObjectRow ReplicaSetSpec ReplicaSetStatus → ReplicaSet
replica_set_of_row r = record {
  api_version = "v1";
  kind = "ReplicaSet";
  metadata = r.metadata;
  spec = r.spec;
  status = r.status;
}

unfoldable pub get_replica_set : String → M ReplicaSet
unfolding query_row replica_set_of_row
get_replica_set name = do r ← query_row replicasets name; pure (replica_set_of_row r)

-- The rest of `UpsertReplicaSet`: an update keeps the stored status, an insert stamps the new one.
unfoldable pub upsert_replica_set_after : ℕ → ReplicaSet → Result ReplicaSet → M (Unit {0})
unfolding ns_or_default update_where insert_into
upsert_replica_set_after now rs (ok existing) = do
  n ← update_where replicasets rs.metadata.name (λ r. record r {
    namespace = ns_or_default rs.metadata.namespace;
    spec = rs.spec;
    metadata = rs.metadata;
    status = existing.status;
    last_updated = now;
  })
  pure tt
upsert_replica_set_after now rs (err not_found) = insert_into replicasets rs.metadata.name (record {
  namespace = ns_or_default rs.metadata.namespace;
  spec = rs.spec;
  metadata = rs.metadata;
  status = record rs.status { last_updated = now };
  created_at = now;
  last_updated = now;
})
upsert_replica_set_after now rs (err failed) = raise failed

unfoldable pub upsert_replica_set : ℕ → ReplicaSet → M (Unit {0})
unfolding get_replica_set upsert_replica_set_after
upsert_replica_set now rs = do
  existing ← attempt (get_replica_set rs.metadata.name)
  upsert_replica_set_after now rs existing

unfoldable pub list_replica_sets : M (List ReplicaSet)
unfolding query_all order_by replica_set_of_row
list_replica_sets = do
  rows ← query_all replicasets
  pure (map (λ r. replica_set_of_row r.1) (order_by (λ r. r.1.created_at) rows))

unfoldable pub update_replica_set_status : ℕ → String → ReplicaSetStatus → M (Unit {0})
unfolding update_where
update_replica_set_status now name st = do
  n ←
      update_where replicasets name
        (λ r. record r { status = record st { last_updated = now }; last_updated = now })
  require_row n

unfoldable pub delete_replica_set : String → M (Unit {0})
unfolding delete_where
delete_replica_set name = do n ← delete_where replicasets name; require_row n

unfoldable pub deployment_of_row : ObjectRow DeploymentSpec DeploymentStatus → Deployment
deployment_of_row r = record {
  api_version = "apps/v1";
  kind = "Deployment";
  metadata = r.metadata;
  spec = r.spec;
  status = r.status;
}

unfoldable pub get_deployment : String → M Deployment
unfolding query_row deployment_of_row
get_deployment name = do r ← query_row deployments name; pure (deployment_of_row r)

-- The rest of `UpsertDeployment`: an update keeps the stored status, an insert stamps the new one.
unfoldable pub upsert_deployment_after : ℕ → Deployment → Result Deployment → M (Unit {0})
unfolding ns_or_default update_where insert_into
upsert_deployment_after now d (ok existing) = do
  n ← update_where deployments d.metadata.name (λ r. record r {
    namespace = ns_or_default d.metadata.namespace;
    spec = d.spec;
    metadata = d.metadata;
    status = existing.status;
    last_updated = now;
  })
  pure tt
upsert_deployment_after now d (err not_found) = insert_into deployments d.metadata.name (record {
  namespace = ns_or_default d.metadata.namespace;
  spec = d.spec;
  metadata = d.metadata;
  status = record d.status { last_updated = now };
  created_at = now;
  last_updated = now;
})
upsert_deployment_after now d (err failed) = raise failed

unfoldable pub upsert_deployment : ℕ → Deployment → M (Unit {0})
unfolding get_deployment upsert_deployment_after
upsert_deployment now d = do
  existing ← attempt (get_deployment d.metadata.name)
  upsert_deployment_after now d existing

unfoldable pub list_deployments : M (List Deployment)
unfolding query_all order_by deployment_of_row
list_deployments = do
  rows ← query_all deployments
  pure (map (λ r. deployment_of_row r.1) (order_by (λ r. r.1.created_at) rows))

unfoldable pub update_deployment_status : ℕ → String → DeploymentStatus → M (Unit {0})
unfolding update_where
update_deployment_status now name st = do
  n ←
      update_where deployments name
        (λ r. record r { status = record st { last_updated = now }; last_updated = now })
  require_row n

unfoldable pub delete_deployment : String → M (Unit {0})
unfolding delete_where
delete_deployment name = do n ← delete_where deployments name; require_row n
