-- ===== src/ApiServer/Handlers/Federation.antt =====
-- mvp/cmd/apiserver/m6.go: member clusters and FederatedDeployments.
use kubernetes_style_orchest.Prelude.{
  ℕ, String, ◌==◌, string_eq, ◌||◌, Option, none, some, [], ◌∷◌, trim_prefix, strip_suffix,
  if◌then◌else◌,
}
use kubernetes_style_orchest.Api.{
  Cluster, ClusterStatus, FederatedDeployment, FederatedDeploymentStatus,
}
use kubernetes_style_orchest.Sql.{M, pure}
use kubernetes_style_orchest.Store.Members.{
  list_clusters, upsert_cluster, get_cluster, update_cluster_status, delete_cluster,
  list_federated_deployments, upsert_federated_deployment, get_federated_deployment,
  update_federated_deployment_status, delete_federated_deployment,
}
use kubernetes_style_orchest.ApiServer.Http.{
  HttpRequest, Reply, error, reply_items, reply_object, reply_deleted, reply_read_back, after_write,
  reply_updated, with_body, get_or_post, get_or_delete, put_or_patch,
}

module _ (read : String → Option Cluster) (now : ℕ) where
  unfoldable pub store_cluster : Cluster → M (Reply Cluster)
  unfolding after_write upsert_cluster reply_read_back get_cluster
  store_cluster c =
      if c.metadata.name == "" || c.spec.server == ""
      then pure (error 400)
      else after_write
          (upsert_cluster now (record c { api_version = "federation.mk.io/v1"; kind = "Cluster" }))
          (reply_read_back 201 (get_cluster c.metadata.name))

  unfoldable pub handle_clusters : HttpRequest → M (Reply Cluster)
  unfolding reply_items list_clusters with_body store_cluster
  handle_clusters r = get_or_post r (reply_items list_clusters) (with_body read r store_cluster)

module _ (read_status : String → Option ClusterStatus) (now : ℕ) where
  unfoldable pub handle_clusters_by_name : HttpRequest → M (Reply Cluster)
  unfolding trim_prefix strip_suffix with_body reply_updated update_cluster_status get_cluster
      reply_object reply_deleted delete_cluster
  handle_clusters_by_name r =
      let name = trim_prefix "/apis/federation.mk.io/v1/clusters/" r.path in
      elim (strip_suffix "/status" name) [
        | some n ↦ put_or_patch r (
            with_body read_status r
              λ st. reply_updated (update_cluster_status now n st) (get_cluster n))
        | none ↦
            get_or_delete r name (reply_object (get_cluster name))
              (reply_deleted name (delete_cluster name))
      ]

module _ (read : String → Option FederatedDeployment) (now : ℕ) where
  unfoldable pub store_fed_deployment : FederatedDeployment → M (Reply FederatedDeployment)
  unfolding after_write upsert_federated_deployment reply_read_back get_federated_deployment
  store_fed_deployment fd =
      if fd.metadata.name == ""
      then pure (error 400)
      else elim fd.spec.template.template.spec.containers [
        | [] ↦ pure (error 400)
        | _ ∷ _ ↦
            after_write
              (upsert_federated_deployment now
                (record fd { api_version = "federation.mk.io/v1"; kind = "FederatedDeployment" }))
              (reply_read_back 201 (get_federated_deployment fd.metadata.name))
      ]

  unfoldable pub handle_fed_deployments : HttpRequest → M (Reply FederatedDeployment)
  unfolding reply_items list_federated_deployments with_body store_fed_deployment
  handle_fed_deployments r =
      get_or_post r (reply_items list_federated_deployments) (with_body read r store_fed_deployment)

module _ (read_status : String → Option FederatedDeploymentStatus) (now : ℕ) where
  unfoldable pub handle_fed_deployments_by_name : HttpRequest → M (Reply FederatedDeployment)
  unfolding trim_prefix strip_suffix with_body reply_updated update_federated_deployment_status
      get_federated_deployment reply_object reply_deleted delete_federated_deployment
  handle_fed_deployments_by_name r =
      let name = trim_prefix "/apis/federation.mk.io/v1/federateddeployments/" r.path in
      elim (strip_suffix "/status" name) [
        | some n ↦ put_or_patch r (
            with_body read_status r λ st.
              reply_updated (update_federated_deployment_status now n st)
                (get_federated_deployment n))
        | none ↦
            get_or_delete r name (reply_object (get_federated_deployment name))
              (reply_deleted name (delete_federated_deployment name))
      ]
