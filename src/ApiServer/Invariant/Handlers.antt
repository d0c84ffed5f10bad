-- ===== src/ApiServer/Invariant/Handlers.antt =====
-- mvp/cmd/apiserver/main.go and m6.go: handlers that write no table of the invariant.
use kubernetes_style_orchest.Prelude.{
  ℕ, String, ◌==◌, string_eq, ◌||◌, Option, trim_prefix, strip_suffix,
}
use kubernetes_style_orchest.Api.{
  Endpoints, Node, ReplicaSet, ReplicaSetStatus, Deployment, DeploymentStatus, NetworkPolicy,
  Cluster, ClusterStatus, FederatedDeployment, FederatedDeploymentStatus,
}
use kubernetes_style_orchest.Store.Members.{
  delete_cluster, delete_federated_deployment, delete_network_policy, get_cluster,
  get_federated_deployment, get_network_policy, list_clusters, list_network_policies,
  update_cluster_status, update_federated_deployment_status, upsert_cluster, upsert_network_policy,
}
use kubernetes_style_orchest.Store.Nodes.{delete_node, get_node, list_nodes, upsert_node}
use kubernetes_style_orchest.Store.Services.{get_endpoints, list_endpoints, upsert_endpoints}
use kubernetes_style_orchest.Store.Workloads.{
  delete_deployment, delete_replica_set, get_deployment, get_replica_set, list_replica_sets,
  update_deployment_status, update_replica_set_status, upsert_replica_set,
}
use kubernetes_style_orchest.Store.Reading.{
  get_cluster-Reads, get_deployment-Reads, get_endpoints-Reads, get_federated_deployment-Reads,
  get_network_policy-Reads, get_node-Reads, get_replica_set-Reads, list_clusters-Reads,
  list_endpoints-Reads, list_network_policies-Reads, list_nodes-Reads, list_replica_sets-Reads,
}
use kubernetes_style_orchest.ApiServer.Handlers.Endpoints.{
  handle_endpoints_by_name, handle_endpoints, store_endpoints,
}
use kubernetes_style_orchest.ApiServer.Handlers.Nodes.{
  handle_nodes, handle_nodes_by_name, ready_node, store_node,
}
use kubernetes_style_orchest.ApiServer.Handlers.Workloads.{
  handle_rs, handle_rs_by_name, store_replica_set,
}
use kubernetes_style_orchest.ApiServer.Handlers.Deployments.{handle_deployments_by_name}
use kubernetes_style_orchest.ApiServer.Handlers.Policies.{
  handle_net_pols, handle_net_pols_by_name, store_net_pol,
}
use kubernetes_style_orchest.ApiServer.Handlers.Federation.{
  handle_clusters, handle_clusters_by_name, handle_fed_deployments_by_name, store_cluster,
}
use kubernetes_style_orchest.ApiServer.Http.{HttpRequest}
use kubernetes_style_orchest.ApiServer.Invariant.{Keeps}
use kubernetes_style_orchest.ApiServer.Invariant.Elsewhere.{
  delete_cluster-Keeps, delete_deployment-Keeps, delete_federated_deployment-Keeps,
  delete_network_policy-Keeps, delete_node-Keeps, delete_replica_set-Keeps,
  update_cluster_status-Keeps, update_deployment_status-Keeps,
  update_federated_deployment_status-Keeps, update_replica_set_status-Keeps, upsert_cluster-Keeps,
  upsert_endpoints-Keeps, upsert_network_policy-Keeps, upsert_node-Keeps, upsert_replica_set-Keeps,
}
use kubernetes_style_orchest.ApiServer.Invariant.Replies.{
  if-Keeps, reply_read_back-Keeps, reply_object-Keeps, reply_items-Keeps, reply_deleted-Keeps,
  after_write-Keeps, reply_updated-Keeps, with_body-Keeps, get_or_post-Keeps, get_or_delete-Keeps,
  by_name-Keeps,
}

store_endpoints-Keeps :
    (read : String → Option Endpoints) (now : ℕ) (ep : Endpoints)
    → Keeps (store_endpoints read now ep)
unfolding store_endpoints
store_endpoints-Keeps read now ep =
    if-Keeps (ep.metadata.name == "") _ _ (λ s k. k)
      (after_write-Keeps
        (upsert_endpoints now (record ep { api_version = "v1"; kind = "Endpoints" })) _
        (upsert_endpoints-Keeps now (record ep { api_version = "v1"; kind = "Endpoints" }))
        (reply_read_back-Keeps 200 (get_endpoints ep.metadata.name)
          (get_endpoints-Reads ep.metadata.name)))

pub handle_endpoints-Keeps :
    (read : String → Option Endpoints) (now : ℕ) (r : HttpRequest)
    → Keeps (handle_endpoints read now r)
unfolding handle_endpoints
handle_endpoints-Keeps read now r =
    if-Keeps (r.method == "GET") _ _ (reply_items-Keeps list_endpoints list_endpoints-Reads) (
      if-Keeps (r.method == "POST" || r.method == "PUT") _ _
        (with_body-Keeps read r _ (store_endpoints-Keeps read now)) (λ s k. k))

store_node-Keeps :
    (read : String → Option Node) (now : ℕ) (n : Node) → Keeps (store_node read now n)
unfolding store_node
store_node-Keeps read now n =
    if-Keeps (n.metadata.name == "") _ _ (λ s k. k)
      (after_write-Keeps (upsert_node now (ready_node n)) _ (upsert_node-Keeps now (ready_node n))
        (reply_read_back-Keeps 201 (get_node n.metadata.name) (get_node-Reads n.metadata.name)))

pub handle_nodes-Keeps :
    (read : String → Option Node) (now : ℕ) (r : HttpRequest) → Keeps (handle_nodes read now r)
unfolding handle_nodes
handle_nodes-Keeps read now r =
    if-Keeps (r.method == "GET") _ _ (reply_items-Keeps list_nodes list_nodes-Reads) (
      if-Keeps (r.method == "POST" || r.method == "PUT") _ _
        (with_body-Keeps read r _ (store_node-Keeps read now)) (λ s k. k))

pub handle_nodes_by_name-Keeps : (r : HttpRequest) → Keeps (handle_nodes_by_name r)
unfolding handle_nodes_by_name
handle_nodes_by_name-Keeps r =
    let name = trim_prefix "/api/v1/nodes/" r.path in
    get_or_delete-Keeps r name _ _ (reply_object-Keeps (get_node name) (get_node-Reads name))
      (reply_deleted-Keeps Node name (delete_node name) (delete_node-Keeps name))

store_replica_set-Keeps :
    (read : String → Option ReplicaSet) (now : ℕ) (rs : ReplicaSet)
    → Keeps (store_replica_set read now rs)
unfolding store_replica_set
store_replica_set-Keeps read now rs =
    if-Keeps (rs.metadata.name == "") _ _ (λ s k. k)
      (after_write-Keeps
        (upsert_replica_set now (record rs { api_version = "apps/v1"; kind = "ReplicaSet" })) _
        (upsert_replica_set-Keeps now (record rs { api_version = "apps/v1"; kind = "ReplicaSet" }))
        (reply_read_back-Keeps 201 (get_replica_set rs.metadata.name)
          (get_replica_set-Reads rs.metadata.name)))

pub handle_rs-Keeps :
    (read : String → Option ReplicaSet) (now : ℕ) (r : HttpRequest) → Keeps (handle_rs read now r)
unfolding handle_rs
handle_rs-Keeps read now r =
    get_or_post-Keeps r _ _ (reply_items-Keeps list_replica_sets list_replica_sets-Reads)
      (with_body-Keeps read r _ (store_replica_set-Keeps read now))

pub handle_rs_by_name-Keeps :
    (read : String → Option ReplicaSetStatus) (now : ℕ) (r : HttpRequest)
    → Keeps (handle_rs_by_name read now r)
unfolding handle_rs_by_name
handle_rs_by_name-Keeps read now r =
    let name = trim_prefix "/apis/apps/v1/replicasets/" r.path in
    by_name-Keeps r (strip_suffix "/status" name) name _ _ _
      (λ n. with_body-Keeps read r _ (λ st.
        reply_updated-Keeps (update_replica_set_status now n st) (get_replica_set n)
          (update_replica_set_status-Keeps now n st) (get_replica_set-Reads n)))
      (reply_object-Keeps (get_replica_set name) (get_replica_set-Reads name))
      (reply_deleted-Keeps ReplicaSet name (delete_replica_set name)
        (delete_replica_set-Keeps name))

pub handle_deployments_by_name-Keeps :
    (read : String → Option DeploymentStatus) (now : ℕ) (r : HttpRequest)
    → Keeps (handle_deployments_by_name read now r)
unfolding handle_deployments_by_name
handle_deployments_by_name-Keeps read now r =
    let name = trim_prefix "/apis/apps/v1/deployments/" r.path in
    by_name-Keeps r (strip_suffix "/status" name) name _ _ _
      (λ n. with_body-Keeps read r _ (λ st.
        reply_updated-Keeps (update_deployment_status now n st) (get_deployment n)
          (update_deployment_status-Keeps now n st) (get_deployment-Reads n)))
      (reply_object-Keeps (get_deployment name) (get_deployment-Reads name))
      (reply_deleted-Keeps Deployment name (delete_deployment name) (delete_deployment-Keeps name))

store_net_pol-Keeps :
    (read : String → Option NetworkPolicy) (now : ℕ) (np : NetworkPolicy)
    → Keeps (store_net_pol read now np)
unfolding store_net_pol
store_net_pol-Keeps read now np =
    if-Keeps (np.metadata.name == "") _ _ (λ s k. k)
      (after_write-Keeps
        (upsert_network_policy now
          (record np { api_version = "networking.mk.io/v1"; kind = "NetworkPolicy" }))
        _
        (upsert_network_policy-Keeps now
          (record np { api_version = "networking.mk.io/v1"; kind = "NetworkPolicy" }))
        (reply_read_back-Keeps 201 (get_network_policy np.metadata.name)
          (get_network_policy-Reads np.metadata.name)))

pub handle_net_pols-Keeps :
    (read : String → Option NetworkPolicy) (now : ℕ) (r : HttpRequest)
    → Keeps (handle_net_pols read now r)
unfolding handle_net_pols
handle_net_pols-Keeps read now r =
    get_or_post-Keeps r _ _ (reply_items-Keeps list_network_policies list_network_policies-Reads)
      (with_body-Keeps read r _ (store_net_pol-Keeps read now))

pub handle_net_pols_by_name-Keeps : (r : HttpRequest) → Keeps (handle_net_pols_by_name r)
unfolding handle_net_pols_by_name
handle_net_pols_by_name-Keeps r =
    let name = trim_prefix "/apis/networking.mk.io/v1/networkpolicies/" r.path in
    get_or_delete-Keeps r name _ _
      (reply_object-Keeps (get_network_policy name) (get_network_policy-Reads name))
      (reply_deleted-Keeps NetworkPolicy name (delete_network_policy name)
        (delete_network_policy-Keeps name))

store_cluster-Keeps :
    (read : String → Option Cluster) (now : ℕ) (c : Cluster) → Keeps (store_cluster read now c)
unfolding store_cluster
store_cluster-Keeps read now c =
    if-Keeps (c.metadata.name == "" || c.spec.server == "") _ _ (λ s k. k)
      (after_write-Keeps
        (upsert_cluster now (record c { api_version = "federation.mk.io/v1"; kind = "Cluster" })) _
        (upsert_cluster-Keeps now
          (record c { api_version = "federation.mk.io/v1"; kind = "Cluster" }))
        (reply_read_back-Keeps 201 (get_cluster c.metadata.name)
          (get_cluster-Reads c.metadata.name)))

pub handle_clusters-Keeps :
    (read : String → Option Cluster) (now : ℕ) (r : HttpRequest)
    → Keeps (handle_clusters read now r)
unfolding handle_clusters
handle_clusters-Keeps read now r =
    get_or_post-Keeps r _ _ (reply_items-Keeps list_clusters list_clusters-Reads)
      (with_body-Keeps read r _ (store_cluster-Keeps read now))

pub handle_clusters_by_name-Keeps :
    (read : String → Option ClusterStatus) (now : ℕ) (r : HttpRequest)
    → Keeps (handle_clusters_by_name read now r)
unfolding handle_clusters_by_name
handle_clusters_by_name-Keeps read now r =
    let name = trim_prefix "/apis/federation.mk.io/v1/clusters/" r.path in
    by_name-Keeps r (strip_suffix "/status" name) name _ _ _
      (λ n. with_body-Keeps read r _ (λ st.
        reply_updated-Keeps (update_cluster_status now n st) (get_cluster n)
          (update_cluster_status-Keeps now n st) (get_cluster-Reads n)))
      (reply_object-Keeps (get_cluster name) (get_cluster-Reads name))
      (reply_deleted-Keeps Cluster name (delete_cluster name) (delete_cluster-Keeps name))

pub handle_fed_deployments_by_name-Keeps :
    (read : String → Option FederatedDeploymentStatus) (now : ℕ) (r : HttpRequest)
    → Keeps (handle_fed_deployments_by_name read now r)
unfolding handle_fed_deployments_by_name
handle_fed_deployments_by_name-Keeps read now r =
    let name = trim_prefix "/apis/federation.mk.io/v1/federateddeployments/" r.path in
    by_name-Keeps r (strip_suffix "/status" name) name _ _ _
      (λ n. with_body-Keeps read r _ (λ st.
        reply_updated-Keeps (update_federated_deployment_status now n st)
          (get_federated_deployment n) (update_federated_deployment_status-Keeps now n st)
          (get_federated_deployment-Reads n)))
      (reply_object-Keeps (get_federated_deployment name) (get_federated_deployment-Reads name))
      (reply_deleted-Keeps FederatedDeployment name (delete_federated_deployment name)
        (delete_federated_deployment-Keeps name))

pub handle_endpoints_by_name-Keeps : (r : HttpRequest) → Keeps (handle_endpoints_by_name r)
unfolding handle_endpoints_by_name
handle_endpoints_by_name-Keeps r =
    let name = trim_prefix "/api/v1/endpoints/" r.path in
    if-Keeps (name == "") _ _ (λ s k. k)
      (if-Keeps (r.method == "GET") _ _
        (reply_object-Keeps (get_endpoints name) (get_endpoints-Reads name)) (λ s k. k))
