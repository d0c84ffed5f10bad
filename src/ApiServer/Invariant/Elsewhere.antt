-- ===== src/ApiServer/Invariant/Elsewhere.antt =====
-- mvp/internal/store: the methods that write none of the tables of the invariant keep it.
use kubernetes_style_orchest.Prelude.{ℕ, String, arith, string_eq, pair_eq}
use kubernetes_style_orchest.Api.{
  Pod, PodStatus, Endpoints, Node, ReplicaSet, ReplicaSetStatus, Deployment, DeploymentStatus, Role,
  RoleBinding, NetworkPolicy, Cluster, ClusterStatus, FederatedDeployment,
  FederatedDeploymentStatus, CustomResource,
}
use kubernetes_style_orchest.Db.{Db}
use kubernetes_style_orchest.Sql.{M, after}
use kubernetes_style_orchest.Store.Pods.{upsert_pod, update_status, delete_pod}
use kubernetes_style_orchest.Store.Services.{upsert_endpoints}
use kubernetes_style_orchest.Store.Nodes.{upsert_node, delete_node}
use kubernetes_style_orchest.Store.Workloads.{
  upsert_replica_set, update_replica_set_status, delete_replica_set, upsert_deployment,
  update_deployment_status, delete_deployment,
}
use kubernetes_style_orchest.Store.Access.{upsert_role, upsert_role_binding}
use kubernetes_style_orchest.Store.Members.{
  upsert_network_policy, delete_network_policy, upsert_cluster, update_cluster_status,
  delete_cluster, upsert_federated_deployment, update_federated_deployment_status,
  delete_federated_deployment,
}
use kubernetes_style_orchest.Store.Custom.{upsert_custom_resource, delete_custom_resource}
use kubernetes_style_orchest.ApiServer.Invariant.{Aside, Keeps, Consistent-Aside}

elsewhere : {A : Type 0} (m : M A) → ((s : Db) → Aside s (after (m s))) → Keeps m
elsewhere m h s = Consistent-Aside s (after (m s)) (h s)

pub upsert_pod-Keeps : (now : ℕ) (p : Pod) → Keeps (upsert_pod now p)
unfolding upsert_pod
upsert_pod-Keeps now p =
    elsewhere (upsert_pod now p)
      λ s. (ground arith, ground arith, ground arith, ground arith, ground arith)

pub update_status-Keeps :
    (now : ℕ) (name : String) (st : PodStatus) → Keeps (update_status now name st)
unfolding update_status
update_status-Keeps now name st =
    elsewhere (update_status now name st)
      λ s. (ground arith, ground arith, ground arith, ground arith, ground arith)

pub delete_pod-Keeps : (name : String) → Keeps (delete_pod name)
unfolding delete_pod
delete_pod-Keeps name =
    elsewhere (delete_pod name)
      λ s. (ground arith, ground arith, ground arith, ground arith, ground arith)

pub upsert_endpoints-Keeps : (now : ℕ) (ep : Endpoints) → Keeps (upsert_endpoints now ep)
unfolding upsert_endpoints
upsert_endpoints-Keeps now ep =
    elsewhere (upsert_endpoints now ep)
      λ s. (ground arith, ground arith, ground arith, ground arith, ground arith)

pub upsert_node-Keeps : (now : ℕ) (n : Node) → Keeps (upsert_node now n)
unfolding upsert_node
upsert_node-Keeps now n =
    elsewhere (upsert_node now n)
      λ s. (ground arith, ground arith, ground arith, ground arith, ground arith)

pub delete_node-Keeps : (name : String) → Keeps (delete_node name)
unfolding delete_node
delete_node-Keeps name =
    elsewhere (delete_node name)
      λ s. (ground arith, ground arith, ground arith, ground arith, ground arith)

pub upsert_replica_set-Keeps : (now : ℕ) (rs : ReplicaSet) → Keeps (upsert_replica_set now rs)
unfolding upsert_replica_set
upsert_replica_set-Keeps now rs =
    elsewhere (upsert_replica_set now rs)
      λ s. (ground arith, ground arith, ground arith, ground arith, ground arith)

pub update_replica_set_status-Keeps :
    (now : ℕ) (name : String) (st : ReplicaSetStatus)
    → Keeps (update_replica_set_status now name st)
unfolding update_replica_set_status
update_replica_set_status-Keeps now name st =
    elsewhere (update_replica_set_status now name st)
      λ s. (ground arith, ground arith, ground arith, ground arith, ground arith)

pub delete_replica_set-Keeps : (name : String) → Keeps (delete_replica_set name)
unfolding delete_replica_set
delete_replica_set-Keeps name =
    elsewhere (delete_replica_set name)
      λ s. (ground arith, ground arith, ground arith, ground arith, ground arith)

pub upsert_deployment-Keeps : (now : ℕ) (d : Deployment) → Keeps (upsert_deployment now d)
unfolding upsert_deployment
upsert_deployment-Keeps now d =
    elsewhere (upsert_deployment now d)
      λ s. (ground arith, ground arith, ground arith, ground arith, ground arith)

pub update_deployment_status-Keeps :
    (now : ℕ) (name : String) (st : DeploymentStatus) → Keeps (update_deployment_status now name st)
unfolding update_deployment_status
update_deployment_status-Keeps now name st =
    elsewhere (update_deployment_status now name st)
      λ s. (ground arith, ground arith, ground arith, ground arith, ground arith)

pub delete_deployment-Keeps : (name : String) → Keeps (delete_deployment name)
unfolding delete_deployment
delete_deployment-Keeps name =
    elsewhere (delete_deployment name)
      λ s. (ground arith, ground arith, ground arith, ground arith, ground arith)

pub upsert_role-Keeps : (now : ℕ) (scope : String) (r : Role) → Keeps (upsert_role now scope r)
unfolding upsert_role
upsert_role-Keeps now scope r =
    elsewhere (upsert_role now scope r)
      λ s. (ground arith, ground arith, ground arith, ground arith, ground arith)

pub upsert_role_binding-Keeps :
    (now : ℕ) (scope : String) (b : RoleBinding) → Keeps (upsert_role_binding now scope b)
unfolding upsert_role_binding
upsert_role_binding-Keeps now scope b =
    elsewhere (upsert_role_binding now scope b)
      λ s. (ground arith, ground arith, ground arith, ground arith, ground arith)

pub upsert_network_policy-Keeps :
    (now : ℕ) (np : NetworkPolicy) → Keeps (upsert_network_policy now np)
unfolding upsert_network_policy
upsert_network_policy-Keeps now np =
    elsewhere (upsert_network_policy now np)
      λ s. (ground arith, ground arith, ground arith, ground arith, ground arith)

pub delete_network_policy-Keeps : (name : String) → Keeps (delete_network_policy name)
unfolding delete_network_policy
delete_network_policy-Keeps name =
    elsewhere (delete_network_policy name)
      λ s. (ground arith, ground arith, ground arith, ground arith, ground arith)

pub upsert_cluster-Keeps : (now : ℕ) (c : Cluster) → Keeps (upsert_cluster now c)
unfolding upsert_cluster
upsert_cluster-Keeps now c =
    elsewhere (upsert_cluster now c)
      λ s. (ground arith, ground arith, ground arith, ground arith, ground arith)

pub update_cluster_status-Keeps :
    (now : ℕ) (name : String) (st : ClusterStatus) → Keeps (update_cluster_status now name st)
unfolding update_cluster_status
update_cluster_status-Keeps now name st =
    elsewhere (update_cluster_status now name st)
      λ s. (ground arith, ground arith, ground arith, ground arith, ground arith)

pub delete_cluster-Keeps : (name : String) → Keeps (delete_cluster name)
unfolding delete_cluster
delete_cluster-Keeps name =
    elsewhere (delete_cluster name)
      λ s. (ground arith, ground arith, ground arith, ground arith, ground arith)

pub upsert_federated_deployment-Keeps :
    (now : ℕ) (fd : FederatedDeployment) → Keeps (upsert_federated_deployment now fd)
unfolding upsert_federated_deployment
upsert_federated_deployment-Keeps now fd =
    elsewhere (upsert_federated_deployment now fd)
      λ s. (ground arith, ground arith, ground arith, ground arith, ground arith)

pub update_federated_deployment_status-Keeps :
    (now : ℕ) (name : String) (st : FederatedDeploymentStatus)
    → Keeps (update_federated_deployment_status now name st)
unfolding update_federated_deployment_status
update_federated_deployment_status-Keeps now name st =
    elsewhere (update_federated_deployment_status now name st)
      λ s. (ground arith, ground arith, ground arith, ground arith, ground arith)

pub delete_federated_deployment-Keeps : (name : String) → Keeps (delete_federated_deployment name)
unfolding delete_federated_deployment
delete_federated_deployment-Keeps name =
    elsewhere (delete_federated_deployment name)
      λ s. (ground arith, ground arith, ground arith, ground arith, ground arith)

pub upsert_custom_resource-Keeps :
    (now : ℕ) (crd : String) (cr : CustomResource) → Keeps (upsert_custom_resource now crd cr)
unfolding upsert_custom_resource
upsert_custom_resource-Keeps now crd cr =
    elsewhere (upsert_custom_resource now crd cr)
      λ s. (ground arith, ground arith, ground arith, ground arith, ground arith)

pub delete_custom_resource-Keeps : (crd name : String) → Keeps (delete_custom_resource crd name)
unfolding delete_custom_resource
delete_custom_resource-Keeps crd name =
    elsewhere (delete_custom_resource crd name)
      λ s. (ground arith, ground arith, ground arith, ground arith, ground arith)
