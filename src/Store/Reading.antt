-- ===== src/Store/Reading.antt =====
-- mvp/internal/store: the methods that read one row or a list leave every table as it was.
use kubernetes_style_orchest.Prelude.{String, arith, string_eq, pair_eq}
use kubernetes_style_orchest.Sql.Reads.{Reads}
use kubernetes_style_orchest.Store.Pods.{get_pod, list_pods, list_pods_by_node}
use kubernetes_style_orchest.Store.Services.{
  get_service, get_endpoints, list_services, list_cluster_ips, list_endpoints,
}
use kubernetes_style_orchest.Store.Nodes.{get_node, list_nodes}
use kubernetes_style_orchest.Store.Workloads.{
  get_replica_set, get_deployment, list_replica_sets, list_deployments,
}
use kubernetes_style_orchest.Store.Custom.{
  get_crd, list_crds, get_crd_by_plural, list_custom_resources, get_custom_resource,
}
use kubernetes_style_orchest.Store.Scaling.{get_hpa, list_webhooks, list_hpas}
use kubernetes_style_orchest.Store.Members.{
  get_network_policy, get_cluster, get_federated_deployment, list_network_policies, list_clusters,
  list_federated_deployments,
}
use kubernetes_style_orchest.Store.Access.{
  list_users, list_roles, list_role_bindings, get_role, get_user_by_token,
}
use kubernetes_style_orchest.Store.Leases.{get_lease}

pub get_pod-Reads : (name : String) → Reads (get_pod name)
unfolding get_pod
get_pod-Reads name s = ground arith

pub get_service-Reads : (name : String) → Reads (get_service name)
unfolding get_service
get_service-Reads name s = ground arith

pub get_endpoints-Reads : (name : String) → Reads (get_endpoints name)
unfolding get_endpoints
get_endpoints-Reads name s = ground arith

pub get_node-Reads : (name : String) → Reads (get_node name)
unfolding get_node
get_node-Reads name s = ground arith

pub get_replica_set-Reads : (name : String) → Reads (get_replica_set name)
unfolding get_replica_set
get_replica_set-Reads name s = ground arith

pub get_deployment-Reads : (name : String) → Reads (get_deployment name)
unfolding get_deployment
get_deployment-Reads name s = ground arith

pub get_crd-Reads : (name : String) → Reads (get_crd name)
unfolding get_crd
get_crd-Reads name s = ground arith

pub get_hpa-Reads : (name : String) → Reads (get_hpa name)
unfolding get_hpa
get_hpa-Reads name s = ground arith

pub get_network_policy-Reads : (name : String) → Reads (get_network_policy name)
unfolding get_network_policy
get_network_policy-Reads name s = ground arith

pub get_cluster-Reads : (name : String) → Reads (get_cluster name)
unfolding get_cluster
get_cluster-Reads name s = ground arith

pub get_federated_deployment-Reads : (name : String) → Reads (get_federated_deployment name)
unfolding get_federated_deployment
get_federated_deployment-Reads name s = ground arith

pub list_pods-Reads : (phase : String) → Reads (list_pods phase)
unfolding list_pods
list_pods-Reads phase s = ground arith

pub list_pods_by_node-Reads : (node : String) → Reads (list_pods_by_node node)
unfolding list_pods_by_node
list_pods_by_node-Reads node s = ground arith

pub list_services-Reads : Reads list_services
unfolding list_services
list_services-Reads s = ground arith

pub list_cluster_ips-Reads : Reads list_cluster_ips
unfolding list_cluster_ips
list_cluster_ips-Reads s = ground arith

pub list_endpoints-Reads : Reads list_endpoints
unfolding list_endpoints
list_endpoints-Reads s = ground arith

pub list_nodes-Reads : Reads list_nodes
unfolding list_nodes
list_nodes-Reads s = ground arith

pub list_replica_sets-Reads : Reads list_replica_sets
unfolding list_replica_sets
list_replica_sets-Reads s = ground arith

pub list_deployments-Reads : Reads list_deployments
unfolding list_deployments
list_deployments-Reads s = ground arith

pub list_crds-Reads : Reads list_crds
unfolding list_crds
list_crds-Reads s = ground arith

pub get_crd_by_plural-Reads : (plural : String) → Reads (get_crd_by_plural plural)
unfolding get_crd_by_plural
get_crd_by_plural-Reads plural s = ground arith

pub list_custom_resources-Reads : (crd : String) → Reads (list_custom_resources crd)
unfolding list_custom_resources
list_custom_resources-Reads crd s = ground arith

pub get_custom_resource-Reads :
    (crd : String) (name : String) → Reads (get_custom_resource crd name)
unfolding get_custom_resource
get_custom_resource-Reads crd name s = ground arith

pub list_webhooks-Reads : Reads list_webhooks
unfolding list_webhooks
list_webhooks-Reads s = ground arith

pub list_hpas-Reads : Reads list_hpas
unfolding list_hpas
list_hpas-Reads s = ground arith

pub list_users-Reads : Reads list_users
unfolding list_users
list_users-Reads s = ground arith

pub list_roles-Reads : (scope : String) → Reads (list_roles scope)
unfolding list_roles
list_roles-Reads scope s = ground arith

pub list_role_bindings-Reads : (scope : String) → Reads (list_role_bindings scope)
unfolding list_role_bindings
list_role_bindings-Reads scope s = ground arith

pub get_role-Reads : (scope : String) (name : String) → Reads (get_role scope name)
unfolding get_role
get_role-Reads scope name s = ground arith

pub get_user_by_token-Reads : (token : String) → Reads (get_user_by_token token)
unfolding get_user_by_token
get_user_by_token-Reads token s = ground arith

pub get_lease-Reads : (name : String) → Reads (get_lease name)
unfolding get_lease
get_lease-Reads name s = ground arith

pub list_network_policies-Reads : Reads list_network_policies
unfolding list_network_policies
list_network_policies-Reads s = ground arith

pub list_clusters-Reads : Reads list_clusters
unfolding list_clusters
list_clusters-Reads s = ground arith

pub list_federated_deployments-Reads : Reads list_federated_deployments
unfolding list_federated_deployments
list_federated_deployments-Reads s = ground arith
