-- ===== src/ApiServer/Routes/Serve.antt =====
-- mvp/cmd/apiserver/main.go: the server. Its code that stands outside the repository is a record:
-- what `encoding/json` makes of a text, what webhooks answer, what `randID` draws, the clock.
use kubernetes_style_orchest.Prelude.{ℕ, String, Bool, Option, none, some}
use kubernetes_style_orchest.Api.{
  Pod, PodStatus, Service, Endpoints, Node, ReplicaSet, ReplicaSetStatus, Deployment,
  DeploymentStatus, Crd, CustomResource, User, Role, RoleBinding, AdmissionWebhook,
  AdmissionReviewRequest, Hpa, HpaStatus, NetworkPolicy, Cluster, ClusterStatus,
  FederatedDeployment, FederatedDeploymentStatus,
}
use kubernetes_style_orchest.Sql.{M, ◌>>=◌, pure}
use kubernetes_style_orchest.Admission.{Answer}
use kubernetes_style_orchest.ApiServer.ClusterIps.{ClusterIpAlloc}
use kubernetes_style_orchest.ApiServer.Http.{HttpRequest, Reply, error}
use kubernetes_style_orchest.ApiServer.Guard.{guard}
use kubernetes_style_orchest.ApiServer.Handlers.Pods.{handle_pods, handle_pods_by_name}
use kubernetes_style_orchest.ApiServer.Handlers.Services.{handle_services, handle_services_by_name}
use kubernetes_style_orchest.ApiServer.Handlers.Endpoints.{
  handle_endpoints, handle_endpoints_by_name,
}
use kubernetes_style_orchest.ApiServer.Handlers.Nodes.{handle_nodes, handle_nodes_by_name}
use kubernetes_style_orchest.ApiServer.Handlers.Workloads.{handle_rs, handle_rs_by_name}
use kubernetes_style_orchest.ApiServer.Handlers.Deployments.{
  handle_deployments, handle_deployments_by_name,
}
use kubernetes_style_orchest.ApiServer.Handlers.Custom.{
  handle_crds, handle_crds_by_name, handle_dynamic_cr,
}
use kubernetes_style_orchest.ApiServer.Handlers.Access.{
  handle_users, handle_roles, handle_role_bindings,
}
use kubernetes_style_orchest.ApiServer.Handlers.Scaling.{
  handle_webhooks, handle_webhooks_by_name, handle_hpas, handle_hpas_by_name,
}
use kubernetes_style_orchest.ApiServer.Handlers.Leases.{handle_lease}
use kubernetes_style_orchest.ApiServer.Handlers.Policies.{handle_net_pols, handle_net_pols_by_name}
use kubernetes_style_orchest.ApiServer.Handlers.Federation.{
  handle_clusters, handle_clusters_by_name, handle_fed_deployments, handle_fed_deployments_by_name,
}
use kubernetes_style_orchest.ApiServer.Routes.{
  Route, Object, guarded, pods, pods_by_name, services, services_by_name, endpoints,
  endpoints_by_name, nodes, nodes_by_name, replica_sets, replica_sets_by_name, deployments,
  deployments_by_name, crds, crds_by_name, users, roles, cluster_roles, role_bindings,
  cluster_role_bindings, webhooks, webhooks_by_name, hpas, hpas_by_name, leases, net_pols,
  net_pols_by_name, clusters, clusters_by_name, fed_deployments, fed_deployments_by_name, dynamic,
}

pub record Server : Type 0 where
  pub rbac_enforce : Bool
  pub identity : String
  pub now : ℕ
  pub to_lower : String → String
  pub address : ℕ → String
  pub post : ℕ → String → AdmissionReviewRequest → Answer
  pub uid : ℕ → String
  pub marshal_pod : Pod → String
  pub marshal_deployment : Deployment → String
  pub unmarshal_deployment : String → Deployment → Option Deployment
  pub read_pod : String → Option Pod
  pub read_pod_status : String → Option PodStatus
  pub read_service : String → Option Service
  pub read_endpoints : String → Option Endpoints
  pub read_node : String → Option Node
  pub read_replica_set : String → Option ReplicaSet
  pub read_replica_set_status : String → Option ReplicaSetStatus
  pub read_deployment_status : String → Option DeploymentStatus
  pub read_crd : String → Option Crd
  pub read_custom_resource : String → Option CustomResource
  pub read_user : String → Option User
  pub read_role : String → Option Role
  pub read_role_binding : String → Option RoleBinding
  pub read_webhook : String → Option AdmissionWebhook
  pub read_hpa : String → Option Hpa
  pub read_hpa_status : String → Option HpaStatus
  pub read_net_pol : String → Option NetworkPolicy
  pub read_cluster : String → Option Cluster
  pub read_cluster_status : String → Option ClusterStatus
  pub read_fed_deployment : String → Option FederatedDeployment
  pub read_fed_deployment_status : String → Option FederatedDeploymentStatus

-- A handler that leaves the allocator as it is.
abbrev pub beside : {A : Type 0} → ClusterIpAlloc → M A → M (A × ClusterIpAlloc)
beside a m = do x ← m; pure (x, a)

-- The reply of `guard` to a request that it refuses.
abbrev pub refusal : (route : Route) → ClusterIpAlloc → ℕ → Reply (Object route) × ClusterIpAlloc
refusal route a code = (error code, a)

module _ (c : Server) where
  unfoldable pub handler :
      (route : Route) → ClusterIpAlloc → HttpRequest → M (Reply (Object route) × ClusterIpAlloc)
  unfolding handle_pods handle_pods_by_name handle_services handle_services_by_name handle_endpoints
      handle_endpoints_by_name handle_nodes handle_nodes_by_name handle_rs handle_rs_by_name
      handle_deployments handle_deployments_by_name handle_crds handle_crds_by_name handle_users
      handle_roles handle_role_bindings handle_webhooks handle_webhooks_by_name handle_hpas
      handle_hpas_by_name handle_lease handle_net_pols handle_net_pols_by_name handle_clusters
      handle_clusters_by_name handle_fed_deployments handle_fed_deployments_by_name
      handle_dynamic_cr
  handler pods a r = beside a (handle_pods c.post c.uid c.marshal_pod c.read_pod c.now r)
  handler pods_by_name a r = beside a (handle_pods_by_name c.read_pod_status c.now r)
  handler services a r = handle_services c.address c.read_service c.now a r
  handler services_by_name a r = beside a (handle_services_by_name r)
  handler endpoints a r = beside a (handle_endpoints c.read_endpoints c.now r)
  handler endpoints_by_name a r = beside a (handle_endpoints_by_name r)
  handler nodes a r = beside a (handle_nodes c.read_node c.now r)
  handler nodes_by_name a r = beside a (handle_nodes_by_name r)
  handler replica_sets a r = beside a (handle_rs c.read_replica_set c.now r)
  handler replica_sets_by_name a r = beside a (handle_rs_by_name c.read_replica_set_status c.now r)
  handler deployments a r =
      beside a (handle_deployments c.post c.uid c.marshal_deployment c.unmarshal_deployment c.now r)
  handler deployments_by_name a r =
      beside a (handle_deployments_by_name c.read_deployment_status c.now r)
  handler crds a r = beside a (handle_crds c.read_crd c.now r)
  handler crds_by_name a r = beside a (handle_crds_by_name r)
  handler users a r = beside a (handle_users c.read_user c.now r)
  handler roles a r = beside a (handle_roles c.read_role c.now "Role" r)
  handler cluster_roles a r = beside a (handle_roles c.read_role c.now "ClusterRole" r)
  handler role_bindings a r =
      beside a (handle_role_bindings c.read_role_binding c.now "RoleBinding" r)
  handler cluster_role_bindings a r =
      beside a (handle_role_bindings c.read_role_binding c.now "ClusterRoleBinding" r)
  handler webhooks a r = beside a (handle_webhooks c.read_webhook c.now r)
  handler webhooks_by_name a r = beside a (handle_webhooks_by_name r)
  handler hpas a r = beside a (handle_hpas c.read_hpa c.now r)
  handler hpas_by_name a r = beside a (handle_hpas_by_name c.read_hpa_status c.now r)
  handler leases a r = beside a (handle_lease c.identity c.now r)
  handler net_pols a r = beside a (handle_net_pols c.read_net_pol c.now r)
  handler net_pols_by_name a r = beside a (handle_net_pols_by_name r)
  handler clusters a r = beside a (handle_clusters c.read_cluster c.now r)
  handler clusters_by_name a r = beside a (handle_clusters_by_name c.read_cluster_status c.now r)
  handler fed_deployments a r = beside a (handle_fed_deployments c.read_fed_deployment c.now r)
  handler fed_deployments_by_name a r =
      beside a (handle_fed_deployments_by_name c.read_fed_deployment_status c.now r)
  handler dynamic a r =
      beside a (handle_dynamic_cr c.to_lower c.rbac_enforce c.read_custom_resource c.now r)

  unfoldable pub serve :
      (route : Route) → ClusterIpAlloc → HttpRequest → M (Reply (Object route) × ClusterIpAlloc)
  unfolding guarded guard handler
  serve route a r = elim (guarded route) [
    | none ↦ handler route a r
    | some (api_group, resource) ↦
        guard c.to_lower (refusal route a) c.rbac_enforce api_group resource (handler route a) r
  ]
