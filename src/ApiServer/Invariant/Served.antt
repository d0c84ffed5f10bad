-- ===== src/ApiServer/Invariant/Served.antt =====
-- mvp/cmd/apiserver/main.go and m6.go: the invariant through any history of requests.
use kubernetes_style_orchest.Prelude.{List, [], ◌∷◌, Option-cases, inl, inr}
use kubernetes_style_orchest.Db.{Db}
use kubernetes_style_orchest.Sql.{M, after, Result, ok, err, result}
use kubernetes_style_orchest.ApiServer.Handlers.Pods.{handle_pods, handle_pods_by_name}
use kubernetes_style_orchest.ApiServer.Handlers.Services.{handle_services_by_name}
use kubernetes_style_orchest.ApiServer.Handlers.Endpoints.{
  handle_endpoints, handle_endpoints_by_name,
}
use kubernetes_style_orchest.ApiServer.Handlers.Nodes.{handle_nodes, handle_nodes_by_name}
use kubernetes_style_orchest.ApiServer.Handlers.Workloads.{handle_rs, handle_rs_by_name}
use kubernetes_style_orchest.ApiServer.Handlers.Deployments.{
  handle_deployments, handle_deployments_by_name,
}
use kubernetes_style_orchest.ApiServer.Handlers.Custom.{
  handle_crds, handle_crds_by_name, handle_dynamic_cr,
}
use kubernetes_style_orchest.ApiServer.Handlers.Access.{
  handle_role_bindings, handle_roles, handle_users,
}
use kubernetes_style_orchest.ApiServer.Handlers.Scaling.{
  handle_hpas, handle_hpas_by_name, handle_webhooks, handle_webhooks_by_name,
}
use kubernetes_style_orchest.ApiServer.Handlers.Leases.{handle_lease}
use kubernetes_style_orchest.ApiServer.Handlers.Policies.{handle_net_pols, handle_net_pols_by_name}
use kubernetes_style_orchest.ApiServer.Handlers.Federation.{
  handle_clusters, handle_clusters_by_name, handle_fed_deployments, handle_fed_deployments_by_name,
}
use kubernetes_style_orchest.ApiServer.ClusterIps.{ClusterIpAlloc}
use kubernetes_style_orchest.ApiServer.Http.{HttpRequest}
use kubernetes_style_orchest.ApiServer.Routes.{
  Route, guarded, pods, pods_by_name, services, services_by_name, endpoints, endpoints_by_name,
  nodes, nodes_by_name, replica_sets, replica_sets_by_name, deployments, deployments_by_name, crds,
  crds_by_name, users, roles, cluster_roles, role_bindings, cluster_role_bindings, webhooks,
  webhooks_by_name, hpas, hpas_by_name, leases, net_pols, net_pols_by_name, clusters,
  clusters_by_name, fed_deployments, fed_deployments_by_name, dynamic,
}
use kubernetes_style_orchest.ApiServer.Routes.Serve.{Server, refusal, beside, handler, serve}
use kubernetes_style_orchest.ApiServer.Routes.Reading.{handle_lease-Reads}
use kubernetes_style_orchest.ApiServer.Invariant.{Consistent, Keeps}
use kubernetes_style_orchest.ApiServer.Invariant.Keeping.{Reads-Keeps, bind-Keeps}
use kubernetes_style_orchest.ApiServer.Invariant.Custom.{
  guard-Keeps, handle_crds-Keeps, handle_crds_by_name-Keeps, handle_dynamic_cr-Keeps,
  handle_fed_deployments-Keeps, handle_services-Keeps, handle_services_by_name-Keeps,
}
use kubernetes_style_orchest.ApiServer.Invariant.Admitted.{
  handle_deployments-Keeps, handle_pods-Keeps, handle_pods_by_name-Keeps,
}
use kubernetes_style_orchest.ApiServer.Invariant.Checked.{
  handle_hpas-Keeps, handle_hpas_by_name-Keeps, handle_role_bindings-Keeps, handle_roles-Keeps,
  handle_users-Keeps, handle_webhooks-Keeps, handle_webhooks_by_name-Keeps,
}
use kubernetes_style_orchest.ApiServer.Invariant.Handlers.{
  handle_endpoints_by_name-Keeps, handle_clusters-Keeps, handle_clusters_by_name-Keeps,
  handle_deployments_by_name-Keeps, handle_endpoints-Keeps, handle_fed_deployments_by_name-Keeps,
  handle_net_pols-Keeps, handle_net_pols_by_name-Keeps, handle_nodes-Keeps,
  handle_nodes_by_name-Keeps, handle_rs-Keeps, handle_rs_by_name-Keeps,
}

beside-Keeps : {A : Type 0} (a : ClusterIpAlloc) (m : M A) → Keeps m → Keeps (beside a m)
beside-Keeps a m h = bind-Keeps m _ h (λ x s k. k)

module _ (c : Server) where
  handler-Keeps :
      (route : Route) (a : ClusterIpAlloc) (r : HttpRequest) → Keeps (handler c route a r)
  unfolding handler
  handler-Keeps pods a r =
      beside-Keeps a (handle_pods c.post c.uid c.marshal_pod c.read_pod c.now r)
        (handle_pods-Keeps c.post c.uid c.marshal_pod c.read_pod c.now r)
  handler-Keeps pods_by_name a r =
      beside-Keeps a (handle_pods_by_name c.read_pod_status c.now r)
        (handle_pods_by_name-Keeps c.read_pod_status c.now r)
  handler-Keeps services a r = handle_services-Keeps c.address c.read_service c.now a r
  handler-Keeps services_by_name a r =
      beside-Keeps a (handle_services_by_name r) (handle_services_by_name-Keeps r)
  handler-Keeps endpoints a r =
      beside-Keeps a (handle_endpoints c.read_endpoints c.now r)
        (handle_endpoints-Keeps c.read_endpoints c.now r)
  handler-Keeps endpoints_by_name a r =
      beside-Keeps a (handle_endpoints_by_name r) (handle_endpoints_by_name-Keeps r)
  handler-Keeps nodes a r =
      beside-Keeps a (handle_nodes c.read_node c.now r) (handle_nodes-Keeps c.read_node c.now r)
  handler-Keeps nodes_by_name a r =
      beside-Keeps a (handle_nodes_by_name r) (handle_nodes_by_name-Keeps r)
  handler-Keeps replica_sets a r =
      beside-Keeps a (handle_rs c.read_replica_set c.now r)
        (handle_rs-Keeps c.read_replica_set c.now r)
  handler-Keeps replica_sets_by_name a r =
      beside-Keeps a (handle_rs_by_name c.read_replica_set_status c.now r)
        (handle_rs_by_name-Keeps c.read_replica_set_status c.now r)
  handler-Keeps deployments a r =
      beside-Keeps a
        (handle_deployments c.post c.uid c.marshal_deployment c.unmarshal_deployment c.now r)
        (handle_deployments-Keeps c.post c.uid c.marshal_deployment c.unmarshal_deployment c.now r)
  handler-Keeps deployments_by_name a r =
      beside-Keeps a (handle_deployments_by_name c.read_deployment_status c.now r)
        (handle_deployments_by_name-Keeps c.read_deployment_status c.now r)
  handler-Keeps crds a r =
      beside-Keeps a (handle_crds c.read_crd c.now r) (handle_crds-Keeps c.read_crd c.now r)
  handler-Keeps crds_by_name a r =
      beside-Keeps a (handle_crds_by_name r) (handle_crds_by_name-Keeps r)
  handler-Keeps users a r =
      beside-Keeps a (handle_users c.read_user c.now r) (handle_users-Keeps c.read_user c.now r)
  handler-Keeps roles a r =
      beside-Keeps a (handle_roles c.read_role c.now "Role" r)
        (handle_roles-Keeps c.read_role c.now "Role" r)
  handler-Keeps cluster_roles a r =
      beside-Keeps a (handle_roles c.read_role c.now "ClusterRole" r)
        (handle_roles-Keeps c.read_role c.now "ClusterRole" r)
  handler-Keeps role_bindings a r =
      beside-Keeps a (handle_role_bindings c.read_role_binding c.now "RoleBinding" r)
        (handle_role_bindings-Keeps c.read_role_binding c.now "RoleBinding" r)
  handler-Keeps cluster_role_bindings a r =
      beside-Keeps a (handle_role_bindings c.read_role_binding c.now "ClusterRoleBinding" r)
        (handle_role_bindings-Keeps c.read_role_binding c.now "ClusterRoleBinding" r)
  handler-Keeps webhooks a r =
      beside-Keeps a (handle_webhooks c.read_webhook c.now r)
        (handle_webhooks-Keeps c.read_webhook c.now r)
  handler-Keeps webhooks_by_name a r =
      beside-Keeps a (handle_webhooks_by_name r) (handle_webhooks_by_name-Keeps r)
  handler-Keeps hpas a r =
      beside-Keeps a (handle_hpas c.read_hpa c.now r) (handle_hpas-Keeps c.read_hpa c.now r)
  handler-Keeps hpas_by_name a r =
      beside-Keeps a (handle_hpas_by_name c.read_hpa_status c.now r)
        (handle_hpas_by_name-Keeps c.read_hpa_status c.now r)
  handler-Keeps leases a r =
      beside-Keeps a (handle_lease c.identity c.now r)
        (Reads-Keeps (handle_lease c.identity c.now r) (handle_lease-Reads c r))
  handler-Keeps net_pols a r =
      beside-Keeps a (handle_net_pols c.read_net_pol c.now r)
        (handle_net_pols-Keeps c.read_net_pol c.now r)
  handler-Keeps net_pols_by_name a r =
      beside-Keeps a (handle_net_pols_by_name r) (handle_net_pols_by_name-Keeps r)
  handler-Keeps clusters a r =
      beside-Keeps a (handle_clusters c.read_cluster c.now r)
        (handle_clusters-Keeps c.read_cluster c.now r)
  handler-Keeps clusters_by_name a r =
      beside-Keeps a (handle_clusters_by_name c.read_cluster_status c.now r)
        (handle_clusters_by_name-Keeps c.read_cluster_status c.now r)
  handler-Keeps fed_deployments a r =
      beside-Keeps a (handle_fed_deployments c.read_fed_deployment c.now r)
        (handle_fed_deployments-Keeps c.read_fed_deployment c.now r)
  handler-Keeps fed_deployments_by_name a r =
      beside-Keeps a (handle_fed_deployments_by_name c.read_fed_deployment_status c.now r)
        (handle_fed_deployments_by_name-Keeps c.read_fed_deployment_status c.now r)
  handler-Keeps dynamic a r =
      beside-Keeps a (handle_dynamic_cr c.to_lower c.rbac_enforce c.read_custom_resource c.now r)
        (handle_dynamic_cr-Keeps c.to_lower c.rbac_enforce c.read_custom_resource c.now r)

  pub serve-Keeps :
      (route : Route) (a : ClusterIpAlloc) (r : HttpRequest) → Keeps (serve c route a r)
  unfolding serve
  serve-Keeps route a r = elim (Option-cases (guarded route)) [
    | inl e ↦ rw (e, serve) (handler-Keeps route a r)
    | inr ((api_group, resource), e) ↦
        rw (e, serve)
          (guard-Keeps c.to_lower (refusal route a) c.rbac_enforce api_group resource
            (handler c route a) r (handler-Keeps route a r))
  ]

-- A request, and the server as it stands when the request comes: its clock moves on, the webhooks
-- answer anew, and another replica may take over.
pub record Arrival : Type 0 where
  pub server : Server
  pub route : Route
  pub request : HttpRequest

-- The allocator after a request.
abbrev pub alloc_after :
    {A : Type 0} → ClusterIpAlloc → Result (A × ClusterIpAlloc) → ClusterIpAlloc
alloc_after a (ok x) = x.1
alloc_after a (err e) = a

-- The tables after a history of requests.
unfoldable pub serve_all : List Arrival → ClusterIpAlloc → Db → Db
unfolding serve
serve_all [] a s = s
serve_all (x ∷ xs) a s =
    let run = serve x.server x.route a x.request s in
    serve_all xs (alloc_after a (result run)) (after run)

-- Whatever requests the server answers, and whichever statements the driver fails meanwhile: if every
-- autoscaler asks for at least one replica and at most its maximum, every service's column holds the
-- address that it shows, every user has a token, every webhook has a known type and a URL, and every
-- definition has a group, a version, a kind and the plural of its column, then they still do.
pub serve_all-Consistent :
    (xs : List Arrival) (a : ClusterIpAlloc) (s : Db) → Consistent s → Consistent (serve_all xs a s)
unfolding serve_all
serve_all-Consistent [] a s k = k
serve_all-Consistent (x ∷ xs) a s k =
    serve_all-Consistent xs _ _ (serve-Keeps x.server x.route a x.request s k)
