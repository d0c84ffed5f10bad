-- ===== src/ApiServer/Routes/Reading.antt =====
-- mvp/cmd/apiserver/main.go and m6.go: a request with the method GET leaves every table as it was,
-- on every route.
use kubernetes_style_orchest.Prelude.{
  ◌==◌, string_eq, pair_eq, not, ◌||◌, List, refl, value_at, trim_prefix, strip_suffix,
  if◌then◌else◌, Option-cases, inl, inr,
}
use kubernetes_style_orchest.Api.{Pod, Crd}
use kubernetes_style_orchest.Sql.{M, Result, ok, err, ◌>>=◌, pure, attempt}
use kubernetes_style_orchest.Sql.Reads.{Reads, Reads-attempt, Reads-bind}
use kubernetes_style_orchest.Store.Access.{list_role_bindings, list_roles, list_users}
use kubernetes_style_orchest.Store.Custom.{
  get_crd, get_crd_by_plural, get_custom_resource, list_crds, list_custom_resources,
}
use kubernetes_style_orchest.Store.Leases.{get_lease}
use kubernetes_style_orchest.Store.Members.{
  get_cluster, get_federated_deployment, get_network_policy, list_clusters,
  list_federated_deployments, list_network_policies,
}
use kubernetes_style_orchest.Store.Nodes.{get_node, list_nodes}
use kubernetes_style_orchest.Store.Pods.{get_pod, list_pods, list_pods_by_node}
use kubernetes_style_orchest.Store.Scaling.{get_hpa, list_hpas, list_webhooks}
use kubernetes_style_orchest.Store.Services.{
  get_endpoints, get_service, list_endpoints, list_services,
}
use kubernetes_style_orchest.Store.Workloads.{
  get_deployment, get_replica_set, list_deployments, list_replica_sets,
}
use kubernetes_style_orchest.Store.Reading.{
  get_cluster-Reads, get_crd-Reads, get_crd_by_plural-Reads, get_custom_resource-Reads,
  get_deployment-Reads, get_endpoints-Reads, get_federated_deployment-Reads, get_hpa-Reads,
  get_lease-Reads, get_network_policy-Reads, get_node-Reads, get_pod-Reads, get_replica_set-Reads,
  get_service-Reads, list_clusters-Reads, list_crds-Reads, list_custom_resources-Reads,
  list_deployments-Reads, list_endpoints-Reads, list_federated_deployments-Reads, list_hpas-Reads,
  list_network_policies-Reads, list_nodes-Reads, list_pods-Reads, list_pods_by_node-Reads,
  list_replica_sets-Reads, list_role_bindings-Reads, list_roles-Reads, list_services-Reads,
  list_users-Reads, list_webhooks-Reads,
}
use kubernetes_style_orchest.Rbac.Reading.{Reads-if}
use kubernetes_style_orchest.CustomResources.{CrPath, parse_path}
use kubernetes_style_orchest.ApiServer.ClusterIps.{ClusterIpAlloc}
use kubernetes_style_orchest.ApiServer.Http.{HttpRequest, error, reply_items}
use kubernetes_style_orchest.ApiServer.Http.Reading.{
  IsGet, reply_items-Reads, reply_object-Reads, get_or_post-Reads, get_or_delete-Reads,
  by_name-Reads,
}
use kubernetes_style_orchest.ApiServer.Guard.Authorized.{guard-Reads}
use kubernetes_style_orchest.ApiServer.Handlers.Pods.{
  handle_pods, handle_pods_by_name, list_pods_reply,
}
use kubernetes_style_orchest.ApiServer.Handlers.Services.{handle_services, handle_services_by_name}
use kubernetes_style_orchest.ApiServer.Handlers.Endpoints.{
  handle_endpoints, handle_endpoints_by_name,
}
use kubernetes_style_orchest.ApiServer.Handlers.Nodes.{handle_nodes, handle_nodes_by_name}
use kubernetes_style_orchest.ApiServer.Handlers.Workloads.{handle_rs, handle_rs_by_name}
use kubernetes_style_orchest.ApiServer.Handlers.Deployments.{
  handle_deployments, handle_deployments_by_name,
}
use kubernetes_style_orchest.ApiServer.Handlers.Custom.{
  handle_crds, handle_crds_by_name, handle_dynamic_cr, serve_custom, with_crd,
}
use kubernetes_style_orchest.ApiServer.Handlers.Access.{
  handle_role_bindings, handle_roles, handle_users,
}
use kubernetes_style_orchest.ApiServer.Handlers.Scaling.{
  handle_hpas, handle_hpas_by_name, handle_webhooks, handle_webhooks_by_name,
}
use kubernetes_style_orchest.ApiServer.Handlers.Leases.{LeaseInfo, lease_info, handle_lease}
use kubernetes_style_orchest.ApiServer.Handlers.Policies.{handle_net_pols, handle_net_pols_by_name}
use kubernetes_style_orchest.ApiServer.Handlers.Federation.{
  handle_clusters, handle_clusters_by_name, handle_fed_deployments, handle_fed_deployments_by_name,
}
use kubernetes_style_orchest.ApiServer.Routes.{
  Route, guarded, pods, pods_by_name, services, services_by_name, endpoints, endpoints_by_name,
  nodes, nodes_by_name, replica_sets, replica_sets_by_name, deployments, deployments_by_name, crds,
  crds_by_name, users, roles, cluster_roles, role_bindings, cluster_role_bindings, webhooks,
  webhooks_by_name, hpas, hpas_by_name, leases, net_pols, net_pols_by_name, clusters,
  clusters_by_name, fed_deployments, fed_deployments_by_name, dynamic,
}
use kubernetes_style_orchest.ApiServer.Routes.Serve.{Server, refusal, beside, handler, serve}

beside-Reads : {A : Type 0} (a : ClusterIpAlloc) (m : M A) → Reads m → Reads (beside a m)
beside-Reads a m h = Reads-bind m _ h (λ x s. refl)

pub list_pods_reply-Reads : (r : HttpRequest) → Reads (list_pods_reply r)
unfolding list_pods_reply
list_pods_reply-Reads r =
    let node = value_at r.query "nodeName" in
    let phase = value_at r.query "phase" in
    let list : M (List Pod) =
      if not (node == "") then list_pods_by_node node else list_pods phase in
    Reads-bind (attempt list) _
      (Reads-attempt list (
        Reads-if (not (node == "")) (list_pods_by_node node) (list_pods phase)
          (list_pods_by_node-Reads node) (list_pods-Reads phase)))
      (λ x s. refl)

webhooks_by_name-Reads : (r : HttpRequest) → IsGet r → Reads (handle_webhooks_by_name r)
unfolding handle_webhooks_by_name
webhooks_by_name-Reads r get = rw get (
    Reads-if (trim_prefix "/apis/admission.mk.io/v1/webhooks/" r.path == "") _ _ (λ s. refl)
      (λ s. refl))

endpoints_by_name-Reads : (r : HttpRequest) → IsGet r → Reads (handle_endpoints_by_name r)
unfolding handle_endpoints_by_name
endpoints_by_name-Reads r get =
    let name = trim_prefix "/api/v1/endpoints/" r.path in
    rw get (
      Reads-if (name == "") _ _ (λ s. refl)
        (reply_object-Reads (get_endpoints name) (get_endpoints-Reads name)))

module _ (c : Server) where
  handle_services-Reads :
      (a : ClusterIpAlloc) (r : HttpRequest)
      → IsGet r
      → Reads (handle_services c.address c.read_service c.now a r)
  unfolding handle_services
  handle_services-Reads a r get = rw get (
      Reads-bind (reply_items list_services) _ (reply_items-Reads list_services list_services-Reads)
        (λ x s. refl))

  pub handle_lease-Reads : (r : HttpRequest) → Reads (handle_lease c.identity c.now r)
  unfolding handle_lease
  handle_lease-Reads r =
      let name = trim_prefix "/apis/coordination.mk.io/v1/leases/" r.path in
      let info : M LeaseInfo = (do l ← get_lease name; pure (lease_info c.identity name c.now l)) in
      Reads-if (name == "") _ _ (λ s. refl)
        (reply_object-Reads info
          (Reads-bind (get_lease name) _ (get_lease-Reads name) (λ l s. refl)))

  module _ (r : HttpRequest) (get : IsGet r) where
    serve_custom-Reads :
        (p : CrPath) (d : Crd)
        → Reads (serve_custom c.to_lower c.rbac_enforce c.read_custom_resource c.now p d r)
    unfolding serve_custom
    serve_custom-Reads p d =
        Reads-if (p.name == "") _ _
          (get_or_post-Reads r get _ _ (
            reply_items-Reads (list_custom_resources d.metadata.name)
              (list_custom_resources-Reads d.metadata.name)))
          (get_or_delete-Reads r get p.name _ _ (
            reply_object-Reads (get_custom_resource d.metadata.name p.name)
              (get_custom_resource-Reads d.metadata.name p.name)))

    with_crd-Reads :
        (p : CrPath) (d : Result Crd)
        → Reads (with_crd c.to_lower c.rbac_enforce c.read_custom_resource c.now p r d)
    unfolding with_crd
    with_crd-Reads p (err e) = λ s. refl
    with_crd-Reads p (ok d) =
        Reads-if (not (d.spec.group == p.group) || not (d.spec.version == p.version)) _ _
          (λ s. refl)
          (guard-Reads c.to_lower error c.rbac_enforce p.group p.plural
            (serve_custom c.to_lower c.rbac_enforce c.read_custom_resource c.now p d) r
            (serve_custom-Reads p d))

    handle_dynamic_cr-Reads :
        Reads (handle_dynamic_cr c.to_lower c.rbac_enforce c.read_custom_resource c.now r)
    unfolding handle_dynamic_cr
    handle_dynamic_cr-Reads = elim (Option-cases (parse_path r.path)) [
      | inl e ↦ rw (e, handle_dynamic_cr) (λ s. refl)
      | inr (p, e) ↦
          rw (e, handle_dynamic_cr)
            (Reads-bind (attempt (get_crd_by_plural p.plural)) _
              (Reads-attempt (get_crd_by_plural p.plural) (get_crd_by_plural-Reads p.plural))
              (with_crd-Reads p))
    ]

  handler-Reads :
      (route : Route) (a : ClusterIpAlloc) (r : HttpRequest) → IsGet r → Reads (handler c route a r)
  unfolding handler handle_clusters handle_clusters_by_name handle_crds handle_crds_by_name
      handle_deployments handle_deployments_by_name handle_endpoints handle_fed_deployments
      handle_fed_deployments_by_name handle_hpas handle_hpas_by_name handle_net_pols
      handle_net_pols_by_name handle_nodes handle_nodes_by_name handle_pods handle_pods_by_name
      handle_role_bindings handle_roles handle_rs handle_rs_by_name handle_services_by_name
      handle_users handle_webhooks
  handler-Reads pods a r get =
      beside-Reads a (handle_pods c.post c.uid c.marshal_pod c.read_pod c.now r)
        (get_or_post-Reads r get _ _ (list_pods_reply-Reads r))
  handler-Reads pods_by_name a r get =
      let name = trim_prefix "/api/v1/pods/" r.path in
      beside-Reads a (handle_pods_by_name c.read_pod_status c.now r) (
        by_name-Reads r get (strip_suffix "/status" name) name _ _ _
          (reply_object-Reads (get_pod name) (get_pod-Reads name)))
  handler-Reads services a r get = handle_services-Reads a r get
  handler-Reads services_by_name a r get =
      let name = trim_prefix "/api/v1/services/" r.path in
      beside-Reads a (handle_services_by_name r) (
        get_or_delete-Reads r get name _ _
          (reply_object-Reads (get_service name) (get_service-Reads name)))
  handler-Reads endpoints a r get =
      beside-Reads a (handle_endpoints c.read_endpoints c.now r)
        (rw get (reply_items-Reads list_endpoints list_endpoints-Reads))
  handler-Reads endpoints_by_name a r get =
      beside-Reads a (handle_endpoints_by_name r) (endpoints_by_name-Reads r get)
  handler-Reads nodes a r get =
      beside-Reads a (handle_nodes c.read_node c.now r)
        (rw get (reply_items-Reads list_nodes list_nodes-Reads))
  handler-Reads nodes_by_name a r get =
      let name = trim_prefix "/api/v1/nodes/" r.path in
      beside-Reads a (handle_nodes_by_name r) (
        get_or_delete-Reads r get name _ _
          (reply_object-Reads (get_node name) (get_node-Reads name)))
  handler-Reads replica_sets a r get =
      beside-Reads a (handle_rs c.read_replica_set c.now r)
        (get_or_post-Reads r get _ _ (reply_items-Reads list_replica_sets list_replica_sets-Reads))
  handler-Reads replica_sets_by_name a r get =
      let name = trim_prefix "/apis/apps/v1/replicasets/" r.path in
      beside-Reads a (handle_rs_by_name c.read_replica_set_status c.now r) (
        by_name-Reads r get (strip_suffix "/status" name) name _ _ _
          (reply_object-Reads (get_replica_set name) (get_replica_set-Reads name)))
  handler-Reads deployments a r get =
      beside-Reads a
        (handle_deployments c.post c.uid c.marshal_deployment c.unmarshal_deployment c.now r)
        (get_or_post-Reads r get _ _ (reply_items-Reads list_deployments list_deployments-Reads))
  handler-Reads deployments_by_name a r get =
      let name = trim_prefix "/apis/apps/v1/deployments/" r.path in
      beside-Reads a (handle_deployments_by_name c.read_deployment_status c.now r) (
        by_name-Reads r get (strip_suffix "/status" name) name _ _ _
          (reply_object-Reads (get_deployment name) (get_deployment-Reads name)))
  handler-Reads crds a r get =
      beside-Reads a (handle_crds c.read_crd c.now r)
        (get_or_post-Reads r get _ _ (reply_items-Reads list_crds list_crds-Reads))
  handler-Reads crds_by_name a r get =
      let name = trim_prefix "/apis/mk.io/v1/customresourcedefinitions/" r.path in
      beside-Reads a (handle_crds_by_name r) (
        get_or_delete-Reads r get name _ _ (reply_object-Reads (get_crd name) (get_crd-Reads name)))
  handler-Reads users a r get =
      beside-Reads a (handle_users c.read_user c.now r)
        (get_or_post-Reads r get _ _ (reply_items-Reads list_users list_users-Reads))
  handler-Reads roles a r get = beside-Reads a (handle_roles c.read_role c.now "Role" r) (
      get_or_post-Reads r get _ _ (reply_items-Reads (list_roles "Role") (list_roles-Reads "Role")))
  handler-Reads cluster_roles a r get =
      beside-Reads a (handle_roles c.read_role c.now "ClusterRole" r) (
        get_or_post-Reads r get _ _
          (reply_items-Reads (list_roles "ClusterRole") (list_roles-Reads "ClusterRole")))
  handler-Reads role_bindings a r get =
      beside-Reads a (handle_role_bindings c.read_role_binding c.now "RoleBinding" r) (
        get_or_post-Reads r get _ _ (
          reply_items-Reads (list_role_bindings "RoleBinding")
            (list_role_bindings-Reads "RoleBinding")))
  handler-Reads cluster_role_bindings a r get =
      beside-Reads a (handle_role_bindings c.read_role_binding c.now "ClusterRoleBinding" r) (
        get_or_post-Reads r get _ _ (
          reply_items-Reads (list_role_bindings "ClusterRoleBinding")
            (list_role_bindings-Reads "ClusterRoleBinding")))
  handler-Reads webhooks a r get =
      beside-Reads a (handle_webhooks c.read_webhook c.now r)
        (get_or_post-Reads r get _ _ (reply_items-Reads list_webhooks list_webhooks-Reads))
  handler-Reads webhooks_by_name a r get =
      beside-Reads a (handle_webhooks_by_name r) (webhooks_by_name-Reads r get)
  handler-Reads hpas a r get =
      beside-Reads a (handle_hpas c.read_hpa c.now r)
        (get_or_post-Reads r get _ _ (reply_items-Reads list_hpas list_hpas-Reads))
  handler-Reads hpas_by_name a r get =
      let name = trim_prefix "/apis/autoscaling.mk.io/v1/horizontalpodautoscalers/" r.path in
      beside-Reads a (handle_hpas_by_name c.read_hpa_status c.now r) (
        by_name-Reads r get (strip_suffix "/status" name) name _ _ _
          (reply_object-Reads (get_hpa name) (get_hpa-Reads name)))
  handler-Reads leases a r get =
      beside-Reads a (handle_lease c.identity c.now r) (handle_lease-Reads r)
  handler-Reads net_pols a r get = beside-Reads a (handle_net_pols c.read_net_pol c.now r) (
      get_or_post-Reads r get _ _
        (reply_items-Reads list_network_policies list_network_policies-Reads))
  handler-Reads net_pols_by_name a r get =
      let name = trim_prefix "/apis/networking.mk.io/v1/networkpolicies/" r.path in
      beside-Reads a (handle_net_pols_by_name r) (
        get_or_delete-Reads r get name _ _
          (reply_object-Reads (get_network_policy name) (get_network_policy-Reads name)))
  handler-Reads clusters a r get =
      beside-Reads a (handle_clusters c.read_cluster c.now r)
        (get_or_post-Reads r get _ _ (reply_items-Reads list_clusters list_clusters-Reads))
  handler-Reads clusters_by_name a r get =
      let name = trim_prefix "/apis/federation.mk.io/v1/clusters/" r.path in
      beside-Reads a (handle_clusters_by_name c.read_cluster_status c.now r) (
        by_name-Reads r get (strip_suffix "/status" name) name _ _ _
          (reply_object-Reads (get_cluster name) (get_cluster-Reads name)))
  handler-Reads fed_deployments a r get =
      beside-Reads a (handle_fed_deployments c.read_fed_deployment c.now r) (
        get_or_post-Reads r get _ _
          (reply_items-Reads list_federated_deployments list_federated_deployments-Reads))
  handler-Reads fed_deployments_by_name a r get =
      let name = trim_prefix "/apis/federation.mk.io/v1/federateddeployments/" r.path in
      beside-Reads a (handle_fed_deployments_by_name c.read_fed_deployment_status c.now r) (
        by_name-Reads r get (strip_suffix "/status" name) name _ _ _ (
          reply_object-Reads (get_federated_deployment name) (get_federated_deployment-Reads name)))
  handler-Reads dynamic a r get =
      beside-Reads a (handle_dynamic_cr c.to_lower c.rbac_enforce c.read_custom_resource c.now r)
        (handle_dynamic_cr-Reads r get)

  -- A request with the method GET leaves every table as it was, on every route, guarded or not, and
  -- whichever statements the driver fails.
  pub serve-Reads :
      (route : Route) (a : ClusterIpAlloc) (r : HttpRequest) → IsGet r → Reads (serve c route a r)
  unfolding serve
  serve-Reads route a r get = elim (Option-cases (guarded route)) [
    | inl e ↦ rw (e, serve) (handler-Reads route a r get)
    | inr ((api_group, resource), e) ↦
        rw (e, serve)
          (guard-Reads c.to_lower (refusal route a) c.rbac_enforce api_group resource
            (handler c route a) r (handler-Reads route a r get))
  ]
