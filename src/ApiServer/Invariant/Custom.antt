-- ===== src/ApiServer/Invariant/Custom.antt =====
-- mvp/cmd/apiserver/main.go and m6.go: services, CustomResourceDefinitions, their resources and
-- FederatedDeployments keep the invariant; so does the guard.
use kubernetes_style_orchest.Prelude.{
  ℕ, String, ◌==◌, string_eq, Bool, true, not, ◌||◌, Option, none, some, List, [], ◌∷◌, trim_prefix,
  if◌then◌else◌, Bool-cases, Option-cases, inl, inr, arith,
}
use kubernetes_style_orchest.Api.{Service, Crd, CustomResource, FederatedDeployment, User}
use kubernetes_style_orchest.Sql.{M, Result, ok, err, pure, attempt, ◌>>=◌}
use kubernetes_style_orchest.Store.Services.{
  list_services, get_service, list_cluster_ips, upsert_service, delete_service,
}
use kubernetes_style_orchest.Store.Custom.{
  list_crds, get_crd, upsert_crd, delete_crd, get_crd_by_plural, list_custom_resources,
  get_custom_resource, upsert_custom_resource, delete_custom_resource,
}
use kubernetes_style_orchest.Store.Members.{
  list_federated_deployments, upsert_federated_deployment, get_federated_deployment,
}
use kubernetes_style_orchest.Store.Reading.{
  list_services-Reads, get_service-Reads, list_cluster_ips-Reads, list_crds-Reads, get_crd-Reads,
  get_crd_by_plural-Reads, list_custom_resources-Reads, get_custom_resource-Reads,
  list_federated_deployments-Reads, get_federated_deployment-Reads,
}
use kubernetes_style_orchest.Rbac.{Verdict, allowed, denied, authenticate, authorize}
use kubernetes_style_orchest.Rbac.Reading.{authenticate-Reads, authorize-Reads}
use kubernetes_style_orchest.CustomResources.{CrPath, parse_path, validate_spec}
use kubernetes_style_orchest.ApiServer.ClusterIps.{ClusterIpAlloc}
use kubernetes_style_orchest.ApiServer.Http.{HttpRequest, Reply, error, reply_items}
use kubernetes_style_orchest.ApiServer.Guard.{rbac_request, after_verdict, checked, guard}
use kubernetes_style_orchest.ApiServer.Handlers.Services.{
  assign_cluster_ip, write_service, store_service, create_service, handle_services,
  handle_services_by_name, defaulted_service,
}
use kubernetes_style_orchest.ApiServer.Handlers.Custom.{
  store_crd, handle_crds, handle_crds_by_name, defaulted_crd, stamped_resource,
  store_custom_resource, serve_custom, with_crd, handle_dynamic_cr,
}
use kubernetes_style_orchest.ApiServer.Handlers.Federation.{
  store_fed_deployment, handle_fed_deployments,
}
use kubernetes_style_orchest.ApiServer.Invariant.{Keeps}
use kubernetes_style_orchest.ApiServer.Invariant.Keeping.{Reads-Keeps, attempt-Keeps, bind-Keeps}
use kubernetes_style_orchest.ApiServer.Invariant.Elsewhere.{
  upsert_federated_deployment-Keeps, upsert_custom_resource-Keeps, delete_custom_resource-Keeps,
}
use kubernetes_style_orchest.ApiServer.Invariant.Stored.{
  upsert_service-Keeps, delete_service-Keeps, upsert_crd-Keeps, delete_crd-Keeps,
}
use kubernetes_style_orchest.ApiServer.Invariant.Replies.{
  if-Keeps, reply_read_back-Keeps, reply_object-Keeps, reply_items-Keeps, reply_deleted-Keeps,
  after_write-Keeps, with_body-Keeps, get_or_post-Keeps, get_or_delete-Keeps, unless_empty-Keeps,
  filled,
}

unless_none-Keeps :
    {A C : Type 0} (cs : List C) (m n : M A)
    → Keeps m
    → Keeps n
    → Keeps (elim cs [ [] ↦ m | _ ∷ _ ↦ n ])
unless_none-Keeps [] m n h k = h
unless_none-Keeps (c ∷ cs) m n h k = k

module _ (address : ℕ → String) (read : String → Option Service) (now : ℕ) where
  assign_cluster_ip-Keeps :
      (a : ClusterIpAlloc) (svc : Service) (o : Result Service)
      → Keeps (assign_cluster_ip address read now a svc o)
  unfolding assign_cluster_ip
  assign_cluster_ip-Keeps a svc (ok existing) = λ s k. k
  assign_cluster_ip-Keeps a svc (err e) =
      if-Keeps (svc.spec.cluster_ip == "") _ _
        (bind-Keeps (attempt list_cluster_ips) _
          (attempt-Keeps list_cluster_ips (Reads-Keeps list_cluster_ips list_cluster_ips-Reads))
          (λ taken s k. k))
        (λ s k. k)

  write_service-Keeps : (svc : Service) → Keeps (write_service address read now svc)
  unfolding write_service
  write_service-Keeps svc =
      after_write-Keeps (upsert_service now svc) _ (upsert_service-Keeps now svc) (
        reply_read_back-Keeps 201 (get_service svc.metadata.name)
          (get_service-Reads svc.metadata.name))

  store_service-Keeps :
      (a : ClusterIpAlloc) (svc : Service) (o : Result Service)
      → Keeps (store_service address read now a svc o)
  unfolding store_service
  store_service-Keeps a svc (ok existing) =
      let own : Service = record svc {
        spec = record svc.spec { cluster_ip = existing.spec.cluster_ip };
      } in
      bind-Keeps (write_service address read now own) (λ reply. pure (reply, a))
        (write_service-Keeps own) (λ r s k. k)
  store_service-Keeps a svc (err e) =
      let write : Service → M (Reply Service) = λ x.
        if x.spec.cluster_ip == "" then pure (error 500) else write_service address read now x in
      bind-Keeps (assign_cluster_ip address read now a svc (err e))
        (λ x. write x.0 >>= λ reply. pure (reply, x.1)) (assign_cluster_ip-Keeps a svc (err e))
        (λ x.
          bind-Keeps (write x.0) (λ reply. pure (reply, x.1))
            (if-Keeps (x.0.spec.cluster_ip == "") _ _ (λ s k. k) (write_service-Keeps x.0))
            (λ r s k. k))

  create_service-Keeps :
      (a : ClusterIpAlloc) (svc : Service) → Keeps (create_service address read now a svc)
  unfolding create_service
  create_service-Keeps a svc =
      if-Keeps (svc.metadata.name == "") _ _ (λ s k. k)
        (unless_none-Keeps svc.spec.ports _ _ (λ s k. k)
          (bind-Keeps (attempt (get_service svc.metadata.name))
            (store_service address read now a (defaulted_service svc))
            (attempt-Keeps (get_service svc.metadata.name)
              (Reads-Keeps (get_service svc.metadata.name) (get_service-Reads svc.metadata.name)))
            (store_service-Keeps a (defaulted_service svc))))

  pub handle_services-Keeps :
      (a : ClusterIpAlloc) (r : HttpRequest) → Keeps (handle_services address read now a r)
  unfolding handle_services
  handle_services-Keeps a r =
      if-Keeps (r.method == "GET") _ _
        (bind-Keeps (reply_items list_services) _
          (reply_items-Keeps list_services list_services-Reads) (λ x s k. k))
        (if-Keeps (r.method == "POST") _ _
          (elim (Option-cases r.body) [
            | inl e ↦ rw e (λ s k. k)
            | inr (text, e) ↦ elim (Option-cases (read text)) [
              | inl f ↦ rw (e, f) (λ s k. k)
              | inr (svc, f) ↦ rw (e, f) (create_service-Keeps a svc)
            ]
          ])
          (λ s k. k))

pub handle_services_by_name-Keeps : (r : HttpRequest) → Keeps (handle_services_by_name r)
unfolding handle_services_by_name
handle_services_by_name-Keeps r =
    let name = trim_prefix "/api/v1/services/" r.path in
    get_or_delete-Keeps r name _ _ (reply_object-Keeps (get_service name) (get_service-Reads name))
      (reply_deleted-Keeps Service name (delete_service name) (delete_service-Keeps name))

pub handle_crds_by_name-Keeps : (r : HttpRequest) → Keeps (handle_crds_by_name r)
unfolding handle_crds_by_name
handle_crds_by_name-Keeps r =
    let name = trim_prefix "/apis/mk.io/v1/customresourcedefinitions/" r.path in
    get_or_delete-Keeps r name _ _ (reply_object-Keeps (get_crd name) (get_crd-Reads name))
      (reply_deleted-Keeps Crd name (delete_crd name) (delete_crd-Keeps name))

store_crd-Keeps : (read : String → Option Crd) (now : ℕ) (c : Crd) → Keeps (store_crd read now c)
unfolding store_crd defaulted_crd
store_crd-Keeps read now c =
    if-Keeps (c.metadata.name == "") _ _ (λ s k. k)
      (elim (Bool-cases (
        c.spec.group == ""
        || c.spec.version == ""
        || c.spec.names.plural == ""
        || c.spec.names.kind == "")) [
          | inl e ↦ rw e (λ s k. k)
          | inr e ↦ rw e (
              after_write-Keeps (upsert_crd now (defaulted_crd c)) _
                (upsert_crd-Keeps now (defaulted_crd c) (filled c.spec.group (ground arith))
                  (filled c.spec.version (ground arith)) (filled c.spec.names.plural (ground arith))
                  (filled c.spec.names.kind (ground arith)))
                (reply_read_back-Keeps 201 (get_crd c.metadata.name)
                  (get_crd-Reads c.metadata.name)))
        ])

pub handle_crds-Keeps :
    (read : String → Option Crd) (now : ℕ) (r : HttpRequest) → Keeps (handle_crds read now r)
unfolding handle_crds
handle_crds-Keeps read now r =
    get_or_post-Keeps r _ _ (reply_items-Keeps list_crds list_crds-Reads)
      (with_body-Keeps read r _ (store_crd-Keeps read now))

store_fed_deployment-Keeps :
    (read : String → Option FederatedDeployment) (now : ℕ) (fd : FederatedDeployment)
    → Keeps (store_fed_deployment read now fd)
unfolding store_fed_deployment
store_fed_deployment-Keeps read now fd =
    let stamped : FederatedDeployment = record fd {
      api_version = "federation.mk.io/v1";
      kind = "FederatedDeployment";
    } in
    if-Keeps (fd.metadata.name == "") _ _ (λ s k. k)
      (unless_empty-Keeps fd.spec.template.template.spec.containers _ (
        after_write-Keeps (upsert_federated_deployment now stamped) _
          (upsert_federated_deployment-Keeps now stamped)
          (reply_read_back-Keeps 201 (get_federated_deployment fd.metadata.name)
            (get_federated_deployment-Reads fd.metadata.name))))

pub handle_fed_deployments-Keeps :
    (read : String → Option FederatedDeployment) (now : ℕ) (r : HttpRequest)
    → Keeps (handle_fed_deployments read now r)
unfolding handle_fed_deployments
handle_fed_deployments-Keeps read now r =
    get_or_post-Keeps r _ _
      (reply_items-Keeps list_federated_deployments list_federated_deployments-Reads)
      (with_body-Keeps read r _ (store_fed_deployment-Keeps read now))

module _ (to_lower : String → String) where
  module _ {B : Type 0} (refuse : ℕ → B) (enforce : Bool) (api_group resource : String) where
    after_verdict-Keeps :
        (next : M B) (v : Result Verdict)
        → Keeps next
        → Keeps (after_verdict to_lower refuse next v)
    unfolding after_verdict
    after_verdict-Keeps next (ok allowed) h = h
    after_verdict-Keeps next (ok (denied m)) h = λ s k. k
    after_verdict-Keeps next (err e) h = λ s k. k

    checked-Keeps :
        (r : HttpRequest) (next : M B) (o : Result (Option User))
        → Keeps next
        → Keeps (checked to_lower refuse enforce api_group resource r next o)
    unfolding checked
    checked-Keeps r next (err e) h = λ s k. k
    checked-Keeps r next (ok none) h = λ s k. k
    checked-Keeps r next (ok (some u)) h =
        let req = rbac_request to_lower api_group resource r u in
        if-Keeps enforce _ _
          (bind-Keeps (attempt (authorize req)) _
            (attempt-Keeps (authorize req) (Reads-Keeps (authorize req) (authorize-Reads req)))
            (λ v. after_verdict-Keeps next v h))
          h

    pub guard-Keeps :
        (handler : HttpRequest → M B) (r : HttpRequest)
        → Keeps (handler r)
        → Keeps (guard to_lower refuse enforce api_group resource handler r)
    unfolding guard
    guard-Keeps handler r h =
        let m = authenticate true r.authorization in
        bind-Keeps (attempt m) _
          (attempt-Keeps m (Reads-Keeps m (authenticate-Reads true r.authorization)))
          (λ o. checked-Keeps r (handler r) o h)

  module _ (enforce : Bool) (read : String → Option CustomResource) (now : ℕ) where
    store_custom_resource-Keeps :
        (p : CrPath) (c : Crd) (cr : CustomResource)
        → Keeps (store_custom_resource to_lower enforce read now p c cr)
    unfolding store_custom_resource
    store_custom_resource-Keeps p c cr =
        let stamped = stamped_resource to_lower enforce read now p c cr in
        if-Keeps (cr.metadata.name == "") _ _ (λ s k. k)
          (elim (Option-cases (validate_spec c.spec.schema cr.spec)) [
            | inr (e, f) ↦ rw f (λ s k. k)
            | inl f ↦ rw f (
                after_write-Keeps (upsert_custom_resource now c.metadata.name stamped) _
                  (upsert_custom_resource-Keeps now c.metadata.name stamped)
                  (reply_read_back-Keeps 201 (get_custom_resource c.metadata.name cr.metadata.name)
                    (get_custom_resource-Reads c.metadata.name cr.metadata.name)))
          ])

    serve_custom-Keeps :
        (p : CrPath) (c : Crd) (r : HttpRequest)
        → Keeps (serve_custom to_lower enforce read now p c r)
    unfolding serve_custom
    serve_custom-Keeps p c r =
        let crd = c.metadata.name in
        if-Keeps (p.name == "") _ _
          (get_or_post-Keeps r _ _
            (reply_items-Keeps (list_custom_resources crd) (list_custom_resources-Reads crd))
            (with_body-Keeps read r _ (store_custom_resource-Keeps p c)))
          (get_or_delete-Keeps r p.name _ _
            (reply_object-Keeps (get_custom_resource crd p.name)
              (get_custom_resource-Reads crd p.name))
            (reply_deleted-Keeps CustomResource p.name (delete_custom_resource crd p.name)
              (delete_custom_resource-Keeps crd p.name)))

    with_crd-Keeps :
        (p : CrPath) (r : HttpRequest) (o : Result Crd)
        → Keeps (with_crd to_lower enforce read now p r o)
    unfolding with_crd
    with_crd-Keeps p r (err e) = λ s k. k
    with_crd-Keeps p r (ok c) =
        if-Keeps (not (c.spec.group == p.group) || not (c.spec.version == p.version)) _ _ (λ s k. k)
          (guard-Keeps error enforce p.group p.plural (serve_custom to_lower enforce read now p c) r
            (serve_custom-Keeps p c r))

    pub handle_dynamic_cr-Keeps :
        (r : HttpRequest) → Keeps (handle_dynamic_cr to_lower enforce read now r)
    unfolding handle_dynamic_cr
    handle_dynamic_cr-Keeps r = elim (Option-cases (parse_path r.path)) [
      | inl e ↦ rw (e, handle_dynamic_cr) (λ s k. k)
      | inr (p, e) ↦
          rw (e, handle_dynamic_cr)
            (bind-Keeps (attempt (get_crd_by_plural p.plural)) _
              (attempt-Keeps (get_crd_by_plural p.plural)
                (Reads-Keeps (get_crd_by_plural p.plural) (get_crd_by_plural-Reads p.plural)))
              (with_crd-Keeps p r))
    ]
