-- ===== src/ApiServer/Handlers/Services.antt =====
-- mvp/cmd/apiserver/main.go: services. The allocator of cluster IPs is state of the server: a
-- handler takes it and returns it with its reply.
pub mod Addresses
use kubernetes_style_orchest.Prelude.{
  ℕ, String, ◌==◌, string_eq, Bool, false, any, Option, none, some, List, [], ◌∷◌, trim_prefix,
  if◌then◌else◌,
}
use kubernetes_style_orchest.Api.{Service, service_type_cluster_ip}
use kubernetes_style_orchest.Sql.{M, Result, ok, err, ◌>>=◌, pure, attempt}
use kubernetes_style_orchest.Store.Services.{
  list_services, get_service, list_cluster_ips, upsert_service, delete_service,
}
use kubernetes_style_orchest.ApiServer.ClusterIps.{ClusterIpAlloc, alloc}
use kubernetes_style_orchest.ApiServer.Http.{
  HttpRequest, Reply, error, reply_items, reply_object, reply_deleted, reply_read_back, after_write,
  with_body, get_or_delete,
}

abbrev pub set_cluster_ip : String → Service → Service
set_cluster_ip ip svc = record svc { spec = record svc.spec { cluster_ip = ip } }

-- `taken, _ := s.st.ListClusterIPs()`: after an error no address is taken.
unfoldable pub taken_of : Result (List String) → String → Bool
taken_of (ok ips) ip = any (λ x. x == ip) ips
taken_of (err e) ip = false

-- The defaults that the handler writes into the decoded service.
unfoldable pub defaulted_service : Service → Service
defaulted_service svc = record svc {
  api_version = "v1";
  kind = "Service";
  spec = record svc.spec {
    type = if svc.spec.type == "" then service_type_cluster_ip else svc.spec.type;
  };
}

module _ (address : ℕ → String) (read : String → Option Service) (now : ℕ) where
  -- The service with its cluster IP: that of the existing service, the one it asks for, or an
  -- allocated one, which is "" where the range is used up.
  unfoldable pub assign_cluster_ip :
      ClusterIpAlloc → Service → Result Service → M (Service × ClusterIpAlloc)
  unfolding alloc taken_of list_cluster_ips
  assign_cluster_ip a svc (ok existing) = pure (set_cluster_ip existing.spec.cluster_ip svc, a)
  assign_cluster_ip a svc (err e) =
      if svc.spec.cluster_ip == ""
      then (do
        taken ← attempt list_cluster_ips
        let ip = alloc address (taken_of taken) a
        pure (set_cluster_ip ip.0 svc, ip.1))
      else pure (svc, a)

  unfoldable pub write_service : Service → M (Reply Service)
  unfolding after_write upsert_service reply_read_back get_service
  write_service svc =
      after_write (upsert_service now svc) (reply_read_back 201 (get_service svc.metadata.name))

  -- The exhausted range is an error only where an address was asked of the allocator.
  unfoldable pub store_service :
      ClusterIpAlloc → Service → Result Service → M (Reply Service × ClusterIpAlloc)
  unfolding assign_cluster_ip write_service
  store_service a svc existing = do
    assigned ← assign_cluster_ip a svc existing
    reply ← elim existing [
      | ok e ↦ write_service assigned.0
      | err e ↦
          if assigned.0.spec.cluster_ip == "" then pure (error 500) else write_service assigned.0
    ]
    pure (reply, assigned.1)

  unfoldable pub create_service : ClusterIpAlloc → Service → M (Reply Service × ClusterIpAlloc)
  unfolding defaulted_service get_service store_service
  create_service a svc =
      if svc.metadata.name == "" then pure (error 400, a) else elim svc.spec.ports [
        | [] ↦ pure (error 400, a)
        | _ ∷ _ ↦ do
          existing ← attempt (get_service svc.metadata.name)
          store_service a (defaulted_service svc) existing
      ]

  unfoldable pub handle_services : ClusterIpAlloc → HttpRequest → M (Reply Service × ClusterIpAlloc)
  unfolding reply_items list_services create_service
  handle_services a r =
      if r.method == "GET"
      then (do reply ← reply_items list_services; pure (reply, a))
      else if r.method == "POST"
      then elim r.body [
        | none ↦ pure (error 400, a)
        | some text ↦ elim (read text) [
          | none ↦ pure (error 400, a)
          | some svc ↦ create_service a svc
        ]
      ]
      else pure (error 405, a)

unfoldable pub handle_services_by_name : HttpRequest → M (Reply Service)
unfolding trim_prefix reply_object get_service reply_deleted delete_service
handle_services_by_name r =
    let name = trim_prefix "/api/v1/services/" r.path in
    get_or_delete r name (reply_object (get_service name))
      (reply_deleted name (delete_service name))
