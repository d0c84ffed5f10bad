-- ===== src/Controllers/Services.antt =====
-- mvp/internal/controllers/service.go: the Service controller, which publishes the addresses of the
-- running pods behind a service. `sort` stands for `sort.Slice`, which is not part of the repository.
pub mod Backends
use kubernetes_style_orchest.Prelude.{
  String, ◌==◌, string_eq, int_eq, Bool, true, false, not, ◌||◌, Option, none, some, List, [], ◌∷◌,
  StringMap, value_at, all, str_ltb, if◌then◌else◌,
}
use kubernetes_style_orchest.Prelude.Int.{ℤ, pos, ltb_ℤ}
use kubernetes_style_orchest.Api.{
  Service, ServicePort, Pod, EndpointAddress, Endpoints, phase_running,
}

unfoldable pub selector_matches : StringMap String → StringMap String → Bool
selector_matches [] labels = false
selector_matches (kv ∷ sel) labels = all (λ e. value_at labels e.0 == e.1) (kv ∷ sel)

-- The target port of the first port of the service, or its port.
unfoldable pub target_port : List ServicePort → ℤ
target_port [] = pos 0
target_port (p ∷ ports) = if p.target_port == pos 0 then p.port else p.target_port

unfoldable pub port_or : ℤ → ℤ → ℤ
port_or target port = if port == pos 0 then target else port

-- One turn of the loop over the pods: `none` where it goes on without an address.
unfoldable pub address_of : Service → Pod → Option EndpointAddress
unfolding selector_matches target_port port_or
address_of svc p =
    let port = port_or (target_port svc.spec.ports) p.status.host_port in
    if not (p.status.phase == phase_running)
    then none
    else if not (selector_matches svc.spec.selector p.metadata.labels)
    then none
    else if p.status.pod_ip == "" || port == pos 0
    then none
    else some (record {
      ip = p.status.pod_ip;
      port = port;
      node_name = p.status.node_name;
      pod_name = p.metadata.name;
    })

unfoldable pub addresses : Service → List Pod → List EndpointAddress
unfolding address_of
addresses svc [] = []
addresses svc (p ∷ pods) =
    let rest = addresses svc pods in elim (address_of svc p) [ none ↦ rest | some a ↦ a ∷ rest ]

unfoldable pub address_less : EndpointAddress → EndpointAddress → Bool
address_less a b = if a.ip == b.ip then ltb_ℤ a.port b.port else str_ltb a.ip b.ip

module _
    (sort : (EndpointAddress → EndpointAddress → Bool)
      → List EndpointAddress
      → List EndpointAddress) where
  unfoldable pub endpoints_for : Service → List Pod → Endpoints
  unfolding addresses address_less
  endpoints_for svc pods = record {
    api_version = "v1";
    kind = "Endpoints";
    metadata = record { name = svc.metadata.name; namespace = svc.metadata.namespace; labels = [] };
    subsets = sort address_less (addresses svc pods);
    last_updated = 0;
  }

  -- `upsert` is the client's call, with whether it worked and what it leaves.
  unfoldable pub reconcile_one :
      {State : Type 0} → (Endpoints → State → Bool × State) → Service → List Pod → State → State
  unfolding endpoints_for
  reconcile_one upsert svc pods s = (upsert (endpoints_for svc pods) s).1

  -- The loop of `reconcileAll` over the services.
  unfoldable pub reconcile_each :
      {State : Type 0}
      → (Endpoints → State → Bool × State)
      → List Service
      → List Pod
      → State
      → State
  unfolding reconcile_one
  reconcile_each upsert [] pods s = s
  reconcile_each upsert (svc ∷ svcs) pods s =
      reconcile_each upsert svcs pods (reconcile_one upsert svc pods s)
