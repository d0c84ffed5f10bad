-- ===== src/KubeProxy.antt =====
-- mvp/cmd/kube-proxy/main.go: the listeners of the services and the choice of a backend. What the
-- API server lists is an argument of a sync, `none` where the call fails, and so is `binds ip port`,
-- which says whether `net.Listen` works. The keys of the Go map stand in the entries.
pub mod Synced
pub mod Policies
pub mod Handled
use kubernetes_style_orchest.Prelude.{
  ℕ, zero, suc, ◌+◌, ◌-◌, ◌%◌, ◌^◌, String, ◌==◌, string_eq, int_eq, Bool, true, false, not, ◌&&◌,
  ltb, nat_beq, Option, none, some, List, [], ◌∷◌, ◌++◌, map, keep, any, find_first, length,
  if◌then◌else◌,
}
use kubernetes_style_orchest.Prelude.Int.{ℤ}
use kubernetes_style_orchest.Api.{
  Service, ServicePort, Endpoints, EndpointAddress, NetworkPolicy, Pod, Container, ContainerPort,
}
use kubernetes_style_orchest.NetPol.{Decision, evaluate, pod_by_host_port}

pub record ProxyKey : Type 0 where
  pub service : String
  pub port : ℤ

pub record ProxyEntry : Type 0 where
  pub key : ProxyKey
  pub cluster_ip : String
  pub backends : List EndpointAddress
  pub counter : ℕ

pub record Proxy : Type 0 where
  pub entries : List ProxyEntry
  pub policies : List (Option NetworkPolicy)
  pub pods : List Pod
  pub netpol_enforce : Bool

-- What one sync asks the API server and the kernel for.
pub record Cluster : Type 0 where
  pub services : Option (List Service)
  pub policies : Option (List (Option NetworkPolicy))
  pub pods : Option (List Pod)
  pub endpoints : String → Option Endpoints
  pub binds : String → ℤ → Bool

unfoldable pub same_key : ProxyKey → ProxyKey → Bool
same_key a b = a.service == b.service && a.port == b.port

unfoldable pub or_kept : {A : Type 0} → Option A → A → A
or_kept none old = old
or_kept (some new) old = new

-- `ep = &api.Endpoints{}` where the endpoints cannot be read
unfoldable pub subsets_of : Option Endpoints → List EndpointAddress
subsets_of none = []
subsets_of (some ep) = ep.subsets

-- `active[key]`
unfoldable pub is_active : List Service → ProxyKey → Bool
unfolding same_key
is_active svcs key =
    any
      (λ svc.
        not (svc.spec.cluster_ip == "")
        && any (λ sp. same_key (record { service = svc.metadata.name; port = sp.port }) key)
            svc.spec.ports)
      svcs

module _ (c : Cluster) where
  -- The body of the loop over the ports of a service.
  unfoldable pub sync_port :
      Service → List EndpointAddress → List ProxyEntry → ServicePort → List ProxyEntry
  unfolding same_key
  sync_port svc subsets entries sp =
      let key : ProxyKey = record { service = svc.metadata.name; port = sp.port } in
      if any (λ e. same_key e.key key) entries
      then map (λ e. if same_key e.key key then record e { backends = subsets } else e) entries
      else if c.binds svc.spec.cluster_ip sp.port
      then entries
        ++ record { key = key; cluster_ip = svc.spec.cluster_ip; backends = subsets; counter = 0 }
          ∷ []
      else entries

  unfoldable pub sync_ports :
      Service → List EndpointAddress → List ProxyEntry → List ServicePort → List ProxyEntry
  unfolding sync_port
  sync_ports svc subsets entries [] = entries
  sync_ports svc subsets entries (sp ∷ ports) =
      sync_ports svc subsets (sync_port svc subsets entries sp) ports

  unfoldable pub sync_service : List ProxyEntry → Service → List ProxyEntry
  unfolding sync_ports subsets_of
  sync_service entries svc =
      if svc.spec.cluster_ip == ""
      then entries
      else sync_ports svc (subsets_of (c.endpoints svc.metadata.name)) entries svc.spec.ports

  unfoldable pub sync_services : List ProxyEntry → List Service → List ProxyEntry
  unfolding sync_service
  sync_services entries [] = entries
  sync_services entries (svc ∷ svcs) = sync_services (sync_service entries svc) svcs

  -- `none` is the error of `ListServices`, which leaves the proxy as it is.
  unfoldable pub sync : Proxy → Option Proxy
  unfolding or_kept sync_services is_active
  sync p = elim c.services [
    | none ↦ none
    | some svcs ↦ some (record p {
      entries = keep (λ e. is_active svcs e.key) (sync_services p.entries svcs);
      policies = or_kept c.policies p.policies;
      pods = or_kept c.pods p.pods;
    })
  ]

-- What becomes of a connection.
pub data Outcome : Type 0 where
  dropped denied panics : Outcome
  dialled : EndpointAddress → Outcome

-- `subs[i]`
unfoldable pub get_elem? {ℓ} : {A : Type ℓ} → ℕ → List A → Option A
get_elem? n [] = none
get_elem? zero (x ∷ xs) = some x
get_elem? (suc n) (x ∷ xs) = get_elem? n xs

-- `int(n) % len` of a uint64 `n`: a negative index panics, and so does one out of range.
unfoldable pub index_of : ℕ → ℕ → Option ℕ
index_of n len =
    if ltb n (2 ^ 63)
    then some (n % len)
    else if nat_beq ((2 ^ 64 - n) % len) 0
    then some 0
    else none

unfoldable pub backend_at : Option ℕ → List EndpointAddress → Option EndpointAddress
unfolding get_elem?
backend_at none subs = none
backend_at (some i) subs = get_elem? i subs

-- `atomic.AddUint64(&e.counter, 1)`
unfoldable pub counted : ProxyEntry → ProxyEntry
counted e = record e { counter = (e.counter + 1) % 2 ^ 64 }

unfoldable pub find_pod_by_name : List Pod → String → Option Pod
find_pod_by_name pods name = find_first (λ p. p.metadata.name == name) pods

unfoldable pub first_port : ℤ → List ContainerPort → ℤ
first_port port [] = port
first_port port (q ∷ qs) = q.container_port

unfoldable pub first_container_port : ℤ → List Container → ℤ
unfolding first_port
first_container_port port [] = port
first_container_port port (c ∷ cs) = first_port port c.ports

unfoldable pub dst_container_port : Option Pod → ℤ → ℤ
unfolding first_container_port
dst_container_port none port = port
dst_container_port (some pod) port = first_container_port port pod.spec.containers

-- The decision of the policies on a connection from `src_port`.
unfoldable pub policy_decision : Proxy → ℤ → EndpointAddress → Decision
unfolding evaluate pod_by_host_port find_pod_by_name dst_container_port
policy_decision p src_port ep =
    let dst = find_pod_by_name p.pods ep.pod_name in
    evaluate p.policies (pod_by_host_port p.pods src_port) dst (dst_container_port dst ep.port)

unfoldable pub forward : Proxy → ℤ → Option EndpointAddress → Outcome
unfolding policy_decision
forward p src_port none = panics
forward p src_port (some ep) =
    if p.netpol_enforce && not (policy_decision p src_port ep).allowed then denied else dialled ep

-- `handle` on the backends that it loaded, up to the dialling: the outcome, and the entry with its
-- counter.
unfoldable pub handle_with : Proxy → ProxyEntry → ℤ → List EndpointAddress → Outcome × ProxyEntry
unfolding index_of backend_at counted forward
handle_with p e src_port [] = (dropped, e)
handle_with p e src_port (b ∷ bs) =
    let subs = b ∷ bs in
    let drawn = ((counted e).counter + 2 ^ 64 - 1) % 2 ^ 64 in
    (forward p src_port (backend_at (index_of drawn (length subs)) subs), counted e)

unfoldable pub handle : Proxy → ProxyEntry → ℤ → Outcome × ProxyEntry
unfolding handle_with
handle p e src_port = handle_with p e src_port e.backends
