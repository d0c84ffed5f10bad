-- ===== src/KubeProxy/Policies.antt =====
-- mvp/cmd/kube-proxy/main.go: what the policies decide on a connection.
use kubernetes_style_orchest.Prelude.{
  find_first, ◌==◌, string_eq, int_eq, ◌⊎◌, ◌↔◌, true, not, ◌&&◌, Option, none, some, List, [], ◌∷◌,
  ◌≡◌, refl, arith, Bool-cases, inl, inr,
}
use kubernetes_style_orchest.Prelude.Int.{ℤ}
use kubernetes_style_orchest.Api.{Pod, Container, ContainerPort, EndpointAddress}
use kubernetes_style_orchest.NetPol.{labels_of, evaluate, pod_by_host_port}
use kubernetes_style_orchest.NetPol.Decisions.{Unselected, Permitted, evaluate_iff}
use kubernetes_style_orchest.KubeProxy.{
  Outcome, denied, Proxy, dialled, policy_decision, find_pod_by_name, dst_container_port,
  first_container_port, first_port, forward,
}

-- The port of the pod's first container, where it names one, and the endpoint's port where it does not.
abbrev pub port_of : Pod → ℤ → ℤ
port_of pod port = elim pod.spec.containers [
  | [] ↦ port
  | c ∷ cs ↦ elim c.ports [ [] ↦ port | q ∷ qs ↦ q.container_port ]
]

-- The policies let the connection in: the endpoint's pod is known, and no policy selects it or one that
-- does has an ingress rule for the pod behind the source port and the destination's port.
abbrev pub LetsIn : Proxy → ℤ → EndpointAddress → Type 0
LetsIn p src_port ep =
    (dst : Pod) × (find_first (λ q. q.metadata.name == ep.pod_name) p.pods ≡ some dst)
    × (Unselected p.policies dst.metadata.labels
        ⊎ Permitted p.policies (labels_of (find_first (λ q. q.status.host_port == src_port) p.pods))
            dst.metadata.labels (port_of dst ep.port))

dst_container_port-port_of :
    (pod : Pod) (port : ℤ) → dst_container_port (some pod) port ≡ port_of pod port
unfolding dst_container_port first_container_port first_port
dst_container_port-port_of pod port = by_containers pod.spec.containers
  where
    by_ports :
        (qs : List ContainerPort)
        → first_port port qs ≡ elim qs [ [] ↦ port | q ∷ rest ↦ q.container_port ]
    by_ports [] = refl
    by_ports (q ∷ qs) = refl

    by_containers :
        (cs : List Container)
        → first_container_port port cs ≡ elim cs [
          | [] ↦ port
          | c ∷ rest ↦ elim c.ports [ [] ↦ port | q ∷ qs ↦ q.container_port ]
        ]
    by_containers [] = refl
    by_containers (c ∷ cs) = by_ports c.ports

evaluate-at :
    (p : Proxy) (src : Option Pod) (dst : Pod) (port q : ℤ)
    → q ≡ port_of dst port
    → ((evaluate p.policies src (some dst) q).allowed ≡ true) ↔ (
        Unselected p.policies dst.metadata.labels
        ⊎ Permitted p.policies (labels_of src) dst.metadata.labels (port_of dst port))
evaluate-at p src dst port q h = rw h (evaluate_iff p.policies src dst (port_of dst port))

evaluate-found :
    (p : Proxy) (src o : Option Pod) (port : ℤ)
    → ((evaluate p.policies src o (dst_container_port o port)).allowed ≡ true) ↔ (
        (dst : Pod) × (o ≡ some dst)
        × (Unselected p.policies dst.metadata.labels
            ⊎ Permitted p.policies (labels_of src) dst.metadata.labels (port_of dst port)))
unfolding evaluate
evaluate-found p src none port = ((λ h. cc h), (λ w. cc (w.1)))
evaluate-found p src (some dst) port =
    let way = evaluate-at p src dst port _ (dst_container_port-port_of dst port) in
    ((λ h. (dst, refl, way.0 h)), (λ w. let same : dst ≡ w.0 = cc (w.1) in way.1 (rw same (w.2))))

policy_decision-LetsIn :
    (p : Proxy) (src_port : ℤ) (ep : EndpointAddress)
    → ((policy_decision p src_port ep).allowed ≡ true) ↔ LetsIn p src_port ep
unfolding policy_decision find_pod_by_name pod_by_host_port
policy_decision-LetsIn p src_port ep =
    evaluate-found p (find_first (λ q. q.status.host_port == src_port) p.pods)
      (find_first (λ q. q.metadata.name == ep.pod_name) p.pods) ep.port

-- The connection may pass: nothing is enforced, or the policies let it in.
abbrev pub MayPass : Proxy → ℤ → EndpointAddress → Type 0
MayPass p src_port ep = p.netpol_enforce ≡ true → LetsIn p src_port ep

-- What becomes of a connection for which the backend was chosen: it is dialled, if nothing is enforced
-- or the policies let it in, and else it is denied.
abbrev pub IsDecided : Proxy → ℤ → EndpointAddress → Outcome → Type 0
IsDecided p src_port ep outcome =
    ((outcome ≡ dialled ep) × MayPass p src_port ep)
    ⊎ ((outcome ≡ denied) × (p.netpol_enforce ≡ true) × (¬ LetsIn p src_port ep))

pub forward-IsDecided :
    (p : Proxy) (src_port : ℤ) (ep : EndpointAddress)
    → IsDecided p src_port ep (forward p src_port (some ep))
unfolding forward
forward-IsDecided p src_port ep =
    elim (Bool-cases (p.netpol_enforce && not (policy_decision p src_port ep).allowed)) [
      | inl e ↦ inr (
        rw (e, forward) refl,
        ground arith,
        λ w. let on = (policy_decision-LetsIn p src_port ep).1 w in ground arith,
      )
      | inr e ↦
          inl (rw (e, forward) refl, λ on. (policy_decision-LetsIn p src_port ep).0 (ground arith))
    ]
