-- ===== src/Controllers/Services/Backends.antt =====
-- mvp/internal/controllers/service.go: which pods stand behind a service.
use kubernetes_style_orchest.Prelude.{
  String, ◌==◌, string_eq, int_eq, ==_iff, Bool, true, not, ◌||◌, Option, none, some, List, [], ◌∷◌,
  StringMap, value_at, all_iff, Option-cases, ◌≡◌, ◌≢◌, refl, sym, ◌↔◌, iff_trans, inl, inr, arith,
  Member, head_or_tail, here, there, if◌then◌else◌, ◌∙◌, ap,
}
use kubernetes_style_orchest.Prelude.Int.{ℤ, pos}
use kubernetes_style_orchest.Api.{Service, Pod, EndpointAddress, phase_running}
use kubernetes_style_orchest.Controllers.Services.{
  selector_matches, target_port, port_or, address_of, addresses, address_less, endpoints_for,
}

-- What `sort.Slice` promises of the elements: it keeps them all and adds none.
abbrev pub KeepsElements :
    ((EndpointAddress → EndpointAddress → Bool) → List EndpointAddress → List EndpointAddress)
    → Type 0
KeepsElements sort =
    (less : EndpointAddress → EndpointAddress → Bool) (xs : List EndpointAddress)
    (x : EndpointAddress)
    → Member x (sort less xs) ↔ Member x xs

-- The selector is not empty, and every entry of it is the label's value.
abbrev pub Selected : StringMap String → StringMap String → Type 0
Selected selector labels =
    (selector ≢ []) × ((kv : String × String) → Member kv selector → value_at labels kv.0 ≡ kv.1)

-- The pod runs, is selected and has an address, which is `a`.
abbrev pub Backs : Service → Pod → EndpointAddress → Type 0
Backs svc p a =
    (p.status.phase ≡ phase_running)
    × Selected svc.spec.selector p.metadata.labels
    × (p.status.pod_ip ≢ "")
    × (port_or (target_port svc.spec.ports) p.status.host_port ≢ pos 0)
    × (a ≡ record {
      ip = p.status.pod_ip;
      port = port_or (target_port svc.spec.ports) p.status.host_port;
      node_name = p.status.node_name;
      pod_name = p.metadata.name;
    })

selector_matches_iff :
    (selector labels : StringMap String)
    → (selector_matches selector labels ≡ true) ↔ Selected selector labels
unfolding selector_matches
selector_matches_iff [] labels = ((λ h. cc), (λ w. absurd (w.0 refl)))
selector_matches_iff (kv ∷ sel) labels =
    iff_trans
      (all_iff (λ e. value_at labels e.0 == e.1) (λ e. value_at labels e.0 ≡ e.1)
        (λ e. ==_iff (value_at labels e.0) e.1) (kv ∷ sel))
      ((λ w. ((λ e. cc e), w)), (λ w. w.1))

-- The guards, with the port as a number of its own.
abbrev guarded : Bool → Bool → String → ℤ → EndpointAddress → Option EndpointAddress
guarded runs chosen ip port a =
    if not runs
    then none
    else if not chosen
    then none
    else if ip == "" || port == pos 0
    then none
    else some a

guarded_iff :
    (runs chosen : Bool) (ip : String) (port : ℤ) (a b : EndpointAddress)
    → (guarded runs chosen ip port a ≡ some b)
      ↔ ((runs ≡ true) × (chosen ≡ true) × (ip ≢ "") × (port ≢ pos 0) × (b ≡ a))
guarded_iff runs chosen ip port a b = (
  (λ h. (
    ground arith,
    ground arith,
    (λ e. ground (arith, ==_iff ip "")),
    (λ e. ground (arith, ==_iff port (pos 0))),
    ground (arith, ==_iff ip ""),
  )),
  (λ w.
      let (r, c, i, p, e) = w in ground (arith, r, c, i, p, e, ==_iff ip "", ==_iff port (pos 0))),
)

address_of_iff :
    (svc : Service) (p : Pod) (a : EndpointAddress) → (address_of svc p ≡ some a) ↔ Backs svc p a
unfolding address_of
address_of_iff svc p a =
    let selected = selector_matches_iff svc.spec.selector p.metadata.labels in
    let runs = ==_iff p.status.phase phase_running in
    iff_trans
      (guarded_iff (p.status.phase == phase_running)
        (selector_matches svc.spec.selector p.metadata.labels) p.status.pod_ip
        (port_or (target_port svc.spec.ports) p.status.host_port) _ a)
      (
        (λ w. (runs.0 w.0, selected.0 w.1, w.2, w.3, w.4)),
        (λ w. (runs.1 w.0, selected.1 w.1, w.2, w.3, w.4)),
      )

addresses_sound :
    (svc : Service) (pods : List Pod) (a : EndpointAddress)
    → Member a (addresses svc pods)
    → (p : Pod) × Member p pods × (address_of svc p ≡ some a)
unfolding addresses
addresses_sound svc [] a m = elim m [ ]
addresses_sound svc (p ∷ pods) a m = elim (Option-cases (address_of svc p)) [
  | inl e ↦ let (q, n, f) = addresses_sound svc pods a (rw (e, addresses) at m) in (q, there n, f)
  | inr (b, e) ↦
      head_or_tail a b (addresses svc pods) (rw (e, addresses) at m)
        (λ same. (p, here refl, e ∙ ap some (sym same)))
        (λ n. let (q, k, f) = addresses_sound svc pods a n in (q, there k, f))
]

addresses_complete :
    (svc : Service) (pods : List Pod) (a : EndpointAddress) (p : Pod)
    → Member p pods
    → address_of svc p ≡ some a
    → Member a (addresses svc pods)
unfolding addresses
addresses_complete svc [] a p m f = elim m [ ]
addresses_complete svc (q ∷ pods) a p (here e) f =
    let g : address_of svc q ≡ some a = ap (address_of svc) (sym e) ∙ f in
    rw (g, addresses) (here refl)
addresses_complete svc (q ∷ pods) a p (there m) f =
    let rest = addresses_complete svc pods a p m f in
    elim (Option-cases (address_of svc q)) [
      | inl e ↦ rw (e, addresses) rest
      | inr (b, e) ↦ rw (e, addresses) (there rest)
    ]

-- Where the sort keeps the elements, the published endpoints are exactly the addresses of the running
-- pods that a selector that is not empty selects and that have an IP and a port.
pub endpoints_iff :
    (sort : (EndpointAddress → EndpointAddress → Bool)
      → List EndpointAddress
      → List EndpointAddress)
    (svc : Service) (pods : List Pod) (a : EndpointAddress)
    → KeepsElements sort
    → Member a (endpoints_for sort svc pods).subsets ↔ ((p : Pod) × Member p pods × Backs svc p a)
unfolding endpoints_for
endpoints_iff sort svc pods a keeps = (
  (λ m.
      let (p, n, f) =
        addresses_sound svc pods a ((keeps address_less (addresses svc pods) a).0 m) in
      (p, n, (address_of_iff svc p a).0 f)),
  (λ w.
      let (p, n, b) = w in
      (keeps address_less (addresses svc pods) a).1
        (addresses_complete svc pods a p n ((address_of_iff svc p a).1 b))),
)
