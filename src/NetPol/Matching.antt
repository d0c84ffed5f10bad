-- ===== src/NetPol/Matching.antt =====
-- mvp/internal/netpol/netpol.go: labels, peers, ports and rules that match.
use kubernetes_style_orchest.Prelude.{
  iff_trans, iff_sym, String, ◌==◌, string_eq, int_eq, ==_iff, true, List, [], ◌∷◌, StringMap,
  value_at, ◌≡◌, refl, ◌↔◌, ◌⊎◌, inl, inr, Member, any_iff, all_iff, arith,
}
use kubernetes_style_orchest.Prelude.Int.{ℤ}
use kubernetes_style_orchest.Api.{NetPolPeer, NetPolPort, NetPolIngressRule}
use kubernetes_style_orchest.NetPol.{labels_match, peer_allows, port_allows, rule_matches}

-- Every entry of the selector is the label's value, which is "" for a label that is not set.
abbrev pub Matches : StringMap String → StringMap String → Type 0
Matches selector labels = (kv : String × String) → Member kv selector → value_at labels kv.0 ≡ kv.1

abbrev pub FromPeer : List NetPolPeer → StringMap String → Type 0
FromPeer from src = (from ≡ []) ⊎ ((q : NetPolPeer) × Member q from × Matches q.pod_selector src)

abbrev pub OnPort : List NetPolPort → ℤ → Type 0
OnPort ports port = (ports ≡ []) ⊎ ((q : NetPolPort) × Member q ports × (q.port ≡ port))

pub labels_match_iff :
    (selector labels : StringMap String)
    → (labels_match selector labels ≡ true) ↔ Matches selector labels
unfolding labels_match
labels_match_iff selector labels =
    all_iff (λ kv. value_at labels kv.0 == kv.1) (λ kv. value_at labels kv.0 ≡ kv.1)
      (λ kv. ==_iff (value_at labels kv.0) kv.1) selector

-- An empty list of constraints allows everything.
pub or_empty : {A : Type 0} {P : Type 0} (x : A) (xs : List A) → (((x ∷ xs) ≡ []) ⊎ P) ↔ P
or_empty x xs = (elim [ inl e ↦ cc | inr w ↦ w ], inr)

pub peer_allows_iff :
    (from : List NetPolPeer) (src : StringMap String)
    → (peer_allows from src ≡ true) ↔ FromPeer from src
unfolding peer_allows
peer_allows_iff [] src = ((λ h. inl refl), (λ h. refl))
peer_allows_iff (q ∷ qs) src =
    iff_trans
      (any_iff (λ r. labels_match r.pod_selector src) (λ r. Matches r.pod_selector src)
        (λ r. labels_match_iff r.pod_selector src) (q ∷ qs))
      (iff_sym (or_empty q qs))

pub port_allows_iff :
    (ports : List NetPolPort) (port : ℤ) → (port_allows ports port ≡ true) ↔ OnPort ports port
unfolding port_allows
port_allows_iff [] port = ((λ h. inl refl), (λ h. refl))
port_allows_iff (q ∷ qs) port =
    iff_trans
      (any_iff (λ r. r.port == port) (λ r. r.port ≡ port) (λ r. ==_iff r.port port) (q ∷ qs))
      (iff_sym (or_empty q qs))

pub rule_matches_iff :
    (src : StringMap String) (port : ℤ) (rule : NetPolIngressRule)
    → (rule_matches src port rule ≡ true) ↔ (FromPeer rule.from src × OnPort rule.ports port)
unfolding rule_matches
rule_matches_iff src port rule = (
  (λ h. (
    (peer_allows_iff rule.from src).0 (ground arith),
    (port_allows_iff rule.ports port).0 (ground arith),
  )),
  (λ h.
      let a = (peer_allows_iff rule.from src).1 h.0 in
      let b = (port_allows_iff rule.ports port).1 h.1 in ground (arith, a, b)),
)
