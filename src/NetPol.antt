-- ===== src/NetPol.antt =====
-- mvp/internal/netpol/netpol.go: the evaluator of NetworkPolicies. A nil pointer is `none`.
pub mod Matching
pub mod Decisions
use kubernetes_style_orchest.Prelude.{
  String, ◌==◌, string_eq, int_eq, Bool, true, false, ◌&&◌, Option, none, some, List, [], ◌∷◌,
  StringMap, value_at, any, all, find_first, if◌then◌else◌,
}
use kubernetes_style_orchest.Prelude.Int.{ℤ}
use kubernetes_style_orchest.Api.{NetworkPolicy, NetPolPeer, NetPolPort, NetPolIngressRule, Pod}

unfoldable pub labels_match : StringMap String → StringMap String → Bool
labels_match selector labels = all (λ kv. value_at labels kv.0 == kv.1) selector

pub record Decision : Type 0 where
  pub allowed : Bool
  pub reason : String
  pub policy : String

unfoldable pub allow : String → Decision
allow reason = record { allowed = true; reason = reason; policy = "" }

unfoldable pub deny : String → String → Decision
deny policy reason = record { allowed = false; reason = reason; policy = policy }

unfoldable pub peer_allows : List NetPolPeer → StringMap String → Bool
unfolding labels_match
peer_allows [] src = true
peer_allows (peer ∷ peers) src = any (λ q. labels_match q.pod_selector src) (peer ∷ peers)

unfoldable pub port_allows : List NetPolPort → ℤ → Bool
port_allows [] port = true
port_allows (q ∷ qs) port = any (λ q. q.port == port) (q ∷ qs)

-- The loop that collects the policies whose selector matches the destination.
unfoldable pub selecting : StringMap String → List (Option NetworkPolicy) → List NetworkPolicy
unfolding labels_match
selecting labels [] = []
selecting labels (none ∷ ps) = selecting labels ps
selecting labels (some p ∷ ps) =
    let rest = selecting labels ps in
    if labels_match p.spec.pod_selector labels then p ∷ rest else rest

unfoldable pub rule_matches : StringMap String → ℤ → NetPolIngressRule → Bool
unfolding peer_allows port_allows
rule_matches src port rule = peer_allows rule.from src && port_allows rule.ports port

unfoldable pub labels_of : Option Pod → StringMap String
labels_of none = []
labels_of (some p) = p.metadata.labels

-- The loops over the selecting policies and their rules, which return at the first match.
unfoldable pub decide_ingress : List NetworkPolicy → StringMap String → ℤ → Decision
unfolding rule_matches allow
decide_ingress [] src port = allow "no policy selects destination pod"
decide_ingress (first ∷ rest) src port =
    elim (find_first (λ p. any (rule_matches src port) p.spec.ingress) (first ∷ rest)) [
      | none ↦ record {
        allowed = false;
        reason = "default-deny: no ingress rule matched";
        policy = first.metadata.name;
      }
      | some p ↦ record {
        allowed = true;
        reason = "matched ingress rule";
        policy = p.metadata.name;
      }
    ]

unfoldable pub evaluate : List (Option NetworkPolicy) → Option Pod → Option Pod → ℤ → Decision
unfolding deny selecting labels_of decide_ingress
evaluate policies src none port = deny "" "no destination pod"
evaluate policies src (some dst) port =
    decide_ingress (selecting dst.metadata.labels policies) (labels_of src) port

unfoldable pub pod_by_host_port : List Pod → ℤ → Option Pod
pod_by_host_port pods port = find_first (λ p. p.status.host_port == port) pods
