-- ===== src/NetPol/Decisions.antt =====
-- mvp/internal/netpol/netpol.go: the evaluator against the semantics that its comments state.
use kubernetes_style_orchest.Prelude.{
  ◌≢◌, sym, ◌∙◌, false≢true, String, string_eq, int_eq, Bool, true, false, ◌&&◌, Option, none, some,
  List, [], ◌∷◌, StringMap, any, ◌≡◌, refl, ◌↔◌, ◌⊎◌, inl, inr, Member, any_iff, find_first_cases,
  arith, Bool-cases,
}
use kubernetes_style_orchest.Prelude.Int.{ℤ}
use kubernetes_style_orchest.Api.{NetworkPolicy, NetPolIngressRule, Pod}
use kubernetes_style_orchest.NetPol.Matching.{
  Matches, FromPeer, OnPort, labels_match_iff, rule_matches_iff,
}
use kubernetes_style_orchest.NetPol.{
  labels_match, selecting, rule_matches, labels_of, decide_ingress, evaluate,
}

-- A policy that selects `dst` and has a rule for the source and the port.
abbrev pub Permitted :
    List (Option NetworkPolicy) → StringMap String → StringMap String → ℤ → Type 0
Permitted policies src dst port =
    (p : NetworkPolicy) × Member (some p) policies
    × Matches p.spec.pod_selector dst
    × (rule : NetPolIngressRule) × Member rule p.spec.ingress
    × FromPeer rule.from src
    × OnPort rule.ports port

abbrev pub Unselected : List (Option NetworkPolicy) → StringMap String → Type 0
Unselected policies dst =
    (p : NetworkPolicy) → Member (some p) policies → ¬ Matches p.spec.pod_selector dst

-- The tests that the loops amount to, on one pointer of the list.
abbrev selects : StringMap String → Option NetworkPolicy → Bool
selects dst none = false
selects dst (some p) = labels_match p.spec.pod_selector dst

abbrev permits : StringMap String → StringMap String → ℤ → Option NetworkPolicy → Bool
permits src dst port none = false
permits src dst port (some p) =
    labels_match p.spec.pod_selector dst && any (rule_matches src port) p.spec.ingress

any-selecting :
    (src dst : StringMap String) (port : ℤ) (policies : List (Option NetworkPolicy))
    → any (λ p. any (rule_matches src port) p.spec.ingress) (selecting dst policies)
      ≡ any (permits src dst port) policies
unfolding selecting
any-selecting src dst port [] = refl
any-selecting src dst port (none ∷ ps) = any-selecting src dst port ps
any-selecting src dst port (some p ∷ ps) = ground (arith, any-selecting src dst port ps)

selecting_empty :
    (dst : StringMap String) (policies : List (Option NetworkPolicy))
    → any (selects dst) policies ≡ false
    → selecting dst policies ≡ []
unfolding selecting
selecting_empty dst [] h = refl
selecting_empty dst (none ∷ ps) h = selecting_empty dst ps h
selecting_empty dst (some p ∷ ps) h = ground (arith, selecting_empty dst ps)

selecting_some :
    (dst : StringMap String) (policies : List (Option NetworkPolicy))
    → any (selects dst) policies ≡ true
    → selecting dst policies ≢ []
unfolding selecting
selecting_some dst [] h = cc
selecting_some dst (none ∷ ps) h = selecting_some dst ps h
selecting_some dst (some p ∷ ps) h = ground (arith, selecting_some dst ps)

decide_ingress-allowed :
    (ps : List NetworkPolicy) (src : StringMap String) (port : ℤ)
    → ps ≢ []
    → (decide_ingress ps src port).allowed
      ≡ any (λ p. any (rule_matches src port) p.spec.ingress) ps
unfolding decide_ingress
decide_ingress-allowed [] src port h = absurd (h refl)
decide_ingress-allowed (p ∷ ps) src port h =
    elim (find_first_cases (λ q. any (rule_matches src port) q.spec.ingress) (p ∷ ps)) [
      | inl (a, f) ↦ rw (f, a, decide_ingress)
      | inr (q, m, e, a, f) ↦ rw (f, a, decide_ingress)
    ]

abbrev Selects : StringMap String → Option NetworkPolicy → Type 0
Selects dst none = ⊥
Selects dst (some p) = Matches p.spec.pod_selector dst

abbrev Permits : StringMap String → StringMap String → ℤ → Option NetworkPolicy → Type 0
Permits src dst port none = ⊥
Permits src dst port (some p) =
    Matches p.spec.pod_selector dst
    × (rule : NetPolIngressRule) × Member rule p.spec.ingress
    × FromPeer rule.from src
    × OnPort rule.ports port

selects_iff :
    (dst : StringMap String) (o : Option NetworkPolicy) → (selects dst o ≡ true) ↔ Selects dst o
selects_iff dst none = ((λ h. cc), (λ h. absurd h))
selects_iff dst (some p) = labels_match_iff p.spec.pod_selector dst

permits_iff :
    (src dst : StringMap String) (port : ℤ) (o : Option NetworkPolicy)
    → (permits src dst port o ≡ true) ↔ Permits src dst port o
permits_iff src dst port none = ((λ h. cc), (λ h. absurd h))
permits_iff src dst port (some p) =
    let sel = labels_match_iff p.spec.pod_selector dst in
    let rules =
      any_iff (rule_matches src port) (λ r. FromPeer r.from src × OnPort r.ports port)
        (rule_matches_iff src port) p.spec.ingress in
    (
      (λ h. let (r, m, w) = rules.0 (ground arith) in (sel.0 (ground arith), r, m, w.0, w.1)),
      (λ w. let a = sel.1 w.0 in let b = rules.1 (w.1, w.2, (w.3, w.4)) in ground (arith, a, b)),
    )

Permitted-of-any :
    (policies : List (Option NetworkPolicy)) (src dst : StringMap String) (port : ℤ)
    (o : Option NetworkPolicy)
    → Member o policies
    → Permits src dst port o
    → Permitted policies src dst port
Permitted-of-any policies src dst port none m h = absurd h
Permitted-of-any policies src dst port (some p) m h = (p, m, h.0, h.1, h.2, h.3, h.4)

Unselected-none :
    (policies : List (Option NetworkPolicy)) (dst : StringMap String)
    → any (selects dst) policies ≡ false
    → Unselected policies dst
Unselected-none policies dst h p m sel =
    false≢true
      (sym h ∙ (any_iff (selects dst) (Selects dst) (selects_iff dst) policies).1 (some p, m, sel))

selected_not-Unselected :
    (policies : List (Option NetworkPolicy)) (dst : StringMap String) (o : Option NetworkPolicy)
    → Member o policies
    → Selects dst o
    → ¬ Unselected policies dst
selected_not-Unselected policies dst none m h u = h
selected_not-Unselected policies dst (some p) m h u = u p m h

-- A connection to an existing pod is allowed exactly when no policy selects the pod, or a policy
-- that selects it has an ingress rule whose peers match the source and whose ports hold the port.
pub evaluate_iff :
    (policies : List (Option NetworkPolicy)) (src : Option Pod) (dst : Pod) (port : ℤ)
    → ((evaluate policies src (some dst) port).allowed ≡ true) ↔ (
        Unselected policies dst.metadata.labels
        ⊎ Permitted policies (labels_of src) dst.metadata.labels port)
unfolding evaluate
evaluate_iff policies src dst port =
    elim (Bool-cases (any (selects dst.metadata.labels) policies)) [
      | inl found ↦
          let allowed =
            decide_ingress-allowed (selecting dst.metadata.labels policies) (labels_of src) port
              (selecting_some dst.metadata.labels policies found)
            ∙ any-selecting (labels_of src) dst.metadata.labels port policies in
          let some_policy =
            any_iff (permits (labels_of src) dst.metadata.labels port)
              (Permits (labels_of src) dst.metadata.labels port)
              (permits_iff (labels_of src) dst.metadata.labels port) policies in
          let (o, m, sel) =
            (any_iff (selects dst.metadata.labels) (Selects dst.metadata.labels)
                (selects_iff dst.metadata.labels) policies).0
              found in
          (
            (λ h.
                let (p, n, w) = some_policy.0 (sym allowed ∙ h) in
                inr (Permitted-of-any policies (labels_of src) dst.metadata.labels port p n w)),
            elim [
              | inl u ↦ absurd (selected_not-Unselected policies dst.metadata.labels o m sel u)
              | inr w ↦ allowed ∙ some_policy.1 (some w.0, w.1, (w.2, w.3, w.4, w.5, w.6))
            ],
          )
      | inr unfound ↦ (
        (λ h. inl (Unselected-none policies dst.metadata.labels unfound)),
        (λ h. rw (selecting_empty dst.metadata.labels policies unfound)),
      )
    ]
