-- ===== src/Rbac/Matching.antt =====
-- mvp/internal/rbac/rbac.go: rules and subjects that match, as relations.
use kubernetes_style_orchest.Prelude.{
  String, ◌==◌, string_eq, pair_eq, Bool, true, false, ◌&&◌, ◌||◌, List, ◌≡◌, refl, arith,
  Bool-cases, inl, inr, ◌⊎◌, ◌↔◌, Member, any_iff, ==_iff, iff_trans,
}
use kubernetes_style_orchest.Api.{User, Subject, PolicyRule}
use kubernetes_style_orchest.Rbac.{
  Request, list_contains, rule_matches, subject_matches, subjects_match,
}

-- The list names the value or has the wildcard.
abbrev pub Covers : List String → String → Type 0
Covers list v = (x : String) × Member x list × ((x ≡ "*") ⊎ (x ≡ v))

abbrev pub RuleAllows : PolicyRule → Request → Type 0
RuleAllows r req =
    Covers r.verbs req.verb × Covers r.api_groups req.api_group × Covers r.resources req.resource

abbrev pub IsSubject : User → Subject → Type 0
IsSubject u s =
    ((s.kind ≡ "User") × (s.name ≡ u.metadata.name))
    ⊎ ((s.kind ≡ "Group") × (g : String) × Member g u.groups × (g ≡ s.name))

pub or_iff :
    (a b : Bool) {P Q : Type 0} → (a ≡ true) ↔ P → (b ≡ true) ↔ Q → ((a || b) ≡ true) ↔ (P ⊎ Q)
or_iff true b f g = ((λ h. inl (f.0 refl)), (λ h. refl))
or_iff false b f g = ((λ h. inr (g.0 h)), elim [ inl p ↦ cc (f.1 p) | inr q ↦ g.1 q ])

pub and_iff :
    (a b : Bool) {P Q : Type 0} → (a ≡ true) ↔ P → (b ≡ true) ↔ Q → ((a && b) ≡ true) ↔ (P × Q)
and_iff true b f g = ((λ h. (f.0 refl, g.0 h)), (λ w. g.1 w.1))
and_iff false b f g = ((λ h. cc), (λ w. f.1 w.0))

list_contains_iff :
    (list : List String) (v : String) → (list_contains list v ≡ true) ↔ Covers list v
unfolding list_contains
list_contains_iff list v =
    any_iff (λ x. x == "*" || x == v) (λ x. (x ≡ "*") ⊎ (x ≡ v))
      (λ x. or_iff (x == "*") (x == v) (==_iff x "*") (==_iff x v)) list

pub rule_matches_iff :
    (r : PolicyRule) (req : Request) → (rule_matches r req ≡ true) ↔ RuleAllows r req
unfolding rule_matches
rule_matches_iff r req =
    iff_trans
      (and_iff (list_contains r.verbs req.verb && list_contains r.api_groups req.api_group) _
        (and_iff (list_contains r.verbs req.verb) _ (list_contains_iff r.verbs req.verb)
          (list_contains_iff r.api_groups req.api_group))
        (list_contains_iff r.resources req.resource))
      ((λ w. (w.0.0, w.0.1, w.1)), (λ w. ((w.0, w.1), w.2)))

subject_matches_iff : (u : User) (s : Subject) → (subject_matches u s ≡ true) ↔ IsSubject u s
unfolding subject_matches
subject_matches_iff u s =
    let group = any_iff (λ g. g == s.name) (λ g. g ≡ s.name) (λ g. ==_iff g s.name) u.groups in
    let name = ==_iff s.name u.metadata.name in
    (
      (λ h. elim (Bool-cases (s.kind == "User")) [
        | inl e ↦ inl ((==_iff s.kind "User").0 e, name.0 (ground arith))
        | inr e ↦ elim (Bool-cases (s.kind == "Group")) [
          | inl f ↦
              let (g, m, same) = group.0 (ground arith) in
              inr ((==_iff s.kind "Group").0 f, g, m, same)
          | inr f ↦ absurd (ground arith)
        ]
      ]),
      elim [ inl (k, n) ↦ rw k (name.1 n) | inr (k, g, m, e) ↦ rw k (group.1 (g, m, e)) ],
    )

pub subjects_match_iff :
    (subs : List Subject) (u : User)
    → (subjects_match subs u ≡ true) ↔ ((x : Subject) × Member x subs × IsSubject u x)
unfolding subjects_match
subjects_match_iff subs u = any_iff (subject_matches u) (IsSubject u) (subject_matches_iff u) subs
