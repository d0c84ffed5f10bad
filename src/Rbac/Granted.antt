-- ===== src/Rbac/Granted.antt =====
-- mvp/internal/rbac/rbac.go: the authorizer against Kubernetes' rules for RBAC, as relations.
use kubernetes_style_orchest.Prelude.{
  String, ◌==◌, string_eq, pair_eq, true, false, ◌&&◌, ◌||◌, Option, none, some, any, ◌≡◌, refl,
  Bool-cases, if◌then◌else◌, inl, inr, ◌⊎◌, ◌↔◌, Member, any_iff, ==_iff, iff_trans, ◌∙◌, sym,
}
use kubernetes_style_orchest.Api.{User, Subject, RoleBinding, PolicyRule}
use kubernetes_style_orchest.Db.{Db, RoleRow, RoleBindingRow}
use kubernetes_style_orchest.Sql.{NoFaults, ok, result}
use kubernetes_style_orchest.Sql.Rows.{select}
use kubernetes_style_orchest.Store.Access.{binding_of_row}
use kubernetes_style_orchest.Rbac.{
  Request, allowed, rule_matches, subjects_match, default_namespace, binding_applies, authorize,
  is_master,
}
use kubernetes_style_orchest.Rbac.Matching.{
  RuleAllows, IsSubject, or_iff, and_iff, rule_matches_iff, subjects_match_iff,
}
use kubernetes_style_orchest.Rbac.Bindings.{role_grants, binding_grants}
use kubernetes_style_orchest.Rbac.Decision.{
  scope_grants, grants, authorize_user_sound, authorize_user_complete,
}

-- A binding of the scope, in the namespace of the request if it is a RoleBinding, that names the
-- user and refers to a stored role with a rule for the request.
abbrev pub Bound : Db → String → Request → User → Type 0
Bound s scope req u =
    (row : (String × String) × RoleBindingRow) × Member row s.role_bindings
    × (row.0.0 ≡ scope)
    × (scope ≡ "RoleBinding"
        → default_namespace row.1.metadata.namespace ≡ default_namespace req.namespace)
    × ((subject : Subject) × Member subject row.1.subjects × IsSubject u subject)
    × (role : RoleRow) × (select (row.1.role_ref.kind, row.1.role_ref.name) s.roles ≡ some role)
    × (rule : PolicyRule) × Member rule role.rules
    × RuleAllows rule req

abbrev pub Granted : Db → Request → User → Type 0
Granted s req u =
    ((g : String) × Member g u.groups × (g ≡ "system:masters"))
    ⊎ Bound s "ClusterRoleBinding" req u
    ⊎ Bound s "RoleBinding" req u

-- What makes a row of the table a grant, in the order of the code's tests.
abbrev RowGrants : Db → String → Request → User → (String × String) × RoleBindingRow → Type 0
RowGrants s scope req u row =
    (row.0.0 ≡ scope)
    × ((scope ≡ "RoleBinding"
          → default_namespace row.1.metadata.namespace ≡ default_namespace req.namespace)
        × ((x : Subject) × Member x row.1.subjects × IsSubject u x))
    × ((role : RoleRow) × (select (row.1.role_ref.kind, row.1.role_ref.name) s.roles ≡ some role)
        × ((rule : PolicyRule) × Member rule role.rules × RuleAllows rule req))

in_scope_iff :
    (scope a b : String)
    → ((if scope == "RoleBinding" then a == b else true) ≡ true) ↔ (scope ≡ "RoleBinding" → a ≡ b)
in_scope_iff scope a b = elim (Bool-cases (scope == "RoleBinding")) [
  | inl e ↦
      rw e ((λ h k. (==_iff a b).0 h), (λ h. (==_iff a b).1 (h ((==_iff scope "RoleBinding").0 e))))
  | inr e ↦ rw e ((λ h k. false_test scope k e), (λ h. refl))
]
  where
    false_test : (t : String) → t ≡ "RoleBinding" → (t == "RoleBinding") ≡ false → a ≡ b
    false_test t k f = cc (sym f ∙ (==_iff t "RoleBinding").1 k)

binding_applies_iff :
    (scope : String) (req : Request) (u : User) (b : RoleBinding)
    → (binding_applies scope req u b ≡ true) ↔ (
        (scope ≡ "RoleBinding"
          → default_namespace b.metadata.namespace ≡ default_namespace req.namespace)
        × ((x : Subject) × Member x b.subjects × IsSubject u x))
unfolding binding_applies
binding_applies_iff scope req u b =
    and_iff
      (if scope == "RoleBinding"
        then default_namespace b.metadata.namespace == default_namespace req.namespace
        else true)
      (subjects_match b.subjects u) (in_scope_iff scope _ _) (subjects_match_iff b.subjects u)

role_grants_iff :
    (o : Option RoleRow) (req : Request)
    → (role_grants o req ≡ true) ↔ (
        (role : RoleRow) × (o ≡ some role)
        × ((rule : PolicyRule) × Member rule role.rules × RuleAllows rule req))
role_grants_iff none req = ((λ h. cc), (λ w. cc w.1))
role_grants_iff (some role) req =
    let rules =
      any_iff (λ r. rule_matches r req) (λ r. RuleAllows r req) (λ r. rule_matches_iff r req)
        role.rules in
    ((λ h. (role, refl, rules.0 h)), (λ w. other role w.0 w.1 w.2))
  where
    other :
        (q r : RoleRow)
        → some q ≡ some r
        → ((rule : PolicyRule) × Member rule r.rules × RuleAllows rule req)
        → any (λ x. rule_matches x req) q.rules ≡ true
    other q r e w =
        let same : q ≡ r = cc e in
        rw same (
          (any_iff (λ x. rule_matches x req) (λ x. RuleAllows x req) (λ x. rule_matches_iff x req)
              r.rules).1
            w)

scope_grants_iff :
    (s : Db) (scope : String) (req : Request) (u : User)
    → (scope_grants s scope req u ≡ true) ↔ Bound s scope req u
unfolding scope_grants binding_of_row
scope_grants_iff s scope req u =
    iff_trans
      (any_iff
        (λ r. r.0.0 == scope && binding_grants s.roles scope req u (binding_of_row scope r.1))
        (RowGrants s scope req u)
        (λ r.
          iff_trans
            (and_iff (r.0.0 == scope) _ (==_iff r.0.0 scope) (
              and_iff (binding_applies scope req u (binding_of_row scope r.1)) _
                (binding_applies_iff scope req u (binding_of_row scope r.1))
                (role_grants_iff (select (r.1.role_ref.kind, r.1.role_ref.name) s.roles) req)))
            ((λ w. (w.0, w.1.0, w.1.1)), (λ w. (w.0, (w.1, w.2)))))
        s.role_bindings)
      (
        (λ w.
            let (row, m, g) = w in
            (row, m, g.0, g.1.0, g.1.1, g.2.0, g.2.1, g.2.2.0, g.2.2.1, g.2.2.2)),
        (λ w.
            let (row, m, e, n, x, role, f, rule, k, allows) = w in
            (row, m, (e, (n, x), (role, f, (rule, k, allows))))),
      )

grants_iff : (s : Db) (req : Request) (u : User) → (grants s req u ≡ true) ↔ Granted s req u
unfolding is_master
grants_iff s req u =
    iff_trans
      (or_iff (is_master u || scope_grants s "ClusterRoleBinding" req u) _
        (or_iff (is_master u) _
          (any_iff (λ g. g == "system:masters") (λ g. g ≡ "system:masters")
            (λ g. ==_iff g "system:masters") u.groups)
          (scope_grants_iff s "ClusterRoleBinding" req u))
        (scope_grants_iff s "RoleBinding" req u))
      (
        elim [ inl (inl m) ↦ inl m | inl (inr b) ↦ inr (inl b) | inr b ↦ inr (inr b) ],
        elim [ inl m ↦ inl (inl m) | inr (inl b) ↦ inl (inr b) | inr (inr b) ↦ inr b ],
      )

-- If Authorize lets a user through, the user is in system:masters or a stored binding of its scope
-- and namespace names the user and refers to a stored role with a rule for the request, whichever
-- statements the driver fails.
pub authorize_sound :
    (req : Request) (u : User) (s : Db)
    → req.user ≡ some u
    → result (authorize req s) ≡ ok allowed
    → Granted s req u
unfolding authorize
authorize_sound req u s e h =
    (grants_iff s req u).0 (authorize_user_sound req u s (rw (e, authorize) at h))

-- Where the driver fails nothing, every granted request is let through.
pub authorize_complete :
    (req : Request) (u : User) (s : Db)
    → req.user ≡ some u
    → NoFaults s
    → Granted s req u
    → result (authorize req s) ≡ ok allowed
unfolding authorize
authorize_complete req u s e works g =
    rw (e, authorize) (authorize_user_complete req u s works ((grants_iff s req u).1 g))
