-- ===== src/Rbac/Decision.antt =====
-- mvp/internal/rbac/rbac.go: whom `Authorize` lets through.
use kubernetes_style_orchest.Prelude.{
  suc, String, ◌==◌, string_eq, pair_eq, Bool, true, ◌&&◌, ◌||◌, List, any, ◌≡◌, arith, any-map,
  any-keep, any-order_by, keep, map, order_by, ◌∙◌, sym,
}
use kubernetes_style_orchest.Api.{User, RoleBinding}
use kubernetes_style_orchest.Db.{Db, RoleBindingRow}
use kubernetes_style_orchest.Sql.{NoFaults, ok, result, after}
use kubernetes_style_orchest.Store.Access.{list_role_bindings, binding_of_row}
use kubernetes_style_orchest.Rbac.{Request, allowed, check_bindings, authorize_user, is_master}
use kubernetes_style_orchest.Rbac.Bindings.{
  binding_grants, check_each_sound, check_each_exact, Keeps, check_each-Keeps,
}

-- The bindings of a scope, in the order of the query.
abbrev pub listed : String → List ((String × String) × RoleBindingRow) → List RoleBinding
listed scope rows =
    map (λ r. binding_of_row scope r.1)
      (order_by (λ r. r.1.created_at) (keep (λ r. r.0.0 == scope) rows))

-- Some binding of the scope applies to the user and the request and names a role with a rule for it.
unfoldable pub scope_grants : Db → String → Request → User → Bool
scope_grants s scope req u =
    any (λ r. r.0.0 == scope && binding_grants s.roles scope req u (binding_of_row scope r.1))
      s.role_bindings

any-listed :
    (p : RoleBinding → Bool) (scope : String) (rows : List ((String × String) × RoleBindingRow))
    → any p (listed scope rows) ≡ any (λ r. r.0.0 == scope && p (binding_of_row scope r.1)) rows
any-listed p scope rows =
    any-map (λ r. binding_of_row scope r.1) p _
    ∙ any-order_by (λ r. r.1.created_at) (λ r. p (binding_of_row scope r.1)) _
    ∙ any-keep (λ r. p (binding_of_row scope r.1)) (λ r. r.0.0 == scope) rows

module _ (scope : String) (req : Request) (u : User) (s : Db) where
  check_bindings_sound :
      result (check_bindings scope req u s) ≡ ok true → scope_grants s scope req u ≡ true
  unfolding check_bindings list_role_bindings scope_grants
  check_bindings_sound h =
      sym (any-listed (binding_grants s.roles scope req u) scope s.role_bindings)
      ∙ check_each_sound scope req u (listed scope s.role_bindings)
          (record s { executed = suc s.executed }) (ground arith)

  check_bindings_exact :
      NoFaults s → result (check_bindings scope req u s) ≡ ok (scope_grants s scope req u)
  unfolding check_bindings list_role_bindings scope_grants
  check_bindings_exact works = rw (works s.executed) (
      check_each_exact scope req u (listed scope s.role_bindings)
        (record s { executed = suc s.executed }) works
      ∙ rw (any-listed (binding_grants s.roles scope req u) scope s.role_bindings))

  check_bindings-Keeps : Keeps s (after (check_bindings scope req u s))
  unfolding check_bindings list_role_bindings
  check_bindings-Keeps = ground (
    arith,
    check_each-Keeps scope req u (listed scope s.role_bindings)
        (record s { executed = suc s.executed }),
  )

scope_grants-Keeps :
    (scope : String) (req : Request) (u : User) (s t : Db)
    → Keeps s t
    → scope_grants t scope req u ≡ scope_grants s scope req u
unfolding scope_grants
scope_grants-Keeps scope req u s t h = rw (h.0, h.1)

-- What the authorizer should answer for a user.
abbrev pub grants : Db → Request → User → Bool
grants s req u =
    is_master u || scope_grants s "ClusterRoleBinding" req u || scope_grants s "RoleBinding" req u

module _ (req : Request) (u : User) (s : Db) where
  abbrev after_cluster : Db
  after_cluster = after (check_bindings "ClusterRoleBinding" req u s)

  pub authorize_user_sound : result (authorize_user req u s) ≡ ok allowed → grants s req u ≡ true
  unfolding authorize_user
  authorize_user_sound h = ground (
    arith,
    check_bindings_sound "ClusterRoleBinding" req u s,
    check_bindings_sound "RoleBinding" req u after_cluster,
    scope_grants-Keeps "RoleBinding" req u s after_cluster
        (check_bindings-Keeps "ClusterRoleBinding" req u s),
  )

  pub authorize_user_complete :
      NoFaults s → grants s req u ≡ true → result (authorize_user req u s) ≡ ok allowed
  unfolding authorize_user
  authorize_user_complete works h = ground (
    arith,
    check_bindings_exact "ClusterRoleBinding" req u s works,
    check_bindings_exact "RoleBinding" req u after_cluster
        (rw (check_bindings-Keeps "ClusterRoleBinding" req u s).2 works),
    scope_grants-Keeps "RoleBinding" req u s after_cluster
        (check_bindings-Keeps "ClusterRoleBinding" req u s),
  )
