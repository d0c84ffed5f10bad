-- ===== src/Rbac/Reading.antt =====
-- mvp/internal/rbac/rbac.go: to authenticate and to authorize changes no table.
use kubernetes_style_orchest.Prelude.{
  String, ◌==◌, string_eq, Bool, true, false, Option, none, some, List, [], ◌∷◌, strip_prefix,
  trim_space, if◌then◌else◌, refl, Option-cases, inl, inr,
}
use kubernetes_style_orchest.Api.{User, RoleBinding}
use kubernetes_style_orchest.Sql.{M, attempt}
use kubernetes_style_orchest.Sql.Reads.{Reads, Reads-attempt, Reads-bind}
use kubernetes_style_orchest.Store.Access.{get_user_by_token, list_role_bindings, get_role}
use kubernetes_style_orchest.Store.Reading.{
  get_user_by_token-Reads, list_role_bindings-Reads, get_role-Reads,
}
use kubernetes_style_orchest.Rbac.{
  Request, authenticate, authenticate_token, authorize, authorize_user, check_bindings, check_each,
  binding_applies, role_allows, is_master,
}

pub Reads-if : {A : Type 0} (b : Bool) (m n : M A) → Reads m → Reads n → Reads (if b then m else n)
Reads-if true m n h k = h
Reads-if false m n h k = k

authenticate_token-Reads : (o : Option String) → Reads (authenticate_token o)
unfolding authenticate_token
authenticate_token-Reads none = λ s. refl
authenticate_token-Reads (some rest) =
    Reads-if (trim_space rest == "") _ _ (λ s. refl)
      (Reads-bind (attempt (get_user_by_token (trim_space rest))) _
        (Reads-attempt (get_user_by_token (trim_space rest))
          (get_user_by_token-Reads (trim_space rest)))
        (λ u s. refl))

pub authenticate-Reads : (anonymous : Bool) (h : String) → Reads (authenticate anonymous h)
unfolding authenticate
authenticate-Reads anonymous h =
    Reads-if (h == "") _ _ (λ s. refl) (authenticate_token-Reads (strip_prefix "Bearer " h))

module _ (scope : String) (req : Request) (u : User) where
  check_each-Reads : (bs : List RoleBinding) → Reads (check_each scope req u bs)
  unfolding check_each
  check_each-Reads [] = λ s. refl
  check_each-Reads (b ∷ bs) =
      Reads-if (binding_applies scope req u b) _ _
        (Reads-bind (attempt (get_role b.role_ref.kind b.role_ref.name)) _
          (Reads-attempt (get_role b.role_ref.kind b.role_ref.name)
            (get_role-Reads b.role_ref.kind b.role_ref.name))
          (λ role. Reads-if (role_allows req role) _ _ (λ s. refl) (check_each-Reads bs)))
        (check_each-Reads bs)

  check_bindings-Reads : Reads (check_bindings scope req u)
  unfolding check_bindings
  check_bindings-Reads =
      Reads-bind (list_role_bindings scope) _ (list_role_bindings-Reads scope) check_each-Reads

authorize_user-Reads : (req : Request) (u : User) → Reads (authorize_user req u)
unfolding authorize_user
authorize_user-Reads req u =
    Reads-if (is_master u) _ _ (λ s. refl)
      (Reads-bind (check_bindings "ClusterRoleBinding" req u) _
        (check_bindings-Reads "ClusterRoleBinding" req u)
        (λ cluster.
          Reads-if cluster _ _ (λ s. refl)
            (Reads-bind (check_bindings "RoleBinding" req u) _
              (check_bindings-Reads "RoleBinding" req u)
              (λ namespaced. Reads-if namespaced _ _ (λ s. refl) (λ s. refl)))))

pub authorize-Reads : (req : Request) → Reads (authorize req)
unfolding authorize
authorize-Reads req = elim (Option-cases req.user) [
  | inl e ↦ rw (e, authorize) (λ s. refl)
  | inr (u, e) ↦ rw (e, authorize) (authorize_user-Reads req u)
]
