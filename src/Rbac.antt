-- ===== src/Rbac.antt =====
-- mvp/internal/rbac/rbac.go: the token authenticator and the RBAC authorizer, over the store.
-- A nil `*api.User` is `none`.
pub mod Bindings
pub mod Decision
pub mod Matching
pub mod Granted
pub mod Tokens
pub mod Reading
use kubernetes_style_orchest.Prelude.{
  String, ◌==◌, string_eq, Bool, true, false, ◌&&◌, ◌||◌, Option, none, some, List, [], ◌∷◌, any,
  strip_prefix, trim_space, concat, if◌then◌else◌,
}
use kubernetes_style_orchest.Api.{User, Subject, RoleBinding, Role, PolicyRule}
use kubernetes_style_orchest.Sql.{M, Result, ok, err, Error, ◌>>=◌, pure, attempt}
use kubernetes_style_orchest.Store.Access.{get_user_by_token, list_role_bindings, get_role}

pub record Request : Type 0 where
  pub user : Option User
  pub verb : String
  pub api_group : String
  pub resource : String
  pub namespace : String

unfoldable pub system_user : User
system_user = record {
  api_version = "";
  kind = "";
  metadata = record { name = "system:admin"; namespace = ""; labels = [] };
  token = "";
  groups = "system:masters" ∷ [];
}

-- `u, err := a.Store.GetUserByToken(tok); if err != nil { return nil, false }`
abbrev user_or_nil : Result User → Option User
user_or_nil (ok u) = some u
user_or_nil (err e) = none

-- The part of `Authenticate` after the prefix was cut off; `none` is the answer `nil, false`.
unfoldable pub authenticate_token : Option String → M (Option User)
unfolding trim_space
authenticate_token none = pure none
authenticate_token (some rest) =
    let tok = trim_space rest in
    if tok == "" then pure none else (do u ← attempt (get_user_by_token tok); pure (user_or_nil u))

-- `Authenticate`: the header `Authorization`, and whether anonymous requests are allowed.
unfoldable pub authenticate : Bool → String → M (Option User)
unfolding authenticate_token system_user strip_prefix
authenticate anonymous_allowed h =
    if h == ""
    then pure (if anonymous_allowed then some system_user else none)
    else authenticate_token (strip_prefix "Bearer " h)

unfoldable pub list_contains : List String → String → Bool
list_contains list v = any (λ x. x == "*" || x == v) list

unfoldable pub rule_matches : PolicyRule → Request → Bool
unfolding list_contains
rule_matches r req =
    list_contains r.verbs req.verb
    && list_contains r.api_groups req.api_group
    && list_contains r.resources req.resource

unfoldable pub subject_matches : User → Subject → Bool
subject_matches u s =
    if s.kind == "User"
    then s.name == u.metadata.name
    else if s.kind == "Group"
    then any (λ g. g == s.name) u.groups
    else false

unfoldable pub subjects_match : List Subject → User → Bool
unfolding subject_matches
subjects_match subs u = any (subject_matches u) subs

unfoldable pub default_namespace : String → String
default_namespace ns = if ns == "" then "default" else ns

-- The tests that make the loop of `checkBindings` skip a binding.
unfoldable pub binding_applies : String → Request → User → RoleBinding → Bool
unfolding default_namespace subjects_match
binding_applies scope req u b =
    (if scope == "RoleBinding"
      then default_namespace b.metadata.namespace == default_namespace req.namespace
      else true)
    && subjects_match b.subjects u

-- The rules of the role that was looked up; a role that was not found has none.
unfoldable pub role_allows : Request → Result Role → Bool
unfolding rule_matches
role_allows req (ok role) = any (λ r. rule_matches r req) role.rules
role_allows req (err e) = false

-- The loop of `checkBindings`.
unfoldable pub check_each : String → Request → User → List RoleBinding → M Bool
unfolding binding_applies role_allows
check_each scope req u [] = pure false
check_each scope req u (b ∷ bs) =
    let rest = check_each scope req u bs in
    if binding_applies scope req u b
    then (do
      role ← attempt (get_role b.role_ref.kind b.role_ref.name)
      if role_allows req role then pure true else rest)
    else rest

unfoldable pub check_bindings : String → Request → User → M Bool
unfolding check_each
check_bindings scope req u = do bindings ← list_role_bindings scope; check_each scope req u bindings

-- `nil`, or the error that `errDenied` makes.
pub data Verdict : Type 0 where
  allowed : Verdict
  denied : String → Verdict

unfoldable pub nz : String → String → String
nz v d = if v == "" then d else v

unfoldable pub err_denied : String → Verdict
err_denied m = denied (concat "forbidden: " m)

unfoldable pub is_master : User → Bool
is_master u = any (λ g. g == "system:masters") u.groups

-- `Authorize` for a user that is not nil. An error of the store is an error of the action.
unfoldable pub authorize_user : Request → User → M Verdict
unfolding is_master check_bindings err_denied nz
authorize_user req u = if is_master u then pure allowed else (do
  cluster ← check_bindings "ClusterRoleBinding" req u
  if cluster then pure allowed else (do
    namespaced ← check_bindings "RoleBinding" req u
    if namespaced
        then pure allowed
        else pure (
            err_denied (
              concat "user=" (
                concat u.metadata.name (
                  concat " cannot " (
                    concat req.verb (
                      concat " " (
                        concat req.resource
                          (concat " in apiGroup=" (nz req.api_group "core")))))))))))

unfoldable pub authorize : Request → M Verdict
unfolding authorize_user err_denied
authorize req = elim req.user [ none ↦ pure (err_denied "no user") | some u ↦ authorize_user req u ]
