-- ===== src/ApiServer/Handlers/Access.antt =====
-- mvp/cmd/apiserver/main.go: users, roles and role bindings.
use kubernetes_style_orchest.Prelude.{ℕ, String, ◌==◌, string_eq, ◌||◌, Option, some, if◌then◌else◌}
use kubernetes_style_orchest.Api.{User, Role, RoleBinding}
use kubernetes_style_orchest.Sql.{M, pure}
use kubernetes_style_orchest.Store.Access.{
  list_users, upsert_user, list_roles, upsert_role, list_role_bindings, upsert_role_binding,
}
use kubernetes_style_orchest.ApiServer.Http.{
  HttpRequest, Reply, error, object, reply_items, after_write, with_body, get_or_post,
}

module _ (read : String → Option User) (now : ℕ) where
  unfoldable pub store_user : User → M (Reply User)
  unfolding after_write upsert_user
  store_user u =
      if u.metadata.name == "" || u.token == ""
      then pure (error 400)
      else let stamped : User = record u { api_version = "rbac.mk.io/v1"; kind = "User" } in
        after_write (upsert_user now stamped) (pure (object 201 (some stamped)))

  unfoldable pub handle_users : HttpRequest → M (Reply User)
  unfolding reply_items list_users with_body store_user
  handle_users r = get_or_post r (reply_items list_users) (with_body read r store_user)

module _ (read : String → Option Role) (now : ℕ) (scope : String) where
  unfoldable pub store_role : Role → M (Reply Role)
  unfolding after_write upsert_role
  store_role role =
      if role.metadata.name == ""
      then pure (error 400)
      else let stamped : Role = record role { api_version = "rbac.mk.io/v1"; kind = scope } in
        after_write (upsert_role now scope stamped) (pure (object 201 (some stamped)))

  unfoldable pub handle_roles : HttpRequest → M (Reply Role)
  unfolding reply_items list_roles with_body store_role
  handle_roles r = get_or_post r (reply_items (list_roles scope)) (with_body read r store_role)

module _ (read : String → Option RoleBinding) (now : ℕ) (scope : String) where
  unfoldable pub store_role_binding : RoleBinding → M (Reply RoleBinding)
  unfolding after_write upsert_role_binding
  store_role_binding b =
      if b.metadata.name == ""
      then pure (error 400)
      else let stamped : RoleBinding = record b { api_version = "rbac.mk.io/v1"; kind = scope } in
        after_write (upsert_role_binding now scope stamped) (pure (object 201 (some stamped)))

  unfoldable pub handle_role_bindings : HttpRequest → M (Reply RoleBinding)
  unfolding reply_items list_role_bindings with_body store_role_binding
  handle_role_bindings r =
      get_or_post r (reply_items (list_role_bindings scope)) (with_body read r store_role_binding)
