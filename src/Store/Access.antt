-- ===== src/Store/Access.antt =====
-- mvp/internal/store/store.go: users, roles and role bindings.
use kubernetes_style_orchest.Prelude.{
  ℕ, String, Bool, ◌==◌, string_eq, pair_eq, none, some, map, List, [], keep, find_first, order_by,
}
use kubernetes_style_orchest.Api.{User, Role, RoleBinding}
use kubernetes_style_orchest.Db.{UserRow, RoleRow, RoleBindingRow}
use kubernetes_style_orchest.Sql.{
  M, not_found, ◌>>=◌, pure, raise, query_row, query_all, insert_or_update, delete_where,
  require_row,
}
use kubernetes_style_orchest.Sql.{insert_or_update_unique}
use kubernetes_style_orchest.Store.Tables.{users, roles, role_bindings, ns_or_default}

-- The column `token` is UNIQUE.
unfoldable pub same_token : UserRow → UserRow → Bool
same_token a b = a.token == b.token

unfoldable pub upsert_user : ℕ → User → M (Unit {0})
unfolding insert_or_update_unique same_token
upsert_user now u =
    let row : UserRow = record { token = u.token; groups = u.groups; created_at = now } in
    insert_or_update_unique users same_token u.metadata.name row
      (λ r. record row { created_at = r.created_at })

unfoldable pub user_of_row : String × UserRow → User
user_of_row (name, r) = record {
  api_version = "mk.io/v1";
  kind = "User";
  metadata = record { name = name; namespace = ""; labels = [] };
  token = r.token;
  groups = r.groups;
}

-- SELECT … WHERE token=?: the first row that fits
unfoldable pub get_user_by_token : String → M User
unfolding query_all user_of_row
get_user_by_token token = do
  rows ← query_all users
  elim (find_first (λ r. r.1.token == token) rows) [
    | none ↦ raise not_found
    | some r ↦ pure (user_of_row r)
  ]

unfoldable pub list_users : M (List User)
unfolding query_all order_by user_of_row
list_users = do rows ← query_all users; pure (map user_of_row (order_by (λ r. r.1.created_at) rows))

unfoldable pub delete_user : String → M (Unit {0})
unfolding delete_where
delete_user name = do n ← delete_where users name; require_row n

unfoldable pub upsert_role : ℕ → String → Role → M (Unit {0})
unfolding ns_or_default insert_or_update
upsert_role now scope r =
    let row : RoleRow = record {
      namespace = ns_or_default r.metadata.namespace;
      rules = r.rules;
      metadata = r.metadata;
      created_at = now;
    } in
    insert_or_update roles (scope, r.metadata.name) row
      (λ q. record row { created_at = q.created_at })

unfoldable pub role_of_row : String → RoleRow → Role
role_of_row scope r = record {
  api_version = "rbac.mk.io/v1";
  kind = scope;
  metadata = r.metadata;
  rules = r.rules;
}

unfoldable pub get_role : String → String → M Role
unfolding query_row role_of_row
get_role scope name = do r ← query_row roles (scope, name); pure (role_of_row scope r)

unfoldable pub list_roles : String → M (List Role)
unfolding query_all order_by role_of_row
list_roles scope = do
  rows ← query_all roles
  pure (
      map (λ r. role_of_row scope r.1)
        (order_by (λ r. r.1.created_at) (keep (λ r. r.0.0 == scope) rows)))

unfoldable pub delete_role : String → String → M (Unit {0})
unfolding delete_where
delete_role scope name = do n ← delete_where roles (scope, name); require_row n

unfoldable pub upsert_role_binding : ℕ → String → RoleBinding → M (Unit {0})
unfolding ns_or_default insert_or_update
upsert_role_binding now scope b =
    let row : RoleBindingRow = record {
      namespace = ns_or_default b.metadata.namespace;
      subjects = b.subjects;
      role_ref = b.role_ref;
      metadata = b.metadata;
      created_at = now;
    } in
    insert_or_update role_bindings (scope, b.metadata.name) row
      (λ q. record row { created_at = q.created_at })

unfoldable pub binding_of_row : String → RoleBindingRow → RoleBinding
binding_of_row scope r = record {
  api_version = "rbac.mk.io/v1";
  kind = scope;
  metadata = r.metadata;
  subjects = r.subjects;
  role_ref = r.role_ref;
}

unfoldable pub list_role_bindings : String → M (List RoleBinding)
unfolding query_all order_by binding_of_row
list_role_bindings scope = do
  rows ← query_all role_bindings
  pure (
      map (λ r. binding_of_row scope r.1)
        (order_by (λ r. r.1.created_at) (keep (λ r. r.0.0 == scope) rows)))

unfoldable pub delete_role_binding : String → String → M (Unit {0})
unfolding delete_where
delete_role_binding scope name = do n ← delete_where role_bindings (scope, name); require_row n
