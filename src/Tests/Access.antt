-- ===== src/Tests/Access.antt =====
-- mvp/internal/rbac/rbac.go: a user who may read the pods of one namespace.
use kubernetes_style_orchest.Prelude.{string_eq, pair_eq, some, ◌≡◌, refl, inl, inr, [], ◌∷◌, here}
use kubernetes_style_orchest.Api.{User}
use kubernetes_style_orchest.Db.{Db}
use kubernetes_style_orchest.Sql.{ok, result}
use kubernetes_style_orchest.Rbac.{Request, allowed, authorize, default_namespace}
use kubernetes_style_orchest.Sql.Rows.{select}
use kubernetes_style_orchest.Store.Access.{list_role_bindings, get_role}
use kubernetes_style_orchest.Rbac.Granted.{Granted, authorize_sound, authorize_complete}
use kubernetes_style_orchest.Tests.Data.{no_rows, named}

abbrev alice : User
alice = record {
  api_version = "rbac.mk.io/v1";
  kind = "User";
  metadata = named "alice" [];
  token = "t";
  groups = "dev" ∷ [];
}

abbrev reads_pods : Request
reads_pods = record {
  user = some alice;
  verb = "get";
  api_group = "";
  resource = "pods";
  namespace = "";
}

abbrev with_roles : Db
with_roles = record no_rows {
  roles =
      (
        ("Role", "reader"),
        record {
          namespace = "default";
          rules = record { api_groups = "" ∷ []; resources = "pods" ∷ []; verbs = "*" ∷ [] } ∷ [];
          metadata = named "reader" [];
          created_at = 0;
        },
      )
      ∷ [];
  role_bindings =
      (
        ("RoleBinding", "dev-reads"),
        record {
          namespace = "default";
          subjects = record { kind = "Group"; name = "dev" } ∷ [];
          role_ref = record { kind = "Role"; name = "reader" };
          metadata = named "dev-reads" [];
          created_at = 0;
        },
      )
      ∷ [];
}

authorize_sound_example : Granted with_roles reads_pods alice
unfolding authorize list_role_bindings get_role select
authorize_sound_example = authorize_sound reads_pods alice with_roles refl refl

authorize_complete_example : result (authorize reads_pods with_roles) ≡ ok allowed
unfolding select default_namespace
authorize_complete_example =
    authorize_complete reads_pods alice with_roles refl (λ n. refl)
      (inr (
        inr (
          _,
          here refl,
          refl,
          (λ e. refl),
          (_, here refl, inr (refl, "dev", here refl, refl)),
          _,
          refl,
          _,
          here refl,
          (("*", here refl, inl refl), ("", here refl, inr refl), ("pods", here refl, inr refl)),
        )))
