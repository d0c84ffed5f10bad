-- ===== src/Api/Access.antt =====
-- mvp/internal/api/types.go: RBAC roles, bindings and users.
use kubernetes_style_orchest.Prelude.{String, List}
use kubernetes_style_orchest.Api.Objects.{Metadata}

pub record PolicyRule : Type 0 where
  pub api_groups : List String
  pub resources : List String
  pub verbs : List String

pub record Role : Type 0 where
  pub api_version : String
  pub kind : String
  pub metadata : Metadata
  pub rules : List PolicyRule

pub record RoleRef : Type 0 where
  pub kind : String
  pub name : String

pub record Subject : Type 0 where
  pub kind : String
  pub name : String

pub record RoleBinding : Type 0 where
  pub api_version : String
  pub kind : String
  pub metadata : Metadata
  pub subjects : List Subject
  pub role_ref : RoleRef

pub record User : Type 0 where
  pub api_version : String
  pub kind : String
  pub metadata : Metadata
  pub token : String
  pub groups : List String
