-- ===== src/ApiServer/Handlers/Custom.antt =====
-- mvp/cmd/apiserver/main.go: CustomResourceDefinitions and the resources that they define.
use kubernetes_style_orchest.Prelude.{
  ℕ, String, ◌==◌, string_eq, Bool, not, ◌||◌, Option, none, some, trim_prefix, concat,
  if◌then◌else◌,
}
use kubernetes_style_orchest.Api.{Crd, CustomResource}
use kubernetes_style_orchest.Sql.{M, Result, ok, err, ◌>>=◌, pure, attempt}
use kubernetes_style_orchest.Store.Custom.{
  list_crds, upsert_crd, get_crd, delete_crd, get_crd_by_plural, list_custom_resources,
  upsert_custom_resource, get_custom_resource, delete_custom_resource,
}
use kubernetes_style_orchest.CustomResources.{CrPath, parse_path, validate_spec}
use kubernetes_style_orchest.ApiServer.Http.{
  HttpRequest, Reply, error, reply_items, reply_object, reply_deleted, reply_read_back, after_write,
  with_body, get_or_post, get_or_delete,
}
use kubernetes_style_orchest.ApiServer.Guard.{guard}

-- The defaults that the handler writes into the decoded definition.
unfoldable pub defaulted_crd : Crd → Crd
defaulted_crd c = record c {
  api_version = "mk.io/v1";
  kind = "CustomResourceDefinition";
  spec = record c.spec { scope = if c.spec.scope == "" then "Namespaced" else c.spec.scope };
}

module _ (read : String → Option Crd) (now : ℕ) where
  unfoldable pub store_crd : Crd → M (Reply Crd)
  unfolding defaulted_crd after_write upsert_crd reply_read_back get_crd
  store_crd c =
      if c.metadata.name == ""
      then pure (error 400)
      else if c.spec.group == ""
          || c.spec.version == ""
          || c.spec.names.plural == ""
          || c.spec.names.kind == ""
      then pure (error 400)
      else after_write (upsert_crd now (defaulted_crd c))
          (reply_read_back 201 (get_crd c.metadata.name))

  unfoldable pub handle_crds : HttpRequest → M (Reply Crd)
  unfolding reply_items list_crds with_body store_crd
  handle_crds r = get_or_post r (reply_items list_crds) (with_body read r store_crd)

unfoldable pub handle_crds_by_name : HttpRequest → M (Reply Crd)
unfolding trim_prefix reply_object get_crd reply_deleted delete_crd
handle_crds_by_name r =
    let name = trim_prefix "/apis/mk.io/v1/customresourcedefinitions/" r.path in
    get_or_delete r name (reply_object (get_crd name)) (reply_deleted name (delete_crd name))

module _ (to_lower : String → String) (rbac_enforce : Bool) (read : String → Option CustomResource)
    (now : ℕ) where
  unfoldable pub stamped_resource : CrPath → Crd → CustomResource → CustomResource
  stamped_resource p c cr = record cr {
    api_version = concat p.group (concat "/" p.version);
    kind = c.spec.names.kind;
  }

  unfoldable pub store_custom_resource : CrPath → Crd → CustomResource → M (Reply CustomResource)
  unfolding validate_spec stamped_resource after_write upsert_custom_resource reply_read_back
      get_custom_resource
  store_custom_resource p c cr =
      if cr.metadata.name == ""
      then pure (error 400)
      else elim (validate_spec c.spec.schema cr.spec) [
        | some e ↦ pure (error 400)
        | none ↦
            after_write (upsert_custom_resource now c.metadata.name (stamped_resource p c cr))
              (reply_read_back 201 (get_custom_resource c.metadata.name cr.metadata.name))
      ]

  -- The part of `handleDynamicCR` after the request is let through.
  unfoldable pub serve_custom : CrPath → Crd → HttpRequest → M (Reply CustomResource)
  unfolding reply_items list_custom_resources with_body store_custom_resource reply_object
      get_custom_resource reply_deleted delete_custom_resource
  serve_custom p c r =
      if p.name == ""
      then get_or_post r (reply_items (list_custom_resources c.metadata.name))
          (with_body read r (store_custom_resource p c))
      else get_or_delete r p.name (reply_object (get_custom_resource c.metadata.name p.name))
          (reply_deleted p.name (delete_custom_resource c.metadata.name p.name))

  -- The definition that was looked up, by its plural alone.
  unfoldable pub with_crd : CrPath → HttpRequest → Result Crd → M (Reply CustomResource)
  unfolding guard serve_custom
  with_crd p r (err e) = pure (error 404)
  with_crd p r (ok c) =
      if not (c.spec.group == p.group) || not (c.spec.version == p.version)
      then pure (error 404)
      else guard to_lower error rbac_enforce p.group p.plural (serve_custom p c) r

  unfoldable pub handle_dynamic_cr : HttpRequest → M (Reply CustomResource)
  unfolding parse_path get_crd_by_plural with_crd
  handle_dynamic_cr r = elim (parse_path r.path) [
    | none ↦ pure (error 404)
    | some p ↦ do c ← attempt (get_crd_by_plural p.plural); with_crd p r c
  ]
