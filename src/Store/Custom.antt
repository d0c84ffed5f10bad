-- ===== src/Store/Custom.antt =====
-- mvp/internal/store/store.go: CustomResourceDefinitions and custom resources.
use kubernetes_style_orchest.Prelude.{
  ℕ, String, ◌==◌, string_eq, pair_eq, none, some, map, List, keep, not, find_first, order_by,
}
use kubernetes_style_orchest.Api.{Crd, CustomResource}
use kubernetes_style_orchest.Db.{CrdRow, CustomResourceRow}
use kubernetes_style_orchest.Sql.{
  M, not_found, ◌>>=◌, ◌>>◌, pure, raise, ignore, query_row, query_all, insert_or_update,
  delete_where, require_row,
}
use kubernetes_style_orchest.Sql.{statement, returns}
use kubernetes_style_orchest.Store.Tables.{crds, custom_resources, ns_or_default}

unfoldable pub upsert_crd : ℕ → Crd → M (Unit {0})
unfolding insert_or_update
upsert_crd now c =
    let row : CrdRow = record {
      group_name = c.spec.group;
      version = c.spec.version;
      plural = c.spec.names.plural;
      kind = c.spec.names.kind;
      singular = c.spec.names.singular;
      scope = c.spec.scope;
      spec = c.spec;
      metadata = c.metadata;
      created_at = now;
    } in
    insert_or_update crds c.metadata.name row (λ r. record row { created_at = r.created_at })

unfoldable pub crd_of_row : CrdRow → Crd
crd_of_row r = record {
  api_version = "mk.io/v1";
  kind = "CustomResourceDefinition";
  metadata = r.metadata;
  spec = r.spec;
}

unfoldable pub get_crd : String → M Crd
unfolding query_row crd_of_row
get_crd name = do r ← query_row crds name; pure (crd_of_row r)

-- `GetCRDByPlural` and `ListCRDs` put the name column into the metadata.
unfoldable pub named_crd : String × CrdRow → Crd
unfolding crd_of_row
named_crd (name, r) = record (crd_of_row r) { metadata = record r.metadata { name = name } }

-- SELECT … WHERE plural=?: the first row that fits
unfoldable pub get_crd_by_plural : String → M Crd
unfolding statement query_all named_crd
get_crd_by_plural plural = do
  rows ← query_all crds
  elim (find_first (λ r. r.1.plural == plural) rows) [
    | none ↦ raise not_found
    | some r ↦ pure (named_crd r)
  ]

unfoldable pub list_crds : M (List Crd)
unfolding query_all order_by named_crd
list_crds = do rows ← query_all crds; pure (map named_crd (order_by (λ r. r.1.created_at) rows))

-- DELETE FROM custom_resources WHERE crd_name=?
unfoldable pub delete_custom_resources_of : String → M (Unit {0})
unfolding statement
delete_custom_resources_of crd = statement λ s.
    returns tt (record s { custom_resources = keep (λ r. not (r.0.0 == crd)) s.custom_resources })

-- The error of the second statement is dropped.
unfoldable pub delete_crd : String → M (Unit {0})
unfolding delete_where delete_custom_resources_of
delete_crd name = do
  n ← delete_where crds name
  require_row n
  ignore (delete_custom_resources_of name)
  pure tt

unfoldable pub upsert_custom_resource : ℕ → String → CustomResource → M (Unit {0})
unfolding ns_or_default insert_or_update
upsert_custom_resource now crd cr =
    let row : CustomResourceRow = record {
      namespace = ns_or_default cr.metadata.namespace;
      body = cr;
      created_at = now;
      last_updated = now;
    } in
    insert_or_update custom_resources (crd, cr.metadata.name) row
      (λ r. record row { created_at = r.created_at })

unfoldable pub get_custom_resource : String → String → M CustomResource
unfolding query_row
get_custom_resource crd name = do r ← query_row custom_resources (crd, name); pure r.body

unfoldable pub list_custom_resources : String → M (List CustomResource)
unfolding query_all order_by
list_custom_resources crd = do
  rows ← query_all custom_resources
  pure (map (λ r. r.1.body) (order_by (λ r. r.1.created_at) (keep (λ r. r.0.0 == crd) rows)))

unfoldable pub delete_custom_resource : String → String → M (Unit {0})
unfolding delete_where
delete_custom_resource crd name = do n ← delete_where custom_resources (crd, name); require_row n
