-- ===== src/Store/Nodes.antt =====
-- mvp/internal/store/store.go: nodes.
use kubernetes_style_orchest.Prelude.{ℕ, String, string_eq, map, List, order_by}
use kubernetes_style_orchest.Api.{Node}
use kubernetes_style_orchest.Db.{NodeRow}
use kubernetes_style_orchest.Sql.{
  M, ◌>>=◌, pure, query_row, query_all, insert_or_update, delete_where, require_row,
}
use kubernetes_style_orchest.Store.Tables.{nodes}

unfoldable pub upsert_node : ℕ → Node → M (Unit {0})
unfolding insert_or_update
upsert_node now n =
    let row : NodeRow = record {
      metadata = n.metadata;
      status = record n.status { last_heartbeat = now };
      created_at = now;
      last_heartbeat = now;
    } in
    insert_or_update nodes n.metadata.name row (λ r. record row { created_at = r.created_at })

unfoldable pub node_of_row : NodeRow → Node
node_of_row r = record {
  api_version = "v1";
  kind = "Node";
  metadata = r.metadata;
  status = r.status;
}

unfoldable pub get_node : String → M Node
unfolding query_row node_of_row
get_node name = do r ← query_row nodes name; pure (node_of_row r)

unfoldable pub list_nodes : M (List Node)
unfolding query_all order_by node_of_row
list_nodes = do
  rows ← query_all nodes
  pure (map (λ r. node_of_row r.1) (order_by (λ r. r.1.created_at) rows))

unfoldable pub delete_node : String → M (Unit {0})
unfolding delete_where
delete_node name = do n ← delete_where nodes name; require_row n
