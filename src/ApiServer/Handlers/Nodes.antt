-- ===== src/ApiServer/Handlers/Nodes.antt =====
-- mvp/cmd/apiserver/main.go: nodes. A node that posts itself is ready.
use kubernetes_style_orchest.Prelude.{
  ℕ, String, ◌==◌, string_eq, true, ◌||◌, Option, trim_prefix, if◌then◌else◌,
}
use kubernetes_style_orchest.Api.{Node}
use kubernetes_style_orchest.Sql.{M, pure}
use kubernetes_style_orchest.Store.Nodes.{list_nodes, upsert_node, get_node, delete_node}
use kubernetes_style_orchest.ApiServer.Http.{
  HttpRequest, Reply, error, reply_items, reply_object, reply_deleted, reply_read_back, after_write,
  with_body, get_or_delete, method_not_allowed,
}

unfoldable pub ready_node : Node → Node
ready_node n = record n {
  api_version = "v1";
  kind = "Node";
  status = record n.status { ready = true };
}

module _ (read : String → Option Node) (now : ℕ) where
  unfoldable pub store_node : Node → M (Reply Node)
  unfolding ready_node after_write upsert_node reply_read_back get_node
  store_node n =
      if n.metadata.name == ""
      then pure (error 400)
      else after_write (upsert_node now (ready_node n))
          (reply_read_back 201 (get_node n.metadata.name))

  unfoldable pub handle_nodes : HttpRequest → M (Reply Node)
  unfolding reply_items list_nodes with_body store_node
  handle_nodes r =
      if r.method == "GET"
      then reply_items list_nodes
      else if r.method == "POST" || r.method == "PUT"
      then with_body read r store_node
      else method_not_allowed

unfoldable pub handle_nodes_by_name : HttpRequest → M (Reply Node)
unfolding trim_prefix reply_object get_node reply_deleted delete_node
handle_nodes_by_name r =
    let name = trim_prefix "/api/v1/nodes/" r.path in
    get_or_delete r name (reply_object (get_node name)) (reply_deleted name (delete_node name))
