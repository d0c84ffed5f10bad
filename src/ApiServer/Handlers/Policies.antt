-- ===== src/ApiServer/Handlers/Policies.antt =====
-- mvp/cmd/apiserver/m6.go: network policies. A selector that is nil and one that is empty are the
-- same list here.
use kubernetes_style_orchest.Prelude.{
  ℕ, String, ◌==◌, string_eq, Option, trim_prefix, if◌then◌else◌,
}
use kubernetes_style_orchest.Api.{NetworkPolicy}
use kubernetes_style_orchest.Sql.{M, pure}
use kubernetes_style_orchest.Store.Members.{
  list_network_policies, upsert_network_policy, get_network_policy, delete_network_policy,
}
use kubernetes_style_orchest.ApiServer.Http.{
  HttpRequest, Reply, error, reply_items, reply_object, reply_deleted, reply_read_back, after_write,
  with_body, get_or_post, get_or_delete,
}

module _ (read : String → Option NetworkPolicy) (now : ℕ) where
  unfoldable pub store_net_pol : NetworkPolicy → M (Reply NetworkPolicy)
  unfolding after_write upsert_network_policy reply_read_back get_network_policy
  store_net_pol np =
      if np.metadata.name == ""
      then pure (error 400)
      else after_write
          (upsert_network_policy now
            (record np { api_version = "networking.mk.io/v1"; kind = "NetworkPolicy" }))
          (reply_read_back 201 (get_network_policy np.metadata.name))

  unfoldable pub handle_net_pols : HttpRequest → M (Reply NetworkPolicy)
  unfolding reply_items list_network_policies with_body store_net_pol
  handle_net_pols r =
      get_or_post r (reply_items list_network_policies) (with_body read r store_net_pol)

unfoldable pub handle_net_pols_by_name : HttpRequest → M (Reply NetworkPolicy)
unfolding trim_prefix reply_object get_network_policy reply_deleted delete_network_policy
handle_net_pols_by_name r =
    let name = trim_prefix "/apis/networking.mk.io/v1/networkpolicies/" r.path in
    get_or_delete r name (reply_object (get_network_policy name))
      (reply_deleted name (delete_network_policy name))
