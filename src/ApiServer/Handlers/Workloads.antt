-- ===== src/ApiServer/Handlers/Workloads.antt =====
-- mvp/cmd/apiserver/main.go: ReplicaSets.
use kubernetes_style_orchest.Prelude.{
  ℕ, String, ◌==◌, string_eq, Option, none, some, trim_prefix, strip_suffix, if◌then◌else◌,
}
use kubernetes_style_orchest.Api.{ReplicaSet, ReplicaSetStatus}
use kubernetes_style_orchest.Sql.{M, pure}
use kubernetes_style_orchest.Store.Workloads.{
  list_replica_sets, upsert_replica_set, get_replica_set, update_replica_set_status,
  delete_replica_set,
}
use kubernetes_style_orchest.ApiServer.Http.{
  HttpRequest, Reply, error, reply_items, reply_object, reply_deleted, reply_read_back, after_write,
  reply_updated, with_body, get_or_post, get_or_delete, put_or_patch,
}

module _ (read : String → Option ReplicaSet) (now : ℕ) where
  unfoldable pub store_replica_set : ReplicaSet → M (Reply ReplicaSet)
  unfolding after_write upsert_replica_set reply_read_back get_replica_set
  store_replica_set rs =
      if rs.metadata.name == ""
      then pure (error 400)
      else after_write
          (upsert_replica_set now (record rs { api_version = "apps/v1"; kind = "ReplicaSet" }))
          (reply_read_back 201 (get_replica_set rs.metadata.name))

  unfoldable pub handle_rs : HttpRequest → M (Reply ReplicaSet)
  unfolding reply_items list_replica_sets with_body store_replica_set
  handle_rs r = get_or_post r (reply_items list_replica_sets) (with_body read r store_replica_set)

module _ (read_status : String → Option ReplicaSetStatus) (now : ℕ) where
  unfoldable pub handle_rs_by_name : HttpRequest → M (Reply ReplicaSet)
  unfolding trim_prefix strip_suffix with_body reply_updated update_replica_set_status
      get_replica_set reply_object reply_deleted delete_replica_set
  handle_rs_by_name r =
      let name = trim_prefix "/apis/apps/v1/replicasets/" r.path in
      elim (strip_suffix "/status" name) [
        | some n ↦ put_or_patch r (
            with_body read_status r
              λ st. reply_updated (update_replica_set_status now n st) (get_replica_set n))
        | none ↦
            get_or_delete r name (reply_object (get_replica_set name))
              (reply_deleted name (delete_replica_set name))
      ]
