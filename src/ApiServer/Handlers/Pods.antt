-- ===== src/ApiServer/Handlers/Pods.antt =====
-- mvp/cmd/apiserver/main.go: pods. `marshal` and `unmarshal` stand for `encoding/json` on pods,
-- `post` and `uid` for what the admission pipeline asks for over HTTP and draws at random.
pub mod Created
use kubernetes_style_orchest.Prelude.{
  ℕ, String, ◌==◌, string_eq, Bool, ◌&&◌, not, Option, none, some, List, [], ◌∷◌, keep, value_at,
  trim_prefix, strip_suffix, if◌then◌else◌,
}
use kubernetes_style_orchest.Api.{Pod, PodStatus, AdmissionReviewRequest}
use kubernetes_style_orchest.Sql.{M, Result, ok, err, ◌>>=◌, pure, attempt}
use kubernetes_style_orchest.Store.Pods.{
  list_pods, list_pods_by_node, upsert_pod, get_pod, delete_pod, update_status,
}
use kubernetes_style_orchest.Admission.{Answer, Reviewed, review}
use kubernetes_style_orchest.ApiServer.Http.{
  HttpRequest, Reply, error, items, reply_object, reply_deleted, reply_read_back, after_write,
  reply_updated, with_body, get_or_post, get_or_delete, put_or_patch,
}

-- The pods of a node are filtered by the phase in the handler, all others by the store.
unfoldable pub listed_pods : String → String → Result (List Pod) → Reply Pod
listed_pods node phase (err e) = error 500
listed_pods node phase (ok ps) =
    items
      (if not (node == "") && not (phase == "") then keep (λ p. p.status.phase == phase) ps else ps)

-- `listPods`
unfoldable pub list_pods_reply : HttpRequest → M (Reply Pod)
unfolding list_pods list_pods_by_node listed_pods
list_pods_reply r = do
  ps ← attempt (
      if not (value_at r.query "nodeName" == "")
      then list_pods_by_node (value_at r.query "nodeName")
      else list_pods (value_at r.query "phase"))
  pure (listed_pods (value_at r.query "nodeName") (value_at r.query "phase") ps)

-- `getPod`, `deletePod`
unfoldable pub get_pod_reply : String → M (Reply Pod)
unfolding reply_object get_pod
get_pod_reply name = reply_object (get_pod name)

unfoldable pub delete_pod_reply : String → M (Reply Pod)
unfolding reply_deleted delete_pod
delete_pod_reply name = reply_deleted name (delete_pod name)

-- `p.APIVersion = "v1"; p.Kind = "Pod"`
unfoldable pub stamped_pod : Pod → Pod
stamped_pod p = record p { api_version = "v1"; kind = "Pod" }

module _ (post : ℕ → String → AdmissionReviewRequest → Answer) (uid : ℕ → String)
    (marshal : Pod → String) (unmarshal : String → Option Pod) (now : ℕ) where
  -- The end of `createPod`: the object that the pipeline returned is stored and read back.
  unfoldable pub store_pod : Option Pod → M (Reply Pod)
  unfolding after_write upsert_pod reply_read_back get_pod
  store_pod none = pure (error 500)
  store_pod (some final) =
      after_write (upsert_pod now final) (reply_read_back 201 (get_pod final.metadata.name))

  unfoldable pub after_review : Reviewed → M (Reply Pod)
  unfolding store_pod
  after_review r = elim r.error [
    | some cause ↦ pure (error 400)
    | none ↦ store_pod (unmarshal r.object)
  ]

  -- `createPod` on the decoded pod.
  unfoldable pub create_decoded : Pod → M (Reply Pod)
  unfolding stamped_pod review after_review
  create_decoded p = if p.metadata.name == "" then pure (error 400) else elim p.spec.containers [
    | [] ↦ pure (error 400)
    | _ ∷ _ ↦
        review post uid "pods" "Pod" "CREATE" p.metadata.name p.metadata.namespace
          (marshal (stamped_pod p))
        >>= after_review
  ]

  unfoldable pub create_pod_reply : HttpRequest → M (Reply Pod)
  unfolding with_body create_decoded
  create_pod_reply r = with_body unmarshal r create_decoded

  unfoldable pub handle_pods : HttpRequest → M (Reply Pod)
  unfolding list_pods_reply create_pod_reply
  handle_pods r = get_or_post r (list_pods_reply r) (create_pod_reply r)

module _ (read_status : String → Option PodStatus) (now : ℕ) where
  -- `updateStatus`
  unfoldable pub update_status_reply : HttpRequest → String → M (Reply Pod)
  unfolding with_body reply_updated update_status get_pod
  update_status_reply r name =
      with_body read_status r λ st. reply_updated (update_status now name st) (get_pod name)

  unfoldable pub handle_pods_by_name : HttpRequest → M (Reply Pod)
  unfolding trim_prefix strip_suffix update_status_reply get_pod_reply delete_pod_reply
  handle_pods_by_name r =
      let name = trim_prefix "/api/v1/pods/" r.path in
      elim (strip_suffix "/status" name) [
        | some pod ↦ put_or_patch r (update_status_reply r pod)
        | none ↦ get_or_delete r name (get_pod_reply name) (delete_pod_reply name)
      ]
