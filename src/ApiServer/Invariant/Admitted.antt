-- ===== src/ApiServer/Invariant/Admitted.antt =====
-- mvp/cmd/apiserver/main.go: the handlers that ask the admission pipeline keep the invariant.
use kubernetes_style_orchest.Prelude.{
  ℕ, String, ◌==◌, string_eq, Option, none, some, trim_prefix, strip_suffix, Option-cases, inl, inr,
}
use kubernetes_style_orchest.Api.{Pod, PodStatus, Deployment, AdmissionReviewRequest}
use kubernetes_style_orchest.Prelude.Int.{pos, ltb_ℤ}
use kubernetes_style_orchest.Admission.{Answer, Reviewed, review}
use kubernetes_style_orchest.ApiServer.Routes.Reading.{list_pods_reply-Reads}
use kubernetes_style_orchest.Sql.{attempt}
use kubernetes_style_orchest.Store.Pods.{delete_pod, get_pod, update_status, upsert_pod}
use kubernetes_style_orchest.Store.Scaling.{list_webhooks}
use kubernetes_style_orchest.Store.Workloads.{get_deployment, list_deployments, upsert_deployment}
use kubernetes_style_orchest.Store.Reading.{
  get_deployment-Reads, get_pod-Reads, list_deployments-Reads, list_webhooks-Reads,
}
use kubernetes_style_orchest.ApiServer.Handlers.Pods.{
  after_review, create_decoded, create_pod_reply, delete_pod_reply, get_pod_reply, handle_pods,
  handle_pods_by_name, list_pods_reply, stamped_pod, store_pod, update_status_reply,
}
use kubernetes_style_orchest.ApiServer.Handlers.Deployments.{
  create_deployment, deployment_after_review, handle_deployments, stamped_deployment,
  store_deployment, zero_deployment,
}
use kubernetes_style_orchest.ApiServer.Http.{HttpRequest}
use kubernetes_style_orchest.ApiServer.Invariant.{Keeps}
use kubernetes_style_orchest.ApiServer.Invariant.Keeping.{Reads-Keeps, bind-Keeps, attempt-Keeps}
use kubernetes_style_orchest.ApiServer.Invariant.Elsewhere.{
  delete_pod-Keeps, update_status-Keeps, upsert_deployment-Keeps, upsert_pod-Keeps,
}
use kubernetes_style_orchest.ApiServer.Invariant.Replies.{
  if-Keeps, reply_read_back-Keeps, reply_object-Keeps, reply_items-Keeps, reply_deleted-Keeps,
  after_write-Keeps, reply_updated-Keeps, with_body-Keeps, unless_empty-Keeps, get_or_post-Keeps,
  by_name-Keeps,
}

-- A review reads the list of webhooks.
review-Keeps :
    (post : ℕ → String → AdmissionReviewRequest → Answer) (uid : ℕ → String)
    (resource kind operation name namespace sent : String)
    → Keeps (review post uid resource kind operation name namespace sent)
unfolding review
review-Keeps post uid resource kind operation name namespace sent =
    bind-Keeps (attempt list_webhooks) _
      (attempt-Keeps list_webhooks (Reads-Keeps list_webhooks list_webhooks-Reads)) (λ h s k. k)

module _ (post : ℕ → String → AdmissionReviewRequest → Answer) (uid : ℕ → String)
    (marshal : Pod → String) (unmarshal : String → Option Pod) (now : ℕ) where
  store_pod-Keeps : (o : Option Pod) → Keeps (store_pod post uid marshal unmarshal now o)
  unfolding store_pod
  store_pod-Keeps none = λ s k. k
  store_pod-Keeps (some p) =
      after_write-Keeps (upsert_pod now p) _ (upsert_pod-Keeps now p)
        (reply_read_back-Keeps 201 (get_pod p.metadata.name) (get_pod-Reads p.metadata.name))

  after_review-Keeps : (x : Reviewed) → Keeps (after_review post uid marshal unmarshal now x)
  unfolding after_review
  after_review-Keeps x = elim (Option-cases x.error) [
    | inl e ↦ rw (e, after_review) (store_pod-Keeps (unmarshal x.object))
    | inr (cause, e) ↦ rw (e, after_review) (λ s k. k)
  ]

  create_decoded-Keeps : (p : Pod) → Keeps (create_decoded post uid marshal unmarshal now p)
  unfolding create_decoded
  create_decoded-Keeps p =
      let sent = marshal (stamped_pod p) in
      if-Keeps (p.metadata.name == "") _ _ (λ s k. k)
        (unless_empty-Keeps p.spec.containers _ (
          bind-Keeps
            (review post uid "pods" "Pod" "CREATE" p.metadata.name p.metadata.namespace sent)
            (after_review post uid marshal unmarshal now)
            (review-Keeps post uid "pods" "Pod" "CREATE" p.metadata.name p.metadata.namespace sent)
            after_review-Keeps))

  pub handle_pods-Keeps : (r : HttpRequest) → Keeps (handle_pods post uid marshal unmarshal now r)
  unfolding handle_pods create_pod_reply
  handle_pods-Keeps r =
      get_or_post-Keeps r _ _ (Reads-Keeps (list_pods_reply r) (list_pods_reply-Reads r))
        (with_body-Keeps unmarshal r _ create_decoded-Keeps)

pub handle_pods_by_name-Keeps :
    (read : String → Option PodStatus) (now : ℕ) (r : HttpRequest)
    → Keeps (handle_pods_by_name read now r)
unfolding handle_pods_by_name update_status_reply get_pod_reply delete_pod_reply
handle_pods_by_name-Keeps read now r =
    let name = trim_prefix "/api/v1/pods/" r.path in
    by_name-Keeps r (strip_suffix "/status" name) name _ _ _
      (λ n. with_body-Keeps read r _ (λ st.
        reply_updated-Keeps (update_status now n st) (get_pod n) (update_status-Keeps now n st)
          (get_pod-Reads n)))
      (reply_object-Keeps (get_pod name) (get_pod-Reads name))
      (reply_deleted-Keeps Pod name (delete_pod name) (delete_pod-Keeps name))

module _ (post : ℕ → String → AdmissionReviewRequest → Answer) (uid : ℕ → String)
    (marshal : Deployment → String) (read : String → Deployment → Option Deployment) (now : ℕ) where
  store_deployment-Keeps :
      (o : Option Deployment) → Keeps (store_deployment post uid marshal read now o)
  unfolding store_deployment
  store_deployment-Keeps none = λ s k. k
  store_deployment-Keeps (some d) =
      after_write-Keeps (upsert_deployment now d) _ (upsert_deployment-Keeps now d) (
        reply_read_back-Keeps 201 (get_deployment d.metadata.name)
          (get_deployment-Reads d.metadata.name))

  deployment_after_review-Keeps :
      (d : Deployment) (x : Reviewed)
      → Keeps (deployment_after_review post uid marshal read now d x)
  unfolding deployment_after_review
  deployment_after_review-Keeps d x = elim (Option-cases x.error) [
    | inl e ↦ rw (e, deployment_after_review) (store_deployment-Keeps (read x.object d))
    | inr (cause, e) ↦ rw (e, deployment_after_review) (λ s k. k)
  ]

  create_deployment-Keeps : (d : Deployment) → Keeps (create_deployment post uid marshal read now d)
  unfolding create_deployment
  create_deployment-Keeps d =
      let sent = marshal (stamped_deployment d) in
      if-Keeps (d.metadata.name == "") _ _ (λ s k. k)
        (if-Keeps (ltb_ℤ d.spec.replicas (pos 0)) _ _ (λ s k. k)
          (unless_empty-Keeps d.spec.template.spec.containers _ (
            bind-Keeps
              (review post uid "deployments" "Deployment" "CREATE" d.metadata.name
                d.metadata.namespace sent)
              (deployment_after_review post uid marshal read now (stamped_deployment d))
              (review-Keeps post uid "deployments" "Deployment" "CREATE" d.metadata.name
                d.metadata.namespace sent)
              (deployment_after_review-Keeps (stamped_deployment d)))))

  pub handle_deployments-Keeps :
      (r : HttpRequest) → Keeps (handle_deployments post uid marshal read now r)
  unfolding handle_deployments
  handle_deployments-Keeps r =
      get_or_post-Keeps r _ _ (reply_items-Keeps list_deployments list_deployments-Reads)
        (with_body-Keeps (λ text. read text zero_deployment) r _ create_deployment-Keeps)
