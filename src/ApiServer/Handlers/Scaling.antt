-- ===== src/ApiServer/Handlers/Scaling.antt =====
-- mvp/cmd/apiserver/main.go: HorizontalPodAutoscalers and the registry of admission webhooks.
use kubernetes_style_orchest.Prelude.{
  ℕ, String, ◌==◌, string_eq, not, ◌||◌, ◌&&◌, Option, none, some, trim_prefix, strip_suffix,
  if◌then◌else◌,
}
use kubernetes_style_orchest.Prelude.Int.{pos, ltb_ℤ}
use kubernetes_style_orchest.Api.{
  Hpa, HpaSpec, HpaStatus, AdmissionWebhook, webhook_type_mutating, webhook_type_validating,
}
use kubernetes_style_orchest.Sql.{M, pure}
use kubernetes_style_orchest.Store.Scaling.{
  list_hpas, upsert_hpa, get_hpa, update_hpa_status, delete_hpa, list_webhooks, upsert_webhook,
  delete_webhook,
}
use kubernetes_style_orchest.ApiServer.Http.{
  HttpRequest, Reply, error, object, reply_items, reply_object, reply_deleted, reply_read_back,
  after_write, reply_updated, with_body, get_or_post, get_or_delete, put_or_patch,
  method_not_allowed,
}

-- `if h.Spec.MinReplicas <= 0 { h.Spec.MinReplicas = 1 }`
unfoldable pub with_minimum : HpaSpec → HpaSpec
with_minimum spec = record spec {
  min_replicas = if ltb_ℤ (pos 0) spec.min_replicas then spec.min_replicas else pos 1;
}

module _ (read : String → Option Hpa) (now : ℕ) where
  unfoldable pub store_hpa : Hpa → M (Reply Hpa)
  unfolding with_minimum after_write upsert_hpa reply_read_back get_hpa
  store_hpa h =
      if h.metadata.name == "" || h.spec.scale_target_ref.name == ""
      then pure (error 400)
      else let spec = with_minimum h.spec in
        if ltb_ℤ spec.max_replicas spec.min_replicas
        then pure (error 400)
        else after_write
            (upsert_hpa now (record h {
              api_version = "autoscaling.mk.io/v1";
              kind = "HorizontalPodAutoscaler";
              spec = spec;
            }))
            (reply_read_back 201 (get_hpa h.metadata.name))

  unfoldable pub handle_hpas : HttpRequest → M (Reply Hpa)
  unfolding reply_items list_hpas with_body store_hpa
  handle_hpas r = get_or_post r (reply_items list_hpas) (with_body read r store_hpa)

module _ (read_status : String → Option HpaStatus) (now : ℕ) where
  unfoldable pub handle_hpas_by_name : HttpRequest → M (Reply Hpa)
  unfolding trim_prefix strip_suffix with_body reply_updated update_hpa_status get_hpa reply_object
      reply_deleted delete_hpa
  handle_hpas_by_name r =
      let name = trim_prefix "/apis/autoscaling.mk.io/v1/horizontalpodautoscalers/" r.path in
      elim (strip_suffix "/status" name) [
        | some n ↦
            put_or_patch r
              (with_body read_status r λ st. reply_updated (update_hpa_status now n st) (get_hpa n))
        | none ↦
            get_or_delete r name (reply_object (get_hpa name))
              (reply_deleted name (delete_hpa name))
      ]

module _ (read : String → Option AdmissionWebhook) (now : ℕ) where
  -- The reply is the webhook as `UpsertWebhook` left it, with its failure policy.
  unfoldable pub store_webhook : AdmissionWebhook → M (Reply AdmissionWebhook)
  unfolding after_write upsert_webhook
  store_webhook h =
      if h.metadata.name == "" || h.url == "" || h.type == ""
      then pure (error 400)
      else if not (h.type == webhook_type_mutating) && not (h.type == webhook_type_validating)
      then pure (error 400)
      else let stamped : AdmissionWebhook = record h {
        api_version = "admission.mk.io/v1";
        kind = "AdmissionWebhook";
      } in
        after_write (upsert_webhook now stamped) (
          pure (
            object 201 (
              some (record stamped {
                failure_policy = if h.failure_policy == "" then "Fail" else h.failure_policy;
              }))))

  unfoldable pub handle_webhooks : HttpRequest → M (Reply AdmissionWebhook)
  unfolding reply_items list_webhooks with_body store_webhook
  handle_webhooks r = get_or_post r (reply_items list_webhooks) (with_body read r store_webhook)

unfoldable pub handle_webhooks_by_name : HttpRequest → M (Reply AdmissionWebhook)
unfolding trim_prefix reply_deleted delete_webhook
handle_webhooks_by_name r =
    let name = trim_prefix "/apis/admission.mk.io/v1/webhooks/" r.path in
    if name == ""
    then pure (error 400)
    else if r.method == "DELETE"
    then reply_deleted name (delete_webhook name)
    else method_not_allowed
