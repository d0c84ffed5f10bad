-- ===== src/Store/Scaling.antt =====
-- mvp/internal/store/store.go: admission webhooks and HorizontalPodAutoscalers.
use kubernetes_style_orchest.Prelude.{
  ℕ, String, ◌==◌, string_eq, map, List, [], order_by, if◌then◌else◌,
}
use kubernetes_style_orchest.Api.{AdmissionWebhook, Hpa, HpaSpec, HpaStatus}
use kubernetes_style_orchest.Db.{WebhookRow, ObjectRow}
use kubernetes_style_orchest.Sql.{
  M, Result, ok, err, ◌>>=◌, pure, attempt, query_row, query_all, insert_or_update, update_where,
  delete_where, require_row,
}
use kubernetes_style_orchest.Store.Tables.{admission_webhooks, hpas, ns_or_default}

unfoldable pub upsert_webhook : ℕ → AdmissionWebhook → M (Unit {0})
unfolding insert_or_update
upsert_webhook now w =
    let row : WebhookRow = record {
      type = w.type;
      url = w.url;
      resources = w.resources;
      failure_policy = if w.failure_policy == "" then "Fail" else w.failure_policy;
      created_at = now;
    } in
    insert_or_update admission_webhooks w.metadata.name row
      (λ r. record row { created_at = r.created_at })

unfoldable pub webhook_of_row : String × WebhookRow → AdmissionWebhook
webhook_of_row (name, r) = record {
  api_version = "admission.mk.io/v1";
  kind = "AdmissionWebhook";
  metadata = record { name = name; namespace = ""; labels = [] };
  type = r.type;
  url = r.url;
  resources = r.resources;
  failure_policy = r.failure_policy;
}

unfoldable pub list_webhooks : M (List AdmissionWebhook)
unfolding query_all order_by webhook_of_row
list_webhooks = do
  rows ← query_all admission_webhooks
  pure (map webhook_of_row (order_by (λ r. r.1.created_at) rows))

unfoldable pub delete_webhook : String → M (Unit {0})
unfolding delete_where
delete_webhook name = do n ← delete_where admission_webhooks name; require_row n

unfoldable pub hpa_of_row : ObjectRow HpaSpec HpaStatus → Hpa
hpa_of_row r = record {
  api_version = "autoscaling.mk.io/v1";
  kind = "HorizontalPodAutoscaler";
  metadata = r.metadata;
  spec = r.spec;
  status = r.status;
}

unfoldable pub get_hpa : String → M Hpa
unfolding query_row hpa_of_row
get_hpa name = do r ← query_row hpas name; pure (hpa_of_row r)

-- `if err == nil { h.Status = existing.Status }`: any error counts as a missing row.
unfoldable pub kept_hpa_status : Hpa → Result Hpa → HpaStatus
kept_hpa_status h (ok existing) = existing.status
kept_hpa_status h (err e) = h.status

unfoldable pub upsert_hpa : ℕ → Hpa → M (Unit {0})
unfolding get_hpa kept_hpa_status ns_or_default insert_or_update
upsert_hpa now h = do
  existing ← attempt (get_hpa h.metadata.name)
  let row : ObjectRow HpaSpec HpaStatus = record {
    namespace = ns_or_default h.metadata.namespace;
    spec = h.spec;
    metadata = h.metadata;
    status = kept_hpa_status h existing;
    created_at = now;
    last_updated = now;
  }
  insert_or_update hpas h.metadata.name row (λ r. record row { created_at = r.created_at })

unfoldable pub list_hpas : M (List Hpa)
unfolding query_all order_by hpa_of_row
list_hpas = do
  rows ← query_all hpas
  pure (map (λ r. hpa_of_row r.1) (order_by (λ r. r.1.created_at) rows))

unfoldable pub update_hpa_status : ℕ → String → HpaStatus → M (Unit {0})
unfolding update_where
update_hpa_status now name st = do
  n ←
      update_where hpas name
        (λ r. record r { status = record st { last_updated = now }; last_updated = now })
  require_row n

unfoldable pub delete_hpa : String → M (Unit {0})
unfolding delete_where
delete_hpa name = do n ← delete_where hpas name; require_row n
