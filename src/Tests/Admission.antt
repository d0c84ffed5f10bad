-- ===== src/Tests/Admission.antt =====
-- mvp/internal/admission/admission.go: one mutating and one validating webhook.
use kubernetes_style_orchest.Prelude.{ℕ, String, string_eq, true, none, refl, [], ◌∷◌, here}
use kubernetes_style_orchest.Api.{
  AdmissionReviewRequest, webhook_type_mutating, webhook_type_validating,
}
use kubernetes_style_orchest.Db.{Db, WebhookRow}
use kubernetes_style_orchest.Store.Scaling.{webhook_of_row, list_webhooks}
use kubernetes_style_orchest.Admission.{Answer, reviewed, review}
use kubernetes_style_orchest.Admission.Sound.{Allowed, Strict}
use kubernetes_style_orchest.Admission.Stored.{review-Allowed}
use kubernetes_style_orchest.Tests.Data.{no_rows}

abbrev injects : WebhookRow
injects = record {
  type = webhook_type_mutating;
  url = "http://inject";
  resources = "pods" ∷ [];
  failure_policy = "Fail";
  created_at = 1;
}

abbrev checks : WebhookRow
checks = record {
  type = webhook_type_validating;
  url = "http://check";
  resources = "*" ∷ [];
  failure_policy = "Fail";
  created_at = 2;
}

abbrev with_hooks : Db
with_hooks = record no_rows { admission_webhooks = ("inject", injects) ∷ ("check", checks) ∷ [] }

abbrev post : ℕ → String → AdmissionReviewRequest → Answer
post n url request = reviewed (record { uid = ""; allowed = true; message = ""; patch = "{2}" })

abbrev uid : ℕ → String
uid n = "id"

review-Allowed_example :
    (Strict post uid "pods" "Pod" "CREATE" "web" "default" webhook_type_mutating
        (webhook_of_row ("inject", injects))
      → (seen : String) × Allowed post uid "pods" "Pod" "CREATE" "web" "default"
          (webhook_of_row ("inject", injects))
          seen)
    × (Strict post uid "pods" "Pod" "CREATE" "web" "default" webhook_type_validating
          (webhook_of_row ("inject", injects))
        → Allowed post uid "pods" "Pod" "CREATE" "web" "default"
            (webhook_of_row ("inject", injects))
            "{2}")
unfolding review list_webhooks
review-Allowed_example =
    review-Allowed post uid "pods" "Pod" "CREATE" "web" "default" "{1}" with_hooks
      (record { object = "{2}"; error = none }) refl refl ("inject", injects) (here refl)
