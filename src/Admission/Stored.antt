-- ===== src/Admission/Stored.antt =====
-- mvp/internal/admission/admission.go: a review with the webhooks that the store holds.
use kubernetes_style_orchest.Prelude.{
  ℕ, String, none, Bool-cases, ◌≡◌, ap, ◌∙◌, inl, inr, Member, map, Member-map, Member-order_by,
  order_by,
}
use kubernetes_style_orchest.Api.{
  AdmissionReviewRequest, webhook_type_mutating, webhook_type_validating,
}
use kubernetes_style_orchest.Db.{Db, WebhookRow}
use kubernetes_style_orchest.Sql.{ok, err, failed, result}
use kubernetes_style_orchest.Store.Scaling.{webhook_of_row, list_webhooks}
use kubernetes_style_orchest.Admission.{Answer, Reviewed, review_with, review}
use kubernetes_style_orchest.Admission.Sound.{Allowed, Strict, review_with-Allowed}

module _ (post : ℕ → String → AdmissionReviewRequest → Answer) (uid : ℕ → String)
    (resource kind operation name namespace : String) where
  -- If `Review` reports no error, every stored mutating webhook that handles the resource and whose
  -- failures are not ignored allowed some object, and every such validating webhook allowed the very
  -- object that `Review` returns.
  pub review-Allowed :
      (object : String) (s : Db) (r : Reviewed)
      → result (review post uid resource kind operation name namespace object s) ≡ ok r
      → r.error ≡ none
      → (row : String × WebhookRow) → Member row s.admission_webhooks
      → (Strict post uid resource kind operation name namespace webhook_type_mutating
            (webhook_of_row row)
          → (seen : String) × Allowed post uid resource kind operation name namespace
              (webhook_of_row row)
              seen)
        × (Strict post uid resource kind operation name namespace webhook_type_validating
              (webhook_of_row row)
            → Allowed post uid resource kind operation name namespace (webhook_of_row row) r.object)
  unfolding review review_with list_webhooks
  review-Allowed object s r e no_error row m = elim (Bool-cases (s.fails s.executed)) [
    | inl fails ↦
        let same : review_with post uid resource kind operation name namespace object (err failed)
            ≡ r =
          cc (rw (fails, review) at e) in
        cc (ap (λ (x : Reviewed). x.error) same ∙ no_error)
    | inr works ↦
        let hooks = map webhook_of_row (order_by (λ r. r.1.created_at) s.admission_webhooks) in
        let same : r
            ≡ review_with post uid resource kind operation name namespace object (ok hooks) =
          cc (rw (works, review) at e) in
        rw same (
          review_with-Allowed post uid resource kind operation name namespace object hooks
            (rw same at no_error) (webhook_of_row row)
            (Member-map webhook_of_row row _ (Member-order_by (λ r. r.1.created_at) row _ m)))
  ]
