-- ===== src/ApiServer/Handlers/Pods/Created.antt =====
-- mvp/cmd/apiserver/main.go: which pods `createPod` stores.
use kubernetes_style_orchest.Prelude.{
  ℕ, String, ◌==◌, string_eq, ==_iff, Bool, false, Bool-cases, Option, none, some, Option-cases,
  List, [], ◌∷◌, ◌≡◌, ◌≢◌, ◌⊎◌, refl, sym, ap, ◌∙◌, inl, inr, false≢true, if◌then◌else◌, Member,
}
use kubernetes_style_orchest.Api.{Pod, AdmissionReviewRequest, webhook_type_validating}
use kubernetes_style_orchest.Db.{Db, WebhookRow}
use kubernetes_style_orchest.Sql.{
  M, Run, returns, raises, ok, result, after, proceed, attempt, ◌>>=◌, pure,
}
use kubernetes_style_orchest.Sql.Rows.{select}
use kubernetes_style_orchest.Sql.Reads.{Reads, Reads-attempt, Reads-bind, SameTables}
use kubernetes_style_orchest.Store.Pods.{upsert_pod, get_pod}
use kubernetes_style_orchest.Store.Pods.RoundTrip.{upserted, select-upsert_pod}
use kubernetes_style_orchest.Store.Scaling.{list_webhooks, webhook_of_row}
use kubernetes_style_orchest.Store.Reading.{list_webhooks-Reads, get_pod-Reads}
use kubernetes_style_orchest.Admission.{Answer, Reviewed, review}
use kubernetes_style_orchest.Admission.Sound.{Allowed, Strict}
use kubernetes_style_orchest.Admission.Stored.{review-Allowed}
use kubernetes_style_orchest.ApiServer.Http.{HttpRequest, Reply, error, reply_read_back}
use kubernetes_style_orchest.ApiServer.Http.Writing.{
  IsCreated, reply_read_back-Reads, after_write_created, with_body_created,
}
use kubernetes_style_orchest.ApiServer.Handlers.Pods.{
  stamped_pod, store_pod, after_review, create_decoded, create_pod_reply,
}

List-cases : {A : Type 0} (xs : List A) → (xs ≡ []) ⊎ ((x : A) × (ys : List A) × (xs ≡ x ∷ ys))
List-cases [] = inl refl
List-cases (x ∷ ys) = inr (x, ys, refl)

past_checks :
    {A C : Type 0} (b : Bool) (cs : List C) (d : C) (ds : List C) (m n k : A)
    → b ≡ false
    → cs ≡ d ∷ ds
    → (if b then n else elim cs [ [] ↦ k | _ ∷ _ ↦ m ]) ≡ m
past_checks b cs d ds m n k e f = rw (e, f) refl

review-Reads :
    (post : ℕ → String → AdmissionReviewRequest → Answer) (uid : ℕ → String)
    (resource kind operation name namespace sent : String)
    → Reads (review post uid resource kind operation name namespace sent)
unfolding review
review-Reads post uid resource kind operation name namespace sent =
    Reads-bind (attempt list_webhooks) _ (Reads-attempt list_webhooks list_webhooks-Reads)
      (λ h s. refl)

module _ (post : ℕ → String → AdmissionReviewRequest → Answer) (uid : ℕ → String)
    (marshal : Pod → String) (unmarshal : String → Option Pod) (now : ℕ) where
  -- The pod was written from `s`.
  abbrev Wrote : Pod → Db → Db → Type 0
  Wrote p s t = (result (upsert_pod now p s) ≡ ok tt) × (t.pods ≡ (after (upsert_pod now p s)).pods)

  store_pod_lem :
      (o : Option Pod) (s : Db)
      → IsCreated (store_pod post uid marshal unmarshal now o s)
      → (p : Pod) × (o ≡ some p) × Wrote p s (after (store_pod post uid marshal unmarshal now o s))
  unfolding store_pod
  store_pod_lem none s (out, h) = cc h
  store_pod_lem (some p) s h =
      let (done, same) =
        after_write_created (upsert_pod now p) (reply_read_back 201 (get_pod p.metadata.name)) s
          (reply_read_back-Reads 201 (get_pod p.metadata.name) (get_pod-Reads p.metadata.name)) h in
      (p, refl, (done, ap (λ (t : Db). t.pods) same))

  -- What a 201 says of the pod that was sent, the object that the pipeline returned and the pod that
  -- was written.
  abbrev pub Admitted : Pod → Reviewed → Pod → Db → Db → Type 0
  Admitted sent x p s t =
      (sent.metadata.name ≢ "")
      × (result (
            review post uid "pods" "Pod" "CREATE" sent.metadata.name sent.metadata.namespace
              (marshal (stamped_pod sent)) s)
          ≡ ok x)
      × (x.error ≡ none)
      × (unmarshal x.object ≡ some p)
      × ((k : String)
          → select k t.pods ≡ (
              if p.metadata.name == k
              then some (upserted now p (select p.metadata.name s.pods))
              else select k s.pods))

  reviewed_lem :
      (x : Reviewed) (s : Db)
      → IsCreated (after_review post uid marshal unmarshal now x s)
      → (p : Pod) × (x.error ≡ none)
        × (unmarshal x.object ≡ some p)
        × Wrote p s (after (after_review post uid marshal unmarshal now x s))
  unfolding after_review
  reviewed_lem x s h = elim (Option-cases x.error) [
    | inl e ↦
        let (p, f, wrote) = store_pod_lem (unmarshal x.object) s (rw (e, after_review) at h) in
        (p, e, f, rw (e, after_review) wrote)
    | inr (cause, e) ↦ cc (rw (e, after_review) at h).1
  ]

  -- The rows after a write from tables that are those of `s`.
  rows_after :
      (p : Pod) (s t u : Db)
      → t.pods ≡ s.pods
      → Wrote p t u
      → (k : String)
      → select k u.pods ≡ (
          if p.metadata.name == k
          then some (upserted now p (select p.metadata.name s.pods))
          else select k s.pods)
  rows_after p s t u same (done, rows) k = rw (rows, sym same) (select-upsert_pod now p t done k)

  after_run :
      (sent : Pod) (s : Db) (y : Run Reviewed)
      → SameTables s (after y)
      → IsCreated (proceed (after_review post uid marshal unmarshal now) y)
      → (x : Reviewed) × (p : Pod) × (result y ≡ ok x)
        × (x.error ≡ none)
        × (unmarshal x.object ≡ some p)
        × ((k : String)
            → select k (after (proceed (after_review post uid marshal unmarshal now) y)).pods ≡ (
                if p.metadata.name == k
                then some (upserted now p (select p.metadata.name s.pods))
                else select k s.pods))
  after_run sent s (raises e t) same h = cc h.1
  after_run sent s (returns x t) same h =
      let (p, e, f, wrote) = reviewed_lem x t h in
      (
        x,
        p,
        refl,
        e,
        f,
        rows_after p s t (after (after_review post uid marshal unmarshal now x t))
            (ap (λ (z : Db). z.pods) same) wrote,
      )

  abbrev reviewing : Pod → M (Reply Pod)
  reviewing sent =
      review post uid "pods" "Pod" "CREATE" sent.metadata.name sent.metadata.namespace
        (marshal (stamped_pod sent))
      >>= after_review post uid marshal unmarshal now

  decoded_lem :
      (sent : Pod) (s : Db)
      → IsCreated (create_decoded post uid marshal unmarshal now sent s)
      → (x : Reviewed) × (p : Pod) × Admitted sent x p s
          (after (create_decoded post uid marshal unmarshal now sent s))
  unfolding create_decoded
  decoded_lem sent s h = elim (Bool-cases (sent.metadata.name == "")) [
    | inl e ↦ cc (rw (e, create_decoded) at h).1
    | inr e ↦ elim (List-cases sent.spec.containers) [
      | inl f ↦ cc (rw (e, f, create_decoded) at h).1
      | inr (c, cs, f) ↦
          let run : create_decoded post uid marshal unmarshal now sent s ≡ reviewing sent s =
            ap (λ (m : M (Reply Pod)). m s)
              (past_checks (sent.metadata.name == "") sent.spec.containers c cs (reviewing sent)
                (pure (error 400)) (pure (error 400)) e f) in
          let (x, p, ran, clean, decoded, rows) =
            after_run sent s
              (review post uid "pods" "Pod" "CREATE" sent.metadata.name sent.metadata.namespace
                (marshal (stamped_pod sent)) s)
              (review-Reads post uid "pods" "Pod" "CREATE" sent.metadata.name
                sent.metadata.namespace (marshal (stamped_pod sent)) s)
              (rw run at h) in
          (
            x,
            p,
            (
              (λ empty. false≢true (sym e ∙ (==_iff sent.metadata.name "").1 empty)),
              ran,
              clean,
              decoded,
              rw run rows,
            ),
          )
    ]
  ]

  -- If createPod answers 201, the body decodes to a pod with a name, the pipeline let it pass, and
  -- every stored validating webhook that handles pods and whose failures are not ignored allowed the
  -- object that the stored pod is decoded from; only the row of that pod changed.
  pub create_pod-Admitted :
      (r : HttpRequest) (s : Db)
      → IsCreated (create_pod_reply post uid marshal unmarshal now r s)
      → (text : String) × (sent : Pod) × (x : Reviewed) × (p : Pod) × (r.body ≡ some text)
        × (unmarshal text ≡ some sent)
        × Admitted sent x p s (after (create_pod_reply post uid marshal unmarshal now r s))
        × ((row : String × WebhookRow)
            → Member row s.admission_webhooks
            → Strict post uid "pods" "Pod" "CREATE" sent.metadata.name sent.metadata.namespace
                webhook_type_validating
                (webhook_of_row row)
            → Allowed post uid "pods" "Pod" "CREATE" sent.metadata.name sent.metadata.namespace
                (webhook_of_row row)
                x.object)
  unfolding create_pod_reply
  create_pod-Admitted r s h =
      let (text, sent, body, decoded, run) =
        with_body_created unmarshal r (create_decoded post uid marshal unmarshal now) s h in
      let (x, p, (named, passed, clean, final, rows)) = decoded_lem sent s (rw run at h) in
      (
        text,
        sent,
        x,
        p,
        body,
        decoded,
        (named, passed, clean, final, rw run rows),
        (λ row m.
            (review-Allowed post uid "pods" "Pod" "CREATE" sent.metadata.name
              sent.metadata.namespace (marshal (stamped_pod sent)) s x passed clean row m).1),
      )
