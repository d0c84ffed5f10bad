-- ===== src/ApiServer/Invariant/Scaled.antt =====
-- mvp/internal/store/store.go: the methods that write HorizontalPodAutoscalers and admission
-- webhooks keep the invariant, if what they are given is as the invariant asks.
use kubernetes_style_orchest.Prelude.{ℕ, String, string_eq, ◌≡◌, ◌≢◌, ◌⊎◌, refl, arith}
use kubernetes_style_orchest.Prelude.Int.{pos, ◌≤ℤ◌}
use kubernetes_style_orchest.Api.{
  Hpa, HpaSpec, HpaStatus, AdmissionWebhook, webhook_type_mutating, webhook_type_validating,
}
use kubernetes_style_orchest.Db.{ObjectRow, WebhookRow}
use kubernetes_style_orchest.Sql.{
  attempt, require_row, insert_or_update, update_where, delete_where,
}
use kubernetes_style_orchest.Sql.Reads.{Reads-attempt}
use kubernetes_style_orchest.Sql.Everywhere.{
  insert_or_update-Everywhere, update_where-Everywhere, delete_where-Everywhere,
}
use kubernetes_style_orchest.Store.Tables.{hpas, admission_webhooks}
use kubernetes_style_orchest.Store.Scaling.{
  get_hpa, upsert_hpa, update_hpa_status, delete_hpa, upsert_webhook, delete_webhook,
}
use kubernetes_style_orchest.Store.Reading.{get_hpa-Reads}
use kubernetes_style_orchest.ApiServer.Invariant.{
  IsBounded, HasIp, HasToken, IsHook, IsServed, Keeps,
}
use kubernetes_style_orchest.ApiServer.Invariant.Keeping.{
  Reads-Keeps, bind-Keeps, require_row-Keeps, each-Keeps, still,
}

insert_hpa-Keeps :
    (name : String) (row : ObjectRow HpaSpec HpaStatus)
    (f : ObjectRow HpaSpec HpaStatus → ObjectRow HpaSpec HpaStatus)
    → IsBounded row
    → ((r : ObjectRow HpaSpec HpaStatus) → IsBounded r → IsBounded (f r))
    → Keeps (insert_or_update hpas name row f)
unfolding insert_or_update
insert_hpa-Keeps name row f q g =
    each-Keeps (insert_or_update hpas name row f)
      (insert_or_update-Everywhere IsBounded hpas ((λ x s. refl), (λ n s. refl)) name row f q g)
      (λ s. still HasIp s.services _ (ground arith)) (λ s. still HasToken s.users _ (ground arith))
      (λ s. still IsHook s.admission_webhooks _ (ground arith))
      (λ s. still IsServed s.crds _ (ground arith))

pub upsert_hpa-Keeps :
    (now : ℕ) (h : Hpa)
    → pos 1 ≤ℤ h.spec.min_replicas
    → h.spec.min_replicas ≤ℤ h.spec.max_replicas
    → Keeps (upsert_hpa now h)
unfolding upsert_hpa
upsert_hpa-Keeps now h lo hi =
    bind-Keeps (attempt (get_hpa h.metadata.name)) _
      (Reads-Keeps (attempt (get_hpa h.metadata.name))
        (Reads-attempt (get_hpa h.metadata.name) (get_hpa-Reads h.metadata.name)))
      (λ existing. insert_hpa-Keeps h.metadata.name _ _ (lo, hi) (λ r q. (lo, hi)))

change_hpa-Keeps :
    (name : String) (f : ObjectRow HpaSpec HpaStatus → ObjectRow HpaSpec HpaStatus)
    → ((r : ObjectRow HpaSpec HpaStatus) → IsBounded r → IsBounded (f r))
    → Keeps (update_where hpas name f)
unfolding update_where
change_hpa-Keeps name f g =
    each-Keeps (update_where hpas name f)
      (update_where-Everywhere IsBounded hpas ((λ x s. refl), (λ n s. refl)) name f g)
      (λ s. still HasIp s.services _ (ground arith)) (λ s. still HasToken s.users _ (ground arith))
      (λ s. still IsHook s.admission_webhooks _ (ground arith))
      (λ s. still IsServed s.crds _ (ground arith))

pub update_hpa_status-Keeps :
    (now : ℕ) (name : String) (st : HpaStatus) → Keeps (update_hpa_status now name st)
unfolding update_hpa_status
update_hpa_status-Keeps now name st =
    let f : ObjectRow HpaSpec HpaStatus → ObjectRow HpaSpec HpaStatus =
      λ r. record r { status = record st { last_updated = now }; last_updated = now } in
    bind-Keeps (update_where hpas name f) require_row (change_hpa-Keeps name f (λ r q. q))
      require_row-Keeps

remove_hpa-Keeps : (name : String) → Keeps (delete_where hpas name)
unfolding delete_where
remove_hpa-Keeps name =
    each-Keeps (delete_where hpas name)
      (delete_where-Everywhere IsBounded hpas ((λ x s. refl), (λ n s. refl)) name)
      (λ s. still HasIp s.services _ (ground arith)) (λ s. still HasToken s.users _ (ground arith))
      (λ s. still IsHook s.admission_webhooks _ (ground arith))
      (λ s. still IsServed s.crds _ (ground arith))

pub delete_hpa-Keeps : (name : String) → Keeps (delete_hpa name)
unfolding delete_hpa
delete_hpa-Keeps name =
    bind-Keeps (delete_where hpas name) require_row (remove_hpa-Keeps name) require_row-Keeps

insert_webhook-Keeps :
    (name : String) (row : WebhookRow) (f : WebhookRow → WebhookRow)
    → IsHook row
    → ((r : WebhookRow) → IsHook r → IsHook (f r))
    → Keeps (insert_or_update admission_webhooks name row f)
unfolding insert_or_update
insert_webhook-Keeps name row f q g =
    each-Keeps (insert_or_update admission_webhooks name row f)
      (λ s. still IsBounded s.hpas _ (ground arith)) (λ s. still HasIp s.services _ (ground arith))
      (λ s. still HasToken s.users _ (ground arith))
      (insert_or_update-Everywhere IsHook admission_webhooks ((λ x s. refl), (λ n s. refl)) name row
        f q g)
      (λ s. still IsServed s.crds _ (ground arith))

pub upsert_webhook-Keeps :
    (now : ℕ) (w : AdmissionWebhook)
    → (w.type ≡ webhook_type_mutating) ⊎ (w.type ≡ webhook_type_validating)
    → w.url ≢ ""
    → Keeps (upsert_webhook now w)
unfolding upsert_webhook
upsert_webhook-Keeps now w type url =
    insert_webhook-Keeps w.metadata.name _ _ (type, url) (λ r q. (type, url))

remove_webhook-Keeps : (name : String) → Keeps (delete_where admission_webhooks name)
unfolding delete_where
remove_webhook-Keeps name =
    each-Keeps (delete_where admission_webhooks name) (λ s. still IsBounded s.hpas _ (ground arith))
      (λ s. still HasIp s.services _ (ground arith)) (λ s. still HasToken s.users _ (ground arith))
      (delete_where-Everywhere IsHook admission_webhooks ((λ x s. refl), (λ n s. refl)) name)
      (λ s. still IsServed s.crds _ (ground arith))

pub delete_webhook-Keeps : (name : String) → Keeps (delete_webhook name)
unfolding delete_webhook
delete_webhook-Keeps name =
    bind-Keeps (delete_where admission_webhooks name) require_row (remove_webhook-Keeps name)
      require_row-Keeps
