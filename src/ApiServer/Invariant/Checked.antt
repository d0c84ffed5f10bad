-- ===== src/ApiServer/Invariant/Checked.antt =====
-- mvp/cmd/apiserver/main.go: the handlers of access, webhooks and HorizontalPodAutoscalers check
-- what the invariant asks.
use kubernetes_style_orchest.Prelude.{
  ℕ, String, ◌==◌, string_eq, true, false, not, ◌||◌, ◌&&◌, Option, some, ◌≡◌, ◌⊎◌, refl,
  trim_prefix, strip_suffix, if◌then◌else◌, Bool-cases, inl, inr, arith, ==_iff,
}
use kubernetes_style_orchest.Api.{
  Role, RoleBinding, Hpa, HpaSpec, HpaStatus, AdmissionWebhook, User, webhook_type_mutating,
  webhook_type_validating,
}
use kubernetes_style_orchest.Prelude.Int.{pos, ltb_ℤ, ◌≤ℤ◌}
use kubernetes_style_orchest.Sql.{pure}
use kubernetes_style_orchest.Store.Access.{
  list_role_bindings, list_roles, list_users, upsert_role, upsert_role_binding, upsert_user,
}
use kubernetes_style_orchest.Store.Scaling.{
  delete_hpa, delete_webhook, get_hpa, list_hpas, list_webhooks, update_hpa_status, upsert_hpa,
  upsert_webhook,
}
use kubernetes_style_orchest.Store.Reading.{
  get_hpa-Reads, list_hpas-Reads, list_role_bindings-Reads, list_roles-Reads, list_users-Reads,
  list_webhooks-Reads,
}
use kubernetes_style_orchest.ApiServer.Handlers.Access.{
  handle_role_bindings, handle_roles, handle_users, store_role, store_role_binding, store_user,
}
use kubernetes_style_orchest.ApiServer.Handlers.Scaling.{
  handle_hpas, handle_hpas_by_name, handle_webhooks, handle_webhooks_by_name, store_hpa,
  store_webhook, with_minimum,
}
use kubernetes_style_orchest.ApiServer.Http.{HttpRequest, object}
use kubernetes_style_orchest.ApiServer.Invariant.{Keeps}
use kubernetes_style_orchest.ApiServer.Invariant.Elsewhere.{
  upsert_role-Keeps, upsert_role_binding-Keeps,
}
use kubernetes_style_orchest.ApiServer.Invariant.Scaled.{
  delete_hpa-Keeps, delete_webhook-Keeps, update_hpa_status-Keeps, upsert_hpa-Keeps,
  upsert_webhook-Keeps,
}
use kubernetes_style_orchest.ApiServer.Invariant.Stored.{upsert_user-Keeps}
use kubernetes_style_orchest.ApiServer.Invariant.Replies.{
  if-Keeps, reply_read_back-Keeps, reply_object-Keeps, reply_items-Keeps, reply_deleted-Keeps,
  after_write-Keeps, reply_updated-Keeps, with_body-Keeps, filled, get_or_post-Keeps, by_name-Keeps,
}

store_role-Keeps :
    (read : String → Option Role) (now : ℕ) (scope : String) (role : Role)
    → Keeps (store_role read now scope role)
unfolding store_role
store_role-Keeps read now scope role =
    if-Keeps (role.metadata.name == "") _ _ (λ s k. k)
      (after_write-Keeps
        (upsert_role now scope (record role { api_version = "rbac.mk.io/v1"; kind = scope }))
        (pure (object 201 (some (record role { api_version = "rbac.mk.io/v1"; kind = scope }))))
        (upsert_role-Keeps now scope (record role { api_version = "rbac.mk.io/v1"; kind = scope }))
        (λ s k. k))

pub handle_roles-Keeps :
    (read : String → Option Role) (now : ℕ) (scope : String) (r : HttpRequest)
    → Keeps (handle_roles read now scope r)
unfolding handle_roles
handle_roles-Keeps read now scope r =
    get_or_post-Keeps r _ _ (reply_items-Keeps (list_roles scope) (list_roles-Reads scope))
      (with_body-Keeps read r _ (store_role-Keeps read now scope))

store_role_binding-Keeps :
    (read : String → Option RoleBinding) (now : ℕ) (scope : String) (b : RoleBinding)
    → Keeps (store_role_binding read now scope b)
unfolding store_role_binding
store_role_binding-Keeps read now scope b =
    if-Keeps (b.metadata.name == "") _ _ (λ s k. k)
      (after_write-Keeps
        (upsert_role_binding now scope (record b { api_version = "rbac.mk.io/v1"; kind = scope }))
        (pure (object 201 (some (record b { api_version = "rbac.mk.io/v1"; kind = scope }))))
        (upsert_role_binding-Keeps now scope
          (record b { api_version = "rbac.mk.io/v1"; kind = scope }))
        (λ s k. k))

pub handle_role_bindings-Keeps :
    (read : String → Option RoleBinding) (now : ℕ) (scope : String) (r : HttpRequest)
    → Keeps (handle_role_bindings read now scope r)
unfolding handle_role_bindings
handle_role_bindings-Keeps read now scope r =
    get_or_post-Keeps r _ _
      (reply_items-Keeps (list_role_bindings scope) (list_role_bindings-Reads scope))
      (with_body-Keeps read r _ (store_role_binding-Keeps read now scope))

store_user-Keeps :
    (read : String → Option User) (now : ℕ) (u : User) → Keeps (store_user read now u)
unfolding store_user
store_user-Keeps read now u = elim (Bool-cases (u.metadata.name == "" || u.token == "")) [
  | inl e ↦ rw (e, store_user) (λ s k. k)
  | inr e ↦
      rw (e, store_user)
        (after_write-Keeps
          (upsert_user now (record u { api_version = "rbac.mk.io/v1"; kind = "User" }))
          (pure (object 201 (some (record u { api_version = "rbac.mk.io/v1"; kind = "User" }))))
          (upsert_user-Keeps now (record u { api_version = "rbac.mk.io/v1"; kind = "User" })
            (filled u.token (ground arith)))
          (λ s k. k))
]

pub handle_users-Keeps :
    (read : String → Option User) (now : ℕ) (r : HttpRequest) → Keeps (handle_users read now r)
unfolding handle_users
handle_users-Keeps read now r =
    get_or_post-Keeps r _ _ (reply_items-Keeps list_users list_users-Reads)
      (with_body-Keeps read r _ (store_user-Keeps read now))

known_type :
    (t : String)
    → ((not (t == webhook_type_mutating) && not (t == webhook_type_validating)) ≡ true)
      ⊎ (((not (t == webhook_type_mutating) && not (t == webhook_type_validating)) ≡ false)
          × ((t ≡ webhook_type_mutating) ⊎ (t ≡ webhook_type_validating)))
known_type t = elim (Bool-cases (t == webhook_type_mutating)) [
  | inl e ↦ inr (rw e refl, inl ((==_iff t webhook_type_mutating).0 e))
  | inr e ↦ elim (Bool-cases (t == webhook_type_validating)) [
    | inl f ↦ inr (rw (e, f) refl, inr ((==_iff t webhook_type_validating).0 f))
    | inr f ↦ inl (rw (e, f) refl)
  ]
]

store_webhook-Keeps :
    (read : String → Option AdmissionWebhook) (now : ℕ) (h : AdmissionWebhook)
    → Keeps (store_webhook read now h)
unfolding store_webhook
store_webhook-Keeps read now h =
    elim (Bool-cases (h.metadata.name == "" || h.url == "" || h.type == "")) [
      | inl e ↦ rw (e, store_webhook) (λ s k. k)
      | inr e ↦ elim (known_type h.type) [
        | inl f ↦ rw (e, f, store_webhook) (λ s k. k)
        | inr (f, known) ↦
            rw (e, f, store_webhook)
              (after_write-Keeps
                (upsert_webhook now
                  (record h { api_version = "admission.mk.io/v1"; kind = "AdmissionWebhook" }))
                (pure (
                  object 201 (
                    some (record h {
                      api_version = "admission.mk.io/v1";
                      kind = "AdmissionWebhook";
                      failure_policy = if h.failure_policy == "" then "Fail" else h.failure_policy;
                    }))))
                (upsert_webhook-Keeps now
                  (record h { api_version = "admission.mk.io/v1"; kind = "AdmissionWebhook" }) known
                  (filled h.url (ground arith)))
                (λ s k. k))
      ]
    ]

pub handle_webhooks-Keeps :
    (read : String → Option AdmissionWebhook) (now : ℕ) (r : HttpRequest)
    → Keeps (handle_webhooks read now r)
unfolding handle_webhooks
handle_webhooks-Keeps read now r =
    get_or_post-Keeps r _ _ (reply_items-Keeps list_webhooks list_webhooks-Reads)
      (with_body-Keeps read r _ (store_webhook-Keeps read now))

pub handle_webhooks_by_name-Keeps : (r : HttpRequest) → Keeps (handle_webhooks_by_name r)
unfolding handle_webhooks_by_name
handle_webhooks_by_name-Keeps r =
    let name = trim_prefix "/apis/admission.mk.io/v1/webhooks/" r.path in
    if-Keeps (name == "") _ _ (λ s k. k)
      (if-Keeps (r.method == "DELETE") _ _
        (reply_deleted-Keeps AdmissionWebhook name (delete_webhook name)
          (delete_webhook-Keeps name))
        (λ s k. k))

with_minimum-bounds :
    (spec : HpaSpec)
    → ltb_ℤ (with_minimum spec).max_replicas (with_minimum spec).min_replicas ≡ false
    → (pos 1 ≤ℤ (with_minimum spec).min_replicas)
      × ((with_minimum spec).min_replicas ≤ℤ (with_minimum spec).max_replicas)
unfolding with_minimum
with_minimum-bounds spec h = (ground arith, ground arith)

store_hpa-Keeps : (read : String → Option Hpa) (now : ℕ) (h : Hpa) → Keeps (store_hpa read now h)
unfolding store_hpa
store_hpa-Keeps read now h =
    elim (Bool-cases (h.metadata.name == "" || h.spec.scale_target_ref.name == "")) [
      | inl e ↦ rw (e, store_hpa) (λ s k. k)
      | inr e ↦
          elim (Bool-cases
            (ltb_ℤ (with_minimum h.spec).max_replicas (with_minimum h.spec).min_replicas)) [
              | inl f ↦ rw (e, f, store_hpa) (λ s k. k)
              | inr f ↦
                  let (lo, hi) = with_minimum-bounds h.spec f in
                  rw (e, f, store_hpa)
                    (after_write-Keeps
                      (upsert_hpa now (record h {
                        api_version = "autoscaling.mk.io/v1";
                        kind = "HorizontalPodAutoscaler";
                        spec = with_minimum h.spec;
                      }))
                      _
                      (upsert_hpa-Keeps now
                        (record h {
                          api_version = "autoscaling.mk.io/v1";
                          kind = "HorizontalPodAutoscaler";
                          spec = with_minimum h.spec;
                        })
                        lo hi)
                      (reply_read_back-Keeps 201 (get_hpa h.metadata.name)
                        (get_hpa-Reads h.metadata.name)))
            ]
    ]

pub handle_hpas-Keeps :
    (read : String → Option Hpa) (now : ℕ) (r : HttpRequest) → Keeps (handle_hpas read now r)
unfolding handle_hpas
handle_hpas-Keeps read now r =
    get_or_post-Keeps r _ _ (reply_items-Keeps list_hpas list_hpas-Reads)
      (with_body-Keeps read r _ (store_hpa-Keeps read now))

pub handle_hpas_by_name-Keeps :
    (read : String → Option HpaStatus) (now : ℕ) (r : HttpRequest)
    → Keeps (handle_hpas_by_name read now r)
unfolding handle_hpas_by_name
handle_hpas_by_name-Keeps read now r =
    let name = trim_prefix "/apis/autoscaling.mk.io/v1/horizontalpodautoscalers/" r.path in
    by_name-Keeps r (strip_suffix "/status" name) name _ _ _
      (λ n. with_body-Keeps read r _ (λ st.
        reply_updated-Keeps (update_hpa_status now n st) (get_hpa n)
          (update_hpa_status-Keeps now n st) (get_hpa-Reads n)))
      (reply_object-Keeps (get_hpa name) (get_hpa-Reads name))
      (reply_deleted-Keeps Hpa name (delete_hpa name) (delete_hpa-Keeps name))
