-- ===== src/ApiServer/Handlers/Deployments.antt =====
-- mvp/cmd/apiserver/main.go: Deployments. `unmarshal_into text d` stands for
-- `json.Unmarshal(text, &d)`: what the text leaves out stays as it is in `d`.
use kubernetes_style_orchest.Prelude.{
  ℕ, String, ◌==◌, string_eq, Option, none, some, [], ◌∷◌, trim_prefix, strip_suffix, if◌then◌else◌,
}
use kubernetes_style_orchest.Prelude.Int.{pos, ltb_ℤ}
use kubernetes_style_orchest.Api.{Deployment, DeploymentStatus, AdmissionReviewRequest}
use kubernetes_style_orchest.Sql.{M, ◌>>=◌, pure}
use kubernetes_style_orchest.Store.Workloads.{
  list_deployments, upsert_deployment, get_deployment, update_deployment_status, delete_deployment,
}
use kubernetes_style_orchest.Admission.{Answer, Reviewed, review}
use kubernetes_style_orchest.ApiServer.Http.{
  HttpRequest, Reply, error, reply_items, reply_object, reply_deleted, reply_read_back, after_write,
  reply_updated, with_body, get_or_post, get_or_delete, put_or_patch,
}

-- `var d api.Deployment`
abbrev pub zero_deployment : Deployment
zero_deployment = record {
  api_version = "";
  kind = "";
  metadata = record { name = ""; namespace = ""; labels = [] };
  spec = record {
    replicas = pos 0;
    selector = [];
    template = record {
      metadata = record { name = ""; namespace = ""; labels = [] };
      spec = record { containers = [] };
    };
    strategy = "";
  };
  status = record { replicas = pos 0; ready_replicas = pos 0; last_updated = 0 };
}

unfoldable pub stamped_deployment : Deployment → Deployment
stamped_deployment d = record d { api_version = "apps/v1"; kind = "Deployment" }

module _ (post : ℕ → String → AdmissionReviewRequest → Answer) (uid : ℕ → String)
    (marshal : Deployment → String) (unmarshal_into : String → Deployment → Option Deployment)
    (now : ℕ) where
  unfoldable pub store_deployment : Option Deployment → M (Reply Deployment)
  unfolding after_write upsert_deployment reply_read_back get_deployment
  store_deployment none = pure (error 500)
  store_deployment (some d) =
      after_write (upsert_deployment now d) (reply_read_back 201 (get_deployment d.metadata.name))

  -- The object of the pipeline is decoded over the deployment that was sent to it.
  unfoldable pub deployment_after_review : Deployment → Reviewed → M (Reply Deployment)
  unfolding store_deployment
  deployment_after_review d r = elim r.error [
    | some cause ↦ pure (error 400)
    | none ↦ store_deployment (unmarshal_into r.object d)
  ]

  unfoldable pub create_deployment : Deployment → M (Reply Deployment)
  unfolding stamped_deployment review deployment_after_review
  create_deployment d =
      if d.metadata.name == ""
      then pure (error 400)
      else if ltb_ℤ d.spec.replicas (pos 0)
      then pure (error 400)
      else elim d.spec.template.spec.containers [
        | [] ↦ pure (error 400)
        | _ ∷ _ ↦
            review post uid "deployments" "Deployment" "CREATE" d.metadata.name d.metadata.namespace
              (marshal (stamped_deployment d))
            >>= deployment_after_review (stamped_deployment d)
      ]

  unfoldable pub handle_deployments : HttpRequest → M (Reply Deployment)
  unfolding reply_items list_deployments with_body create_deployment
  handle_deployments r =
      get_or_post r (reply_items list_deployments)
        (with_body (λ text. unmarshal_into text zero_deployment) r create_deployment)

module _ (read_status : String → Option DeploymentStatus) (now : ℕ) where
  unfoldable pub handle_deployments_by_name : HttpRequest → M (Reply Deployment)
  unfolding trim_prefix strip_suffix with_body reply_updated update_deployment_status get_deployment
      reply_object reply_deleted delete_deployment
  handle_deployments_by_name r =
      let name = trim_prefix "/apis/apps/v1/deployments/" r.path in
      elim (strip_suffix "/status" name) [
        | some n ↦ put_or_patch r (
            with_body read_status r
              λ st. reply_updated (update_deployment_status now n st) (get_deployment n))
        | none ↦
            get_or_delete r name (reply_object (get_deployment name))
              (reply_deleted name (delete_deployment name))
      ]
