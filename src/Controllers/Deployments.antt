-- ===== src/Controllers/Deployments.antt =====
-- mvp/internal/controllers/deployment.go: the Deployment controller, which keeps one ReplicaSet to a
-- Deployment. The client's calls are an interface; `none` and `false` are errors.
pub mod Desired
use kubernetes_style_orchest.Prelude.{
  String, ◌==◌, string_eq, int_eq, Bool, true, false, not, Option, none, some, List, [], ◌∷◌,
  insert, concat, if◌then◌else◌,
}
use kubernetes_style_orchest.Api.{Deployment, DeploymentStatus, ReplicaSet}
use kubernetes_style_orchest.Prelude.Int.{pos}

abbrev pub label_deployment : String
label_deployment = "mk.deployment"

pub record DeploymentClient : Type 1 where
  pub State : Type 0
  pub get_replica_set : String → State → Option ReplicaSet
  pub create_replica_set : ReplicaSet → State → Bool × State
  pub update_deployment_status : String → DeploymentStatus → State → Bool × State

abbrev pub rs_name : Deployment → String
rs_name d = concat d.metadata.name "-rs"

-- The ReplicaSet that `reconcileOne` puts together.
unfoldable pub replica_set_for : Deployment → ReplicaSet
replica_set_for d = record {
  api_version = "apps/v1";
  kind = "ReplicaSet";
  metadata = record {
    name = rs_name d;
    namespace = d.metadata.namespace;
    labels = insert label_deployment d.metadata.name d.metadata.labels;
  };
  spec = record {
    replicas = d.spec.replicas;
    selector = d.spec.selector;
    template = record {
      metadata = record {
        name = "";
        namespace = "";
        labels = insert label_deployment d.metadata.name d.spec.template.metadata.labels;
      };
      spec = d.spec.template.spec;
    };
  };
  status = record { replicas = pos 0; ready_replicas = pos 0; last_updated = 0 };
}

module _ (c : DeploymentClient) where
  open c use {State, get_replica_set, create_replica_set, update_deployment_status}

  -- Whether the ReplicaSet is posted: it could not be read, or has another number of replicas.
  unfoldable pub must_post : Deployment → Option ReplicaSet → Bool
  must_post d none = true
  must_post d (some existing) = not (existing.spec.replicas == d.spec.replicas)

  -- The part of `reconcileOne` that copies the status.
  unfoldable pub propagate : Deployment → State → State
  propagate d s = elim (get_replica_set (rs_name d) s) [
    | none ↦ s
    | some cur ↦
        (update_deployment_status d.metadata.name
          (record {
            replicas = cur.status.replicas;
            ready_replicas = cur.status.ready_replicas;
            last_updated = 0;
          })
          s).1
  ]

  -- The rest of `reconcileOne` after the ReplicaSet was posted; an error ends it.
  unfoldable pub after_post : Deployment → Bool × State → State
  unfolding propagate
  after_post d (true, s) = propagate d s
  after_post d (false, s) = s

  unfoldable pub reconcile_one : Deployment → State → State
  unfolding replica_set_for must_post after_post
  reconcile_one d s =
      if must_post d (get_replica_set (rs_name d) s)
      then after_post d (create_replica_set (replica_set_for d) s)
      else propagate d s

  -- The loop of `reconcileAll` over the Deployments.
  unfoldable pub reconcile_each : List Deployment → State → State
  unfolding reconcile_one
  reconcile_each [] s = s
  reconcile_each (d ∷ ds) s = reconcile_each ds (reconcile_one d s)
