-- ===== src/Federation.antt =====
-- mvp/internal/federation/federation.go: the federation controller. `push server d s` stands for the
-- member cluster's client posting a Deployment: whether it worked, and the state afterwards.
pub mod Recipients
use kubernetes_style_orchest.Prelude.{
  ℕ, suc, String, ◌==◌, string_eq, Bool, true, false, not, List, [], ◌∷◌, StringMap, insert, keep,
  any, length, if◌then◌else◌,
}
use kubernetes_style_orchest.Prelude.Int.{pos}
use kubernetes_style_orchest.Api.{
  Cluster, FederatedDeployment, FederatedDeploymentStatus, Deployment,
}

unfoldable pub select_clusters : FederatedDeployment → List Cluster → List Cluster
select_clusters fd all_clusters = select_named fd.spec.clusters
  where
    select_named : List String → List Cluster
    select_named [] = all_clusters
    select_named (n ∷ names) = keep (λ c. any (λ m. m == c.metadata.name) (n ∷ names)) all_clusters

unfoldable pub merge_labels : StringMap String → StringMap String → StringMap String
merge_labels a [] = a
merge_labels a ((k, v) ∷ b) = merge_labels (insert k v a) b

-- The Deployment that a member cluster is sent.
unfoldable pub deployment_for : FederatedDeployment → Cluster → Deployment
unfolding merge_labels
deployment_for fd cl = record {
  api_version = "apps/v1";
  kind = "Deployment";
  metadata = record {
    name = fd.metadata.name;
    namespace = fd.metadata.namespace;
    labels = merge_labels fd.metadata.labels (
        ("federation.mk.io/federated-deployment", fd.metadata.name)
        ∷ ("federation.mk.io/cluster", cl.metadata.name)
        ∷ []);
  };
  spec = fd.spec.template;
  status = record { replicas = pos 0; ready_replicas = pos 0; last_updated = 0 };
}

module _ {State : Type 0} (push : String → Deployment → State → Bool × State) where
  -- The count after a push.
  abbrev count_push : ℕ → Bool → ℕ
  count_push ready true = suc ready
  count_push ready false = ready

  -- The loop over the targets, with the number of pushes that worked.
  unfoldable pub push_each : FederatedDeployment → List Cluster → ℕ → State → ℕ × State
  unfolding deployment_for
  push_each fd [] ready s = (ready, s)
  push_each fd (cl ∷ targets) ready s = elim cl.status.ready [
    | false ↦ push_each fd targets ready s
    | true ↦
        let pushed = push cl.spec.server (deployment_for fd cl) s in
        push_each fd targets (count_push ready pushed.0) pushed.1
  ]

  -- One turn of the loop over the FederatedDeployments: the status that it writes, and the state.
  unfoldable pub reconcile_one :
      FederatedDeployment → List Cluster → State → FederatedDeploymentStatus × State
  unfolding select_clusters push_each
  reconcile_one fd clusters s =
      let targets = select_clusters fd clusters in
      let pushed = push_each fd targets 0 s in
      (
        record {
          cluster_count = pos (length targets);
          ready_count = pos pushed.0;
          last_updated = 0;
        },
        pushed.1,
      )
