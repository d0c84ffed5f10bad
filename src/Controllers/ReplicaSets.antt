-- ===== src/Controllers/ReplicaSets.antt =====
-- mvp/internal/controllers/replicaset.go: the ReplicaSet controller. `draw i` is what the i-th call
-- of `randSuffix(5)` returns. `none` is a run-time panic.
pub mod Names
pub mod Scaling
pub mod Convergence
use kubernetes_style_orchest.Prelude.{
  ℕ, zero, suc, ◌+◌, ◌-◌, String, ◌==◌, string_eq, Bool, true, false, not, Option, none, some, List,
  [], ◌∷◌, StringMap, lookup, insert, value_at, keep, drop, length, leb, concat, if◌then◌else◌,
}
use kubernetes_style_orchest.Prelude.Int.{ℤ, pos, negsuc, ltb_ℤ, pos_part}
use kubernetes_style_orchest.Api.{Pod, ReplicaSet, phase_failed, phase_running}
use kubernetes_style_orchest.Controllers.Client.{PodClient}

abbrev pub label_replica_set : String
label_replica_set = "mk.replicaset"

unfoldable pub owns : String → StringMap String → Bool
owns rs [] = false
owns rs (l ∷ ls) = value_at (l ∷ ls) label_replica_set == rs

unfoldable pub owned_pods : String → List Pod → List Pod
unfolding owns
owned_pods rs pods = keep (λ p. owns rs p.metadata.labels) pods

-- The owned pods that have not failed.
unfoldable pub alive_pods : String → List Pod → List Pod
unfolding owned_pods
alive_pods rs pods = keep (λ p. not (p.status.phase == phase_failed)) (owned_pods rs pods)

-- `for k, v := range rs.Metadata.Labels { if _, ok := labels[k]; !ok { labels[k] = v } }`
unfoldable pub add_missing : StringMap String → StringMap String → StringMap String
add_missing [] labels = labels
add_missing ((k, v) ∷ more) labels =
    add_missing more (elim (lookup k labels) [ none ↦ insert k v labels | some _ ↦ labels ])

abbrev pub pod_name : ReplicaSet → String → String
pod_name rs suffix = concat rs.metadata.name (concat "-" suffix)

unfoldable pub build_pod_from_template : ReplicaSet → String → Pod
unfolding add_missing
build_pod_from_template rs suffix = record {
  api_version = "v1";
  kind = "Pod";
  metadata = record {
    name = pod_name rs suffix;
    namespace = rs.metadata.namespace;
    labels =
        insert label_replica_set rs.metadata.name
          (add_missing rs.metadata.labels rs.spec.template.metadata.labels);
  };
  spec = rs.spec.template.spec;
  status = record {
    phase = "";
    node_name = "";
    container_id = "";
    message = "";
    pod_ip = "";
    host_port = pos 0;
    last_updated = 0;
  };
}

-- `xs[n:]`, which panics where `n` is negative or past the end
unfoldable pub slice_from {ℓ} : {A : Type ℓ} → ℤ → List A → Option (List A)
slice_from (pos n) xs = if leb n (length xs) then some (drop n xs) else none
slice_from (negsuc n) xs = none

module _ (c : PodClient) where
  open c use {State, create_pod, delete_pod, update_replica_set_status}

  -- The loop that creates the missing pods; an error makes it go on with the next.
  unfoldable pub create_missing : ReplicaSet → (ℕ → String) → ℕ → State → State
  unfolding build_pod_from_template
  create_missing rs draw zero s = s
  create_missing rs draw (suc k) s =
      create_missing rs (λ i. draw (suc i)) k (create_pod (build_pod_from_template rs (draw 0)) s).1

  -- The loop that deletes the extra pods; an error makes it go on with the next.
  unfoldable pub delete_extra : List Pod → State → State
  delete_extra [] s = s
  delete_extra (p ∷ victims) s = delete_extra victims (delete_pod p.metadata.name s).1

  unfoldable pub scale : ReplicaSet → List Pod → (ℕ → String) → State → Option State
  unfolding create_missing delete_extra slice_from
  scale rs alive draw s =
      let desired = rs.spec.replicas in
      let actual = pos (length alive) in
      if ltb_ℤ actual desired
      then some (create_missing rs draw (pos_part desired - length alive) s)
      else if ltb_ℤ desired actual
      then elim (slice_from desired alive) [
        | none ↦ none
        | some victims ↦ some (delete_extra victims s)
      ]
      else some s

  unfoldable pub reconcile_one : ReplicaSet → List Pod → (ℕ → String) → State → Option State
  unfolding alive_pods scale
  reconcile_one rs all_pods draw s =
      let alive = alive_pods rs.metadata.name all_pods in
      elim (scale rs alive draw s) [
        | none ↦ none
        | some s' ↦
            some
              (update_replica_set_status rs.metadata.name
                (record {
                  replicas = pos (length alive);
                  ready_replicas = pos (length (keep (λ p. p.status.phase == phase_running) alive));
                  last_updated = 0;
                })
                s').1
      ]
