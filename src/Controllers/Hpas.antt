-- ===== src/Controllers/Hpas.antt =====
-- mvp/internal/hpa/hpa.go: the HorizontalPodAutoscaler. Go's floating-point arithmetic is not part of
-- the repository and enters as `Floats`; the calls of the client enter as functions, of which `none`
-- and `false` are errors.
pub mod Bounds
use kubernetes_style_orchest.Prelude.{
  ℕ, zero, suc, ◌+◌, ◌-◌, ◌*◌, String, ◌==◌, string_eq, int_eq, nat_eq, Bool, true, false, not,
  ◌&&◌, ◌||◌, Option, none, some, List, [], ◌∷◌, StringMap, lookup, insert, keep, find_first,
  concat, ltb, if◌then◌else◌,
}
use kubernetes_style_orchest.Prelude.Int.{ℤ, pos, ltb_ℤ}
use kubernetes_style_orchest.Api.{Pod, Deployment, Hpa, HpaStatus}
use kubernetes_style_orchest.Controllers.ReplicaSets.{owned_pods}

-- `float64`: zero, addition, division by a count, the tests `> 0` and `== 0`, `int(x)`, and
-- `int(math.Ceil(float64(current) * (avg / float64(target))))`.
pub record Floats : Type 1 where
  pub F : Type 0
  pub nought : F
  pub plus : F → F → F
  pub over : F → ℕ → F
  pub is_positive : F → Bool
  pub is_nought : F → Bool
  pub to_int : F → ℤ
  pub scaled : ℤ → F → ℤ → ℤ

abbrev pub second : ℕ
second = 1000000000

module _ (fl : Floats) where
  open fl use {F, nought, plus, over, is_positive, is_nought, to_int, scaled}

  pub record PodMetric : Type 0 where
    pub pod_name : String
    pub cpu_pct : F

  -- `byName`: the last metric of a name wins.
  unfoldable pub by_name : List PodMetric → StringMap F → StringMap F
  by_name [] m = m
  by_name (q ∷ metrics) m = by_name metrics (insert q.pod_name q.cpu_pct m)

  -- The loop that sums and counts.
  unfoldable pub total : StringMap F → List Pod → F → ℕ → F × ℕ
  total m [] sum n = (sum, n)
  total m (p ∷ pods) sum n = elim (lookup p.metadata.name m) [
    | none ↦ total m pods sum n
    | some v ↦ total m pods (plus sum v) (suc n)
  ]

  unfoldable pub mean : F × ℕ → F
  mean (sum, n) = if n == 0 then nought else over sum n

  unfoldable pub average_cpu : List Pod → List PodMetric → F
  unfolding by_name total mean
  average_cpu [] metrics = nought
  average_cpu (p ∷ pods) metrics = mean (total (by_name metrics []) (p ∷ pods) nought 0)

  unfoldable pub target_of : Hpa → ℤ
  target_of h =
      let t = h.spec.metric.target_average_value in if not (ltb_ℤ (pos 0) t) then pos 50 else t

  -- The wanted number before it is clamped.
  unfoldable pub wanted : Hpa → ℤ → F → ℤ
  unfolding target_of
  wanted h current avg =
      if ltb_ℤ (pos 0) current && is_positive avg
      then scaled current avg (target_of h)
      else if is_nought avg && ltb_ℤ h.spec.min_replicas current
      then h.spec.min_replicas
      else current

  unfoldable pub clamp : ℤ → ℤ → ℤ → ℤ
  clamp lo hi n =
      let raised = if ltb_ℤ n lo then lo else n in if ltb_ℤ hi raised then hi else raised

  unfoldable pub desired_replicas : Hpa → ℤ → F → ℤ
  unfolding wanted clamp
  desired_replicas h current avg =
      clamp h.spec.min_replicas h.spec.max_replicas (wanted h current avg)

  -- A scale-down that comes too early after the last scaling.
  unfoldable pub cooling : ℕ → ℕ → Hpa → ℤ → ℤ → Bool
  cooling cooldown now h desired current =
      ltb_ℤ desired current
      && not (h.status.last_scale_time == 0)
      && ltb (now - h.status.last_scale_time) cooldown

  -- What `reconcileOne` does once the Deployment and the pods are read: the number that it posts, if it
  -- posts one, and the status that it writes. `works` says whether the post worked.
  unfoldable pub scale_step : ℕ → ℕ → Hpa → ℤ → F → Bool → Option ℤ × HpaStatus
  unfolding desired_replicas cooling
  scale_step cooldown now h current avg works =
      let desired = desired_replicas h current avg in
      let status : HpaStatus = record {
        current_replicas = current;
        desired_replicas = desired;
        current_average_value = to_int avg;
        last_scale_time = h.status.last_scale_time;
        last_updated = 0;
      } in
      if desired == current
      then (none, status)
      else if cooling cooldown now h desired current
      then (none, status)
      else (
        some desired,
        if works
            then record status { last_scale_time = now; current_replicas = desired }
            else status,
      )

  -- `reconcileOne`, with the Deployments and pods as they are listed; `none` where it returns early.
  unfoldable pub reconcile_one :
      ℕ
      → ℕ
      → Hpa
      → Option (List Deployment)
      → Option (List Pod)
      → List PodMetric
      → Bool
      → Option (Option ℤ × HpaStatus)
  unfolding scale_step average_cpu owned_pods
  reconcile_one cooldown now h deployments pods metrics works =
      if not (h.spec.scale_target_ref.kind == "Deployment") then none else elim deployments [
        | none ↦ none
        | some ds ↦ elim (find_first (λ d. d.metadata.name == h.spec.scale_target_ref.name) ds) [
          | none ↦ none
          | some dep ↦ elim pods [
            | none ↦ none
            | some ps ↦ some (
                scale_step cooldown now h dep.spec.replicas
                  (average_cpu (owned_pods (concat dep.metadata.name "-rs") ps) metrics) works)
          ]
        ]
      ]
