-- ===== src/Controllers/ReplicaSets/Convergence.antt =====
-- mvp/internal/controllers/replicaset.go: what one run of `reconcileOne` achieves.
use native.Mathlib.Decide.{dec_lt}
use kubernetes_style_orchest.Prelude.{
  ℕ, ◌-◌, ◌≤◌, String, ◌==◌, string_eq, List, keep, ◌≡◌, ◌≢◌, [], ap, ◌∙◌, sym, arith, inl, inr,
  ◌↔◌, length, take, drop, take-append-drop, length-take, none, some,
}
use kubernetes_style_orchest.Prelude.Int.{pos, ◌<ℤ◌, Int-cases}
use kubernetes_style_orchest.Api.{Pod, ReplicaSet, phase_running}
use kubernetes_style_orchest.Controllers.Client.{PodClient, IsLawful, IsReliable}
use kubernetes_style_orchest.Controllers.ReplicaSets.{
  alive_pods, create_missing, delete_extra, scale, slice_from, reconcile_one,
}
use kubernetes_style_orchest.Controllers.ReplicaSets.Names.{
  DistinctNames, FreshDraws, without_all, without_all-append, alive-without_all,
  DistinctNames-alive,
}
use kubernetes_style_orchest.Controllers.ReplicaSets.Scaling.{
  create_missing_bounds, create_missing_exact, delete_extra_exact,
}

-- Deleting all but the first `n` of several pods of distinct names leaves `n`.
length-without_all-drop :
    (n : ℕ) (xs : List Pod)
    → n ≤ length xs
    → DistinctNames xs
    → length (without_all (drop n xs) xs) ≡ n
length-without_all-drop n xs h d =
    ap length (
      ap (without_all (drop n xs)) (sym (take-append-drop n xs))
      ∙ without_all-append (take n xs) (drop n xs) (rw (take-append-drop n xs) d))
    ∙ length-take n xs h

module _ (c : PodClient) (law : IsLawful c) (rs : ReplicaSet) (draw : ℕ → String)
    (s : c.State) where
  open c use {pods}

  abbrev observed : List Pod
  observed = alive_pods rs.metadata.name (pods s)

  abbrev pub alive_after : c.State → ℕ
  alive_after t = length (alive_pods rs.metadata.name (pods t))

  scale_converges :
      (n : ℕ)
      → IsReliable c
      → rs.spec.template.spec.containers ≢ []
      → rs.spec.replicas ≡ pos n
      → DistinctNames (pods s)
      → FreshDraws rs draw (n - length observed) (pods s)
      → (t : c.State) × (scale c rs observed draw s ≡ some t) × (alive_after t ≡ n)
  unfolding scale
  scale_converges n works filled e d f = elim (dec_lt (length observed) n) [
    | yes few ↦ (
      create_missing c rs draw (n - length observed) s,
      rw e (ground arith),
      omega (arith, create_missing_exact c law rs works filled (n - length observed) draw s f),
    )
    | no enough ↦ elim (dec_lt n (length observed)) [
      | yes many ↦ (
        delete_extra c (drop n observed) s,
        rw e (ground arith),
        ap (λ (xs : List Pod). length (alive_pods rs.metadata.name xs))
              (delete_extra_exact c law rs works (drop n observed) s)
            ∙ ap length (alive-without_all rs.metadata.name (drop n observed) (pods s))
            ∙ length-without_all-drop n observed (omega arith)
                (DistinctNames-alive rs.metadata.name (pods s) d),
      )
      | no same ↦ (s, rw e (ground arith), omega arith)
    ]
  ]

  -- The status update that ends the run.
  abbrev finish : c.State → c.State
  finish t =
      (c.update_replica_set_status rs.metadata.name
        (record {
          replicas = pos (length observed);
          ready_replicas = pos (length (keep (λ p. p.status.phase == phase_running) observed));
          last_updated = 0;
        })
        t).1

  alive-finish : (t : c.State) → alive_after (finish t) ≡ alive_after t
  alive-finish t =
      ap (λ (xs : List Pod). length (alive_pods rs.metadata.name xs)) (law.pods-update_status _ _ t)

  reconcile_of_scale :
      (t : c.State)
      → scale c rs observed draw s ≡ some t
      → reconcile_one c rs (pods s) draw s ≡ some (finish t)
  unfolding reconcile_one
  reconcile_of_scale t e = rw (e, reconcile_one)

  -- With a lawful client that creates every pod that has a name and containers and deletes every pod that
  -- is there, a template with containers, distinct pod names and fresh random names, one run on the
  -- current pods ends without a panic and leaves exactly the desired number of pods that
  -- are owned and not failed.
  pub reconcile_converges :
      (n : ℕ)
      → IsReliable c
      → rs.spec.template.spec.containers ≢ []
      → rs.spec.replicas ≡ pos n
      → DistinctNames (pods s)
      → FreshDraws rs draw (n - length observed) (pods s)
      → (t : c.State) × (reconcile_one c rs (pods s) draw s ≡ some t) × (alive_after t ≡ n)
  reconcile_converges n works filled e d f =
      let (t, done, right) = scale_converges n works filled e d f in
      (finish t, reconcile_of_scale t done, alive-finish t ∙ right)

  -- Whatever calls fail, a run on the current pods that starts at or below the desired number, with a
  -- lawful client and fresh random names, ends without a panic, not above the desired number of pods
  -- that are owned and not failed and not below the observed one.
  pub reconcile_no_overshoot :
      (n : ℕ)
      → rs.spec.replicas ≡ pos n
      → length observed ≤ n
      → FreshDraws rs draw (n - length observed) (pods s)
      → (t : c.State) × (reconcile_one c rs (pods s) draw s ≡ some t)
        × (length observed ≤ alive_after t)
        × (alive_after t ≤ n)
  unfolding scale
  reconcile_no_overshoot n e h f = elim (dec_lt (length observed) n) [
    | yes few ↦
        let t = create_missing c rs draw (n - length observed) s in
        let (lo, hi) = create_missing_bounds c law rs (n - length observed) draw s f in
        (
          finish t,
          reconcile_of_scale t (rw e (ground arith)),
          omega (arith, alive-finish t),
          omega (arith, alive-finish t),
        )
    | no enough ↦ (
      finish s,
      reconcile_of_scale s (rw e (ground arith)),
      omega (arith, alive-finish s),
      omega (arith, alive-finish s),
    )
  ]

-- A run panics exactly when the desired number is negative, whatever pods it sees and whatever the
-- client does.
pub reconcile_panics_iff :
    (c : PodClient) (rs : ReplicaSet) (all_pods : List Pod) (draw : ℕ → String) (s : c.State)
    → (reconcile_one c rs all_pods draw s ≡ none) ↔ (rs.spec.replicas <ℤ pos 0)
unfolding reconcile_one scale slice_from
reconcile_panics_iff c rs all_pods draw s = elim (Int-cases rs.spec.replicas) [
  | inl (n, e) ↦ rw e ((λ h. ground arith), (λ h. ground arith))
  | inr (n, e) ↦ rw e ((λ h. ground arith), (λ h. ground arith))
]
