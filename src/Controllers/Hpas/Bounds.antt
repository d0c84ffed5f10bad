-- ===== src/Controllers/Hpas/Bounds.antt =====
-- mvp/internal/hpa/hpa.go: the numbers that the autoscaler posts.
use kubernetes_style_orchest.Prelude.{
  ℕ, ◌-◌, ◌≤◌, ◌==◌, string_eq, int_eq, nat_eq, ==_iff, Bool, false, some, Bool-cases, ◌≡◌, ◌≢◌,
  sym, ◌∙◌, false≢true, inl, inr, ◌⊎◌, arith,
}
use kubernetes_style_orchest.Prelude.Int.{ℤ, ◌≤ℤ◌, ◌<ℤ◌}
use kubernetes_style_orchest.Api.{Hpa}
use kubernetes_style_orchest.Controllers.Hpas.{
  Floats, clamp, cooling, desired_replicas, scale_step, wanted,
}

clamp-bounds :
    (fl : Floats) (lo hi n : ℤ) → (clamp fl lo hi n ≤ℤ hi) × (lo ≤ℤ hi → lo ≤ℤ clamp fl lo hi n)
unfolding clamp
clamp-bounds fl lo hi n = (ground arith, λ h. ground arith)

cooling-over :
    (fl : Floats) (cooldown now : ℕ) (h : Hpa) (desired current : ℤ)
    → cooling fl cooldown now h desired current ≡ false
    → desired <ℤ current
    → (h.status.last_scale_time ≡ 0) ⊎ (cooldown ≤ now - h.status.last_scale_time)
unfolding cooling
cooling-over fl cooldown now h desired current e less = ground arith

desired_replicas-bounds :
    (fl : Floats) (h : Hpa) (current : ℤ) (avg : fl.F)
    → (desired_replicas fl h current avg ≤ℤ h.spec.max_replicas)
      × (h.spec.min_replicas ≤ℤ h.spec.max_replicas
          → h.spec.min_replicas ≤ℤ desired_replicas fl h current avg)
unfolding desired_replicas
desired_replicas-bounds fl h current avg =
    clamp-bounds fl h.spec.min_replicas h.spec.max_replicas (wanted fl h current avg)

-- A number that the autoscaler posts is at most the maximum, at least the minimum where the minimum is
-- at most the maximum, and another than the current one; a smaller one is posted only if nothing was
-- scaled before or the cool-down is over.
pub scale_step-bounds :
    (fl : Floats) (cooldown now : ℕ) (h : Hpa) (current : ℤ) (avg : fl.F) (works : Bool) (n : ℤ)
    → (scale_step fl cooldown now h current avg works).0 ≡ some n
    → (n ≤ℤ h.spec.max_replicas)
      × (h.spec.min_replicas ≤ℤ h.spec.max_replicas → h.spec.min_replicas ≤ℤ n)
      × (n ≢ current)
      × (n <ℤ current
          → (h.status.last_scale_time ≡ 0) ⊎ (cooldown ≤ now - h.status.last_scale_time))
unfolding scale_step
scale_step-bounds fl cooldown now h current avg works n e =
    elim (Bool-cases (desired_replicas fl h current avg == current)) [
      | inl same ↦ cc (rw (same, scale_step) at e)
      | inr other ↦
          elim (Bool-cases
            (cooling fl cooldown now h (desired_replicas fl h current avg) current)) [
              | inl cool ↦ cc (rw (other, cool, scale_step) at e)
              | inr over ↦
                  let same : n ≡ desired_replicas fl h current avg =
                    cc (rw (other, over, scale_step) at e) in
                  rw same (
                    (desired_replicas-bounds fl h current avg).0,
                    (desired_replicas-bounds fl h current avg).1,
                    (λ f.
                        false≢true
                          (sym other ∙ (==_iff (desired_replicas fl h current avg) current).1 f)),
                    cooling-over fl cooldown now h (desired_replicas fl h current avg) current over,
                  )
            ]
    ]
