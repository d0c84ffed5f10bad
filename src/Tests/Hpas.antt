-- ===== src/Tests/Hpas.antt =====
-- mvp/internal/hpa/hpa.go: an autoscaler between two and five replicas, with whole numbers for floats.
use kubernetes_style_orchest.Prelude.{
  ℕ, ◌*◌, ◌-◌, ◌≤◌, string_eq, int_eq, nat_eq, ◌==◌, true, ◌≡◌, ◌≢◌, refl, ◌⊎◌, ltb, [],
}
use kubernetes_style_orchest.Prelude.Int.{pos, ◌≤ℤ◌, ◌<ℤ◌}
use kubernetes_style_orchest.Api.{Hpa}
use kubernetes_style_orchest.Controllers.Hpas.{Floats, second, scale_step}
use kubernetes_style_orchest.Controllers.Hpas.Bounds.{scale_step-bounds}
use kubernetes_style_orchest.Tests.Data.{named}

-- Every load asks for nine replicas.
abbrev whole : Floats
whole = record {
  F = ℕ;
  nought = 0;
  plus = λ a b. b;
  over = λ a n. a;
  is_positive = λ a. ltb 0 a;
  is_nought = λ a. a == 0;
  to_int = λ a. pos a;
  scaled = λ current avg target. pos 9;
}

abbrev scaler : Hpa
scaler = record {
  api_version = "autoscaling/v1";
  kind = "HorizontalPodAutoscaler";
  metadata = named "web" [];
  spec = record {
    scale_target_ref = record { kind = "Deployment"; name = "web" };
    min_replicas = pos 2;
    max_replicas = pos 5;
    metric = record { type = "Resource"; name = "cpu"; target_average_value = pos 50 };
  };
  status = record {
    current_replicas = pos 3;
    desired_replicas = pos 3;
    current_average_value = pos 0;
    last_scale_time = 0;
    last_updated = 0;
  };
}

scale_step-bounds_example :
    (pos 5 ≤ℤ pos 5)
    × (pos 2 ≤ℤ pos 5 → pos 2 ≤ℤ pos 5)
    × (pos 5 ≢ pos 3)
    × (pos 5 <ℤ pos 3
        → (scaler.status.last_scale_time ≡ 0)
          ⊎ (15 * second ≤ 20 * second - scaler.status.last_scale_time))
unfolding scale_step
scale_step-bounds_example =
    scale_step-bounds whole (15 * second) (20 * second) scaler (pos 3) 90 true (pos 5) refl
