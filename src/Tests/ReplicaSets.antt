-- ===== src/Tests/ReplicaSets.antt =====
-- mvp/internal/controllers/replicaset.go: a ReplicaSet of three pods against the server.
use kubernetes_style_orchest.Prelude.{
  ℕ, zero, suc, ◌≤◌, ◌<◌, String, ◌==◌, string_eq, false, some, none, List, [], ◌∷◌, any, ◌≡◌, ◌≢◌,
  ◌↔◌, refl, arith,
}
use kubernetes_style_orchest.Prelude.Int.{ℤ, pos, negsuc, ◌<ℤ◌}
use kubernetes_style_orchest.Api.{Pod, ReplicaSet}
use kubernetes_style_orchest.Controllers.ReplicaSets.{reconcile_one, alive_pods, pod_name}
use kubernetes_style_orchest.Controllers.ReplicaSets.Names.{FreshDraws}
use kubernetes_style_orchest.Controllers.ReplicaSets.Convergence.{
  alive_after, reconcile_converges, reconcile_no_overshoot, reconcile_panics_iff,
}
use kubernetes_style_orchest.Db.{Db}
use kubernetes_style_orchest.Store.Pods.{new_pod_row, pod_of_row}
use kubernetes_style_orchest.Tests.PodRows.{listed}
use kubernetes_style_orchest.Tests.PodServer.{
  Holds, Server, pod_server, pod_server-IsLawful, pod_server-IsReliable,
}
use kubernetes_style_orchest.Tests.ServerData.{one_container}
use kubernetes_style_orchest.Tests.Data.{no_rows, named, pod_of, told_apart}

abbrev web_set : ℤ → ReplicaSet
web_set n = record {
  api_version = "apps/v1";
  kind = "ReplicaSet";
  metadata = named "web" [];
  spec = record {
    replicas = n;
    selector = [];
    template = record { metadata = named "" (("app", "web") ∷ []); spec = one_container.spec };
  };
  status = record { replicas = pos 0; ready_replicas = pos 0; last_updated = 0 };
}

abbrev running_pod : Pod
running_pod = pod_of "web-x" (("mk.replicaset", "web") ∷ []) "Running"

abbrev one_row : Db
one_row = record no_rows { pods = ("web-x", new_pod_row 7 running_pod) ∷ [] }

one_row-Holds : Holds 7 one_row
unfolding new_pod_row
one_row-Holds = ((λ n. refl), (refl, refl, tt))

abbrev start : Server 7
start = (one_row, one_row-Holds)

abbrev one_pod : List Pod
one_pod = listed one_row.pods

abbrev draw : ℕ → String
draw n = elim n [ zero ↦ "aaaaa" | suc m ↦ "bbbbb" ]

unused_draw :
    (i : ℕ)
    → i < 2
    → any (λ p. p.metadata.name == pod_name (web_set (pos 3)) (draw i)) one_pod ≡ false
unfolding new_pod_row pod_of_row
unused_draw zero h = refl
unused_draw (suc i) h = refl

distinct_draw :
    (i j : ℕ)
    → i < j
    → j < 2
    → pod_name (web_set (pos 3)) (draw i) ≢ pod_name (web_set (pos 3)) (draw j)
distinct_draw zero zero h k = absurd (omega arith)
distinct_draw zero (suc j) h k = told_apart "web-aaaaa" "web-bbbbb" refl
distinct_draw (suc i) j h k = absurd (omega arith)

draw-Fresh : FreshDraws (web_set (pos 3)) draw 2 one_pod
draw-Fresh = record { unused = unused_draw; distinct = distinct_draw }

reconcile_converges_example :
    (t : Server 7) × (reconcile_one (pod_server 7) (web_set (pos 3)) one_pod draw start ≡ some t)
    × (alive_after (pod_server 7) (pod_server-IsLawful 7) (web_set (pos 3)) draw start t ≡ 3)
unfolding alive_pods new_pod_row pod_of_row
reconcile_converges_example =
    reconcile_converges (pod_server 7) (pod_server-IsLawful 7) (web_set (pos 3)) draw start 3
      (pod_server-IsReliable 7) (λ e. cc e) refl (refl, tt) draw-Fresh

reconcile_no_overshoot_example :
    (t : Server 7) × (reconcile_one (pod_server 7) (web_set (pos 3)) one_pod draw start ≡ some t)
    × (1 ≤ alive_after (pod_server 7) (pod_server-IsLawful 7) (web_set (pos 3)) draw start t)
    × (alive_after (pod_server 7) (pod_server-IsLawful 7) (web_set (pos 3)) draw start t ≤ 3)
unfolding alive_pods new_pod_row pod_of_row
reconcile_no_overshoot_example =
    reconcile_no_overshoot (pod_server 7) (pod_server-IsLawful 7) (web_set (pos 3)) draw start 3
      refl (omega arith) draw-Fresh

reconcile_panics_iff_example :
    (reconcile_one (pod_server 7) (web_set (negsuc 0)) one_pod draw start ≡ none)
    ↔ ((web_set (negsuc 0)).spec.replicas <ℤ pos 0)
reconcile_panics_iff_example =
    reconcile_panics_iff (pod_server 7) (web_set (negsuc 0)) one_pod draw start
