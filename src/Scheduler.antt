-- ===== src/Scheduler.antt =====
-- mvp/cmd/scheduler/main.go: one round over the pending pods, which the API server listed. What is
-- returned are the status updates that are sent, in their order; their errors are only logged.
pub mod Pending
use kubernetes_style_orchest.Prelude.{String, List, map}
use kubernetes_style_orchest.Prelude.Int.{pos}
use kubernetes_style_orchest.Api.{Pod, PodStatus, phase_scheduled}

unfoldable pub scheduled_status : String → PodStatus
scheduled_status node = record {
  phase = phase_scheduled;
  node_name = node;
  container_id = "";
  message = "Scheduled by mk-scheduler";
  pod_ip = "";
  host_port = pos 0;
  last_updated = 0;
}

unfoldable pub schedule_once : String → List Pod → List (String × PodStatus)
unfolding scheduled_status
schedule_once node pods = map (λ p. (p.metadata.name, scheduled_status node)) pods
