-- ===== src/Tests/Nodes.antt =====
-- mvp/cmd/kube-proxy/main.go and mvp/cmd/kubelet/main.go at concrete inputs.
use kubernetes_style_orchest.Prelude.{any}
use kubernetes_style_orchest.Prelude.{
  ◌+◌, ◌%◌, String, string_eq, true, false, none, some, List, [], ◌∷◌, ◌≡◌, refl, Member, here,
  arith,
}
use kubernetes_style_orchest.Prelude.Int.{pos}
use kubernetes_style_orchest.Api.{
  Pod, PodStatus, Service, EndpointAddress, phase_scheduled, phase_running,
}
use kubernetes_style_orchest.KubeProxy.{ProxyEntry, Proxy, Cluster, denied, get_elem?, handle, sync}
use kubernetes_style_orchest.KubeProxy.Synced.{IsServed, IsFresh, sync-IsServed}
use kubernetes_style_orchest.KubeProxy.Policies.{MayPass, IsDecided}
use kubernetes_style_orchest.KubeProxy.Handled.{
  after_connections, handle-MayPass, handle-round_robin,
}
use kubernetes_style_orchest.Kubelet.{Executed, printed, Listened, bound, sync_once}
use kubernetes_style_orchest.Kubelet.Rounds.{IsBacked, sync_once-IsBacked}
use kubernetes_style_orchest.Db.{Db}
use kubernetes_style_orchest.Store.Pods.{new_pod_row, pod_of_row, list_pods}
use kubernetes_style_orchest.Scheduler.{scheduled_status, schedule_once}
use kubernetes_style_orchest.Scheduler.Pending.{is_pending, schedule_once-is_pending}
use kubernetes_style_orchest.Tests.Data.{pod_of, no_rows}
use kubernetes_style_orchest.Tests.ServerData.{one_container, web_service}

abbrev first_backend : EndpointAddress
first_backend = record { ip = "127.0.0.1"; port = pos 4001; node_name = "a"; pod_name = "web-1" }

abbrev second_backend : EndpointAddress
second_backend = record { ip = "127.0.0.1"; port = pos 4002; node_name = "a"; pod_name = "web-2" }

abbrev exposed : Service
exposed = record web_service { spec = record web_service.spec { cluster_ip = "127.20.0.9" } }

abbrev web_entry : ProxyEntry
web_entry = record {
  key = record { service = "web"; port = pos 80 };
  cluster_ip = "127.20.0.9";
  backends = first_backend ∷ second_backend ∷ [];
  counter = 0;
}

abbrev empty_proxy : Proxy
empty_proxy = record { entries = []; policies = []; pods = []; netpol_enforce = true }

abbrev web_cluster : Cluster
web_cluster = record {
  services = some (exposed ∷ []);
  policies = none;
  pods = none;
  endpoints = λ name. some (record {
    api_version = "v1";
    kind = "Endpoints";
    metadata = exposed.metadata;
    subsets = first_backend ∷ second_backend ∷ [];
    last_updated = 0;
  });
  binds = λ ip port. true;
}

sync_once_listens :
    sync web_cluster empty_proxy ≡ some (record empty_proxy { entries = web_entry ∷ [] })
unfolding sync
sync_once_listens = refl

sync-IsServed_example :
    IsServed web_cluster (exposed ∷ []) web_entry × IsFresh web_cluster web_entry
unfolding sync
sync-IsServed_example =
    sync-IsServed web_cluster empty_proxy (record empty_proxy { entries = web_entry ∷ [] })
      (exposed ∷ []) refl refl web_entry (here refl)

-- A backend whose pod the proxy does not know is refused, also where there is no policy.
unknown_pod_denied : (handle empty_proxy web_entry (pos 5000)).0 ≡ denied
unfolding handle
unknown_pod_denied = refl

abbrev informed_proxy : Proxy
informed_proxy = record empty_proxy { pods = pod_of "web-1" [] phase_running ∷ [] }

handle-MayPass_example :
    Member first_backend web_entry.backends × MayPass informed_proxy (pos 5000) first_backend
unfolding handle
handle-MayPass_example = handle-MayPass informed_proxy web_entry (pos 5000) first_backend refl

handle-round_robin_example :
    (ep : EndpointAddress) × (get_elem? ((0 + 3) % 2) (first_backend ∷ second_backend ∷ [])
      ≡ some ep)
    × IsDecided informed_proxy
        (pos 5000)
        ep
        (handle informed_proxy
          (after_connections informed_proxy (pos 5001 ∷ pos 5002 ∷ pos 5003 ∷ []) web_entry)
          (pos 5000)).0
handle-round_robin_example =
    handle-round_robin informed_proxy web_entry (pos 5000) (pos 5001 ∷ pos 5002 ∷ pos 5003 ∷ [])
      (λ e. cc e) (omega arith)

abbrev docker_prints : List String → Executed
docker_prints args = printed "id"

abbrev one_port : String → Listened
one_port name = bound (pos 4001)

abbrev bound_pod : Pod
bound_pod = record one_container {
  status = record one_container.status { phase = phase_scheduled; node_name = "a" };
}

abbrev running_status : PodStatus
running_status = record {
  phase = phase_running;
  node_name = "a";
  container_id = "stub-web";
  message = "started";
  pod_ip = "127.0.0.1";
  host_port = pos 4001;
  last_updated = 0;
}

sync_once_starts :
    sync_once docker_prints one_port false (bound_pod ∷ []) []
    ≡ (("web", running_status) ∷ [], ("web", pos 4001) ∷ [])
unfolding sync_once
sync_once_starts = refl

sync_once-IsBacked_example :
    IsBacked docker_prints one_port
      (bound_pod ∷ [])
      (sync_once docker_prints one_port false (bound_pod ∷ []) []).1
      ("web", running_status)
unfolding sync_once
sync_once-IsBacked_example =
    sync_once-IsBacked docker_prints one_port (bound_pod ∷ []) [] ("web", running_status)
      (here refl)

abbrev pending_store : Db
pending_store = record no_rows { pods = ("web", new_pod_row 5 one_container) ∷ [] }

schedule_once-is_pending_example :
    (any (is_pending "web") pending_store.pods ≡ true)
    × ((scheduled_status "a").phase ≡ phase_scheduled)
    × ((scheduled_status "a").node_name ≡ "a")
unfolding list_pods schedule_once new_pod_row pod_of_row
schedule_once-is_pending_example =
    schedule_once-is_pending pending_store "a" (pod_of_row (new_pod_row 5 one_container) ∷ [])
      ("web", scheduled_status "a") refl (here refl)
