-- ===== src/Store/Pods.antt =====
-- mvp/internal/store/store.go: pods.
pub mod RoundTrip
pub mod Status
pub mod Refinement
use kubernetes_style_orchest.Prelude.{
  ℕ, String, ◌==◌, string_eq, not, map, List, keep, order_by, if◌then◌else◌,
}
use kubernetes_style_orchest.Api.{Pod, PodStatus, phase_pending}
use kubernetes_style_orchest.Db.{PodRow}
use kubernetes_style_orchest.Sql.{
  M, Result, ok, err, not_found, failed, ◌>>=◌, ◌>>◌, pure, raise, attempt, query_row, query_all,
  insert_into, update_where, delete_where, require_row,
}
use kubernetes_style_orchest.Store.Tables.{pods, ns_or_default}

-- The columns of a pod that is created at `now`: the phase defaults to Pending.
unfoldable pub new_pod_row : ℕ → Pod → PodRow
unfolding ns_or_default
new_pod_row now p = record {
  namespace = ns_or_default p.metadata.namespace;
  spec = p.spec;
  metadata = p.metadata;
  phase = if p.status.phase == "" then phase_pending else p.status.phase;
  node_name = p.status.node_name;
  container_id = p.status.container_id;
  message = p.status.message;
  pod_ip = p.status.pod_ip;
  host_port = p.status.host_port;
  last_updated = now;
  created_at = now;
}

unfoldable pub create_pod : ℕ → Pod → M (Unit {0})
unfolding new_pod_row insert_into
create_pod now p = insert_into pods p.metadata.name (new_pod_row now p)

unfoldable pub pod_of_row : PodRow → Pod
pod_of_row r = record {
  api_version = "v1";
  kind = "Pod";
  metadata = r.metadata;
  spec = r.spec;
  status = record {
    phase = r.phase;
    node_name = r.node_name;
    container_id = r.container_id;
    message = r.message;
    pod_ip = r.pod_ip;
    host_port = r.host_port;
    last_updated = r.last_updated;
  };
}

unfoldable pub get_pod : String → M Pod
unfolding query_row pod_of_row
get_pod name = do r ← query_row pods name; pure (pod_of_row r)

-- `UPDATE pods SET namespace, spec_json, metadata_json, last_updated`: the status columns stay.
unfoldable pub update_pod_row : ℕ → Pod → PodRow → PodRow
unfolding ns_or_default
update_pod_row now p r = record r {
  namespace = ns_or_default p.metadata.namespace;
  spec = p.spec;
  metadata = p.metadata;
  last_updated = now;
}

-- The rest of `UpsertPod`, after the pod of that name was looked up.
unfoldable pub upsert_pod_after : ℕ → Pod → Result Pod → M (Unit {0})
unfolding update_pod_row update_where create_pod
upsert_pod_after now p (ok existing) = do
  n ← update_where pods p.metadata.name (update_pod_row now p)
  pure tt
upsert_pod_after now p (err not_found) = create_pod now p
upsert_pod_after now p (err failed) = raise failed

unfoldable pub upsert_pod : ℕ → Pod → M (Unit {0})
unfolding get_pod upsert_pod_after
upsert_pod now p = do existing ← attempt (get_pod p.metadata.name); upsert_pod_after now p existing

-- ORDER BY created_at ASC; rows of one instant stay in the order of their insertion
unfoldable pub oldest_first : List (String × PodRow) → List Pod
unfolding order_by pod_of_row
oldest_first rows = map (λ r. pod_of_row r.1) (order_by (λ r. r.1.created_at) rows)

unfoldable pub list_pods : String → M (List Pod)
unfolding query_all oldest_first
list_pods phase = do
  rows ← query_all pods
  pure (
      if not (phase == "")
      then oldest_first (keep (λ r. r.1.phase == phase) rows)
      else oldest_first rows)

unfoldable pub list_pods_by_node : String → M (List Pod)
unfolding query_all oldest_first
list_pods_by_node node = do
  rows ← query_all pods
  pure (oldest_first (keep (λ r. r.1.node_name == node) rows))

unfoldable pub set_pod_status : ℕ → PodStatus → PodRow → PodRow
set_pod_status now st r = record r {
  phase = st.phase;
  node_name = st.node_name;
  container_id = st.container_id;
  message = st.message;
  pod_ip = st.pod_ip;
  host_port = st.host_port;
  last_updated = now;
}

unfoldable pub update_status : ℕ → String → PodStatus → M (Unit {0})
unfolding update_where set_pod_status
update_status now name st = do n ← update_where pods name (set_pod_status now st); require_row n

unfoldable pub delete_pod : String → M (Unit {0})
unfolding delete_where
delete_pod name = do n ← delete_where pods name; require_row n
