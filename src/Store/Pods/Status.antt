-- ===== src/Store/Pods/Status.antt =====
-- mvp/internal/store/store.go: status updates, deletions and creations of pods.
use kubernetes_style_orchest.Prelude.{
  ℕ, String, Bool, true, false, ◌==◌, string_eq, none, some, Option, ◌≡◌, arith, if◌then◌else◌,
}
use kubernetes_style_orchest.Api.{PodStatus}
use kubernetes_style_orchest.Db.{Db, PodRow}
use kubernetes_style_orchest.Sql.{ok, err, not_found, failed, Result, result, after}
use kubernetes_style_orchest.Sql.Rows.{select}
use kubernetes_style_orchest.Sql.Laws.{select-update, select-remove, affected-select}
use kubernetes_style_orchest.Store.Pods.{set_pod_status, update_status, delete_pod}

-- What a method that changes one row answers: the driver's error, ErrNotFound or nil.
abbrev pub answer : Bool → Option PodRow → Result (Unit {0})
answer true o = err failed
answer false none = err not_found
answer false (some r) = ok tt

-- The rows after a statement that changes the row of one name with `change`.
abbrev pub changed : Bool → String → (PodRow → Option PodRow) → Db → String → Option PodRow
changed fault name change s k =
    if fault
    then select k s.pods
    else if name == k
    then (elim (select k s.pods) [ none ↦ none | some r ↦ change r ])
    else select k s.pods

-- The row with the status, at `now`.
abbrev pub with_status : ℕ → PodStatus → PodRow → PodRow
with_status now st r = record {
  namespace = r.namespace;
  spec = r.spec;
  metadata = r.metadata;
  phase = st.phase;
  node_name = st.node_name;
  container_id = st.container_id;
  message = st.message;
  pod_ip = st.pod_ip;
  host_port = st.host_port;
  last_updated = now;
  created_at = r.created_at;
}

-- A status update answers the driver's error, ErrNotFound where there is no such pod, or nil. It
-- sets the status columns of the named pod to those of `st`, updated at `now`, and changes no other
-- column, no other pod, and nothing if the driver fails.
pub update_status_lem :
    (now : ℕ) (name : String) (st : PodStatus) (s : Db)
    → (result (update_status now name st s) ≡ answer (s.fails s.executed) (select name s.pods))
      × ((k : String)
          → select k (after (update_status now name st s)).pods
            ≡ changed (s.fails s.executed) name (λ r. some (with_status now st r)) s k)
unfolding update_status set_pod_status
update_status_lem now name st s = (
  ground (arith, affected-select name s.pods),
  (λ k.
      ground
        (arith, affected-select name s.pods, select-update name k (set_pod_status now st) s.pods)),
)

-- A deletion answers the driver's error, ErrNotFound where there is no such pod, or nil. It removes
-- the named pod and no other, and nothing if the driver fails.
pub delete_pod_lem :
    (name : String) (s : Db)
    → (result (delete_pod name s) ≡ answer (s.fails s.executed) (select name s.pods))
      × ((k : String)
          → select k (after (delete_pod name s)).pods
            ≡ changed (s.fails s.executed) name (λ r. none) s k)
unfolding delete_pod
delete_pod_lem name s = (
  ground (arith, affected-select name s.pods),
  (λ k. ground (arith, affected-select name s.pods, select-remove name k s.pods)),
)
