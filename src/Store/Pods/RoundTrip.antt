-- ===== src/Store/Pods/RoundTrip.antt =====
-- mvp/internal/store/store.go: what a pod reads as after it was written.
use kubernetes_style_orchest.Prelude.{
  ℕ, String, ◌==◌, string_eq, ==_iff, none, some, Option, ◌≡◌, refl, ap, ◌∙◌, arith, if◌then◌else◌,
}
use kubernetes_style_orchest.Api.{Pod}
use kubernetes_style_orchest.Db.{Db, PodRow}
use kubernetes_style_orchest.Sql.{ok, result, after}
use kubernetes_style_orchest.Sql.Rows.{select}
use kubernetes_style_orchest.Sql.Laws.{select-update, select-append}
use kubernetes_style_orchest.Store.Tables.{ns_or_default}
use kubernetes_style_orchest.Store.Pods.{new_pod_row, update_pod_row, upsert_pod}

-- The row that an upsert leaves, by the row that was there.
abbrev pub upserted : ℕ → Pod → Option PodRow → PodRow
upserted now p none = record {
  namespace = if p.metadata.namespace == "" then "default" else p.metadata.namespace;
  spec = p.spec;
  metadata = p.metadata;
  phase = if p.status.phase == "" then "Pending" else p.status.phase;
  node_name = p.status.node_name;
  container_id = p.status.container_id;
  message = p.status.message;
  pod_ip = p.status.pod_ip;
  host_port = p.status.host_port;
  last_updated = now;
  created_at = now;
}
upserted now p (some r) = record {
  namespace = if p.metadata.namespace == "" then "default" else p.metadata.namespace;
  spec = p.spec;
  metadata = p.metadata;
  phase = r.phase;
  node_name = r.node_name;
  container_id = r.container_id;
  message = r.message;
  pod_ip = r.pod_ip;
  host_port = r.host_port;
  last_updated = now;
  created_at = r.created_at;
}

new_pod_row-upserted : (now : ℕ) (p : Pod) → new_pod_row now p ≡ upserted now p none
unfolding new_pod_row ns_or_default
new_pod_row-upserted now p = refl

update_pod_row-upserted :
    (now : ℕ) (p : Pod) (r : PodRow) → update_pod_row now p r ≡ upserted now p (some r)
unfolding update_pod_row ns_or_default
update_pod_row-upserted now p r = refl

-- The row as the code writes it.
abbrev written : ℕ → Pod → Option PodRow → PodRow
written now p none = new_pod_row now p
written now p (some r) = update_pod_row now p r

written-upserted : (now : ℕ) (p : Pod) (o : Option PodRow) → written now p o ≡ upserted now p o
written-upserted now p none = new_pod_row-upserted now p
written-upserted now p (some r) = update_pod_row-upserted now p r

select-upsert_pod-written :
    (now : ℕ) (p : Pod) (s : Db)
    → result (upsert_pod now p s) ≡ ok tt
    → (k : String)
    → select k (after (upsert_pod now p s)).pods ≡ (
        if p.metadata.name == k
        then some (written now p (select p.metadata.name s.pods))
        else select k s.pods)
unfolding upsert_pod
select-upsert_pod-written now p s h k = ground (
  arith,
  select-update p.metadata.name k (update_pod_row now p) s.pods,
  select-append p.metadata.name k (new_pod_row now p) s.pods,
  ==_iff p.metadata.name k,
)

-- After an UpsertPod that reports no error, its pod's row is a new one, Pending where the pod has
-- no phase, or the old row with the namespace, spec, metadata and time of the update and every
-- status column and the time of creation kept; every other row is as it was.
pub select-upsert_pod :
    (now : ℕ) (p : Pod) (s : Db)
    → result (upsert_pod now p s) ≡ ok tt
    → (k : String)
    → select k (after (upsert_pod now p s)).pods ≡ (
        if p.metadata.name == k
        then some (upserted now p (select p.metadata.name s.pods))
        else select k s.pods)
select-upsert_pod now p s h k =
    select-upsert_pod-written now p s h k
    ∙ ap (λ r. if p.metadata.name == k then some r else select k s.pods)
        (written-upserted now p (select p.metadata.name s.pods))
