-- ===== src/Scheduler/Pending.antt =====
-- mvp/cmd/scheduler/main.go: which pods a round schedules, from the store that listed them.
use kubernetes_style_orchest.Prelude.{
  ℕ, String, ◌==◌, string_eq, ==_iff, Bool, true, Bool-cases, List, keep, any, any_iff, any-keep,
  order_by, any-order_by, ◌&&◌, ◌≡◌, sym, ap, ◌∙◌, Member, Member-of_map, inl, inr,
}
use kubernetes_style_orchest.Api.{Pod, PodStatus, phase_pending, phase_scheduled}
use kubernetes_style_orchest.Db.{Db, PodRow}
use kubernetes_style_orchest.Sql.{ok, result, query_all, statement}
use kubernetes_style_orchest.Store.Pods.{pod_of_row, oldest_first, list_pods}
use kubernetes_style_orchest.Scheduler.{scheduled_status, schedule_once}

listed :
    (s : Db) (ps : List Pod)
    → result (list_pods phase_pending s) ≡ ok ps
    → ps ≡ oldest_first (keep (λ r. r.1.phase == phase_pending) s.pods)
unfolding list_pods query_all statement
listed s ps h = elim (Bool-cases (s.fails s.executed)) [
  | inl e ↦ cc (rw (e, list_pods) at h)
  | inr e ↦ cc (rw (e, list_pods) at h)
]

-- The row is that of a pod that is Pending and has the name.
abbrev pub is_pending : String → String × PodRow → Bool
is_pending name r = r.1.phase == phase_pending && r.1.metadata.name == name

oldest_first-pending :
    (name : String) (rows : List (String × PodRow)) (p : Pod)
    → Member p (oldest_first (keep (λ r. r.1.phase == phase_pending) rows))
    → p.metadata.name ≡ name
    → any (is_pending name) rows ≡ true
unfolding oldest_first pod_of_row
oldest_first-pending name rows p m e =
    let (row, k, same) = Member-of_map _ p _ m in
    let column : String × PodRow → ℕ = λ r. r.1.created_at in
    let q : String × PodRow → Bool = λ r. r.1.phase == phase_pending in
    let f : String × PodRow → Bool = λ r. r.1.metadata.name == name in
    sym (any-keep f q rows)
    ∙ sym (any-order_by column f (keep q rows))
    ∙ (any_iff f (λ r. r.1.metadata.name ≡ name) (λ r. ==_iff r.1.metadata.name name)
          (order_by column (keep q rows))).1
        (row, k, sym (ap (λ z. z.metadata.name) same) ∙ e)

-- Each status of a round over the pods that the store listed as Pending is about a pod of the store
-- that is Pending, and it makes the pod Scheduled on the scheduler's node.
pub schedule_once-is_pending :
    (s : Db) (node : String) (ps : List Pod) (x : String × PodStatus)
    → result (list_pods phase_pending s) ≡ ok ps
    → Member x (schedule_once node ps)
    → (any (is_pending x.0) s.pods ≡ true) × (x.1.phase ≡ phase_scheduled) × (x.1.node_name ≡ node)
unfolding schedule_once scheduled_status
schedule_once-is_pending s node ps x h m =
    let (p, k, e) = Member-of_map _ x ps m in
    (
      oldest_first-pending x.0 s.pods p (rw (listed s ps h) at k) (sym (ap (λ z. z.0) e)),
      ap (λ z. z.1.phase) e,
      ap (λ z. z.1.node_name) e,
    )
