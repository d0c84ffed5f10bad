-- ===== src/Tests/PodServer.antt =====
-- mvp/cmd/apiserver/main.go and mvp/internal/store/store.go: the server's pods, over a database that fails no
-- statement and has no webhooks, as the client that the ReplicaSet controller asks.
use kubernetes_style_orchest.Prelude.{
  ℕ, suc, String, ◌==◌, string_eq, ==_iff, Bool, true, false, ◌||◌, none, some, List, [], ◌∷◌, ◌++◌,
  any, ◌≡◌, ◌≢◌, refl, ap, ◌∙◌, arith, Option-cases, inl, inr, ◌⊎◌,
}
use kubernetes_style_orchest.Api.{Pod, Container, ReplicaSetStatus, phase_pending}
use kubernetes_style_orchest.Db.{Db, PodRow}
use kubernetes_style_orchest.Sql.{NoFaults, Result, ok, err, result, after}
use kubernetes_style_orchest.Sql.Rows.{select, remove, update}
use kubernetes_style_orchest.Store.Pods.{
  pod_of_row, new_pod_row, update_pod_row, upsert_pod, delete_pod, list_pods, oldest_first,
}
use kubernetes_style_orchest.Store.Workloads.{update_replica_set_status}
use kubernetes_style_orchest.Controllers.Client.{PodClient, IsLawful, IsReliable, Unused}
use kubernetes_style_orchest.Tests.PodRows.{
  Rows, listed, order_by-Rows, Rows-append, Rows-remove, Rows-update, listed-append, listed-remove,
  select-listed, affected-listed,
}

-- A database of the server.
abbrev pub Holds : ℕ → Db → Type 0
Holds now s = NoFaults s × Rows now s.pods

new_row-Rows :
    (now : ℕ) (p : Pod) (rows : List (String × PodRow))
    → Rows now rows
    → Rows now (rows ++ (p.metadata.name, new_pod_row now p) ∷ [])
unfolding new_pod_row
new_row-Rows now p rows h = Rows-append now p.metadata.name (new_pod_row now p) rows refl refl h

-- What an upsert leaves.
upsert_pod-NoFaults :
    (now : ℕ) (p : Pod) (s : Db)
    → NoFaults s
    → (result (upsert_pod now p s) ≡ ok tt) × NoFaults (after (upsert_pod now p s))
unfolding upsert_pod
upsert_pod-NoFaults now p s works =
    (ground (arith, works s.executed, works (suc s.executed)), λ n. ground (arith, works n))

upsert_new :
    (now : ℕ) (p : Pod) (s : Db)
    → NoFaults s
    → select p.metadata.name s.pods ≡ none
    → (after (upsert_pod now p s)).pods ≡ s.pods ++ (p.metadata.name, new_pod_row now p) ∷ []
unfolding upsert_pod
upsert_new now p s works e = ground (arith, works s.executed, works (suc s.executed), e)

upsert_old :
    (now : ℕ) (p : Pod) (s : Db) (r : PodRow)
    → NoFaults s
    → select p.metadata.name s.pods ≡ some r
    → (after (upsert_pod now p s)).pods ≡ update p.metadata.name (update_pod_row now p) s.pods
unfolding upsert_pod
upsert_old now p s r works e = ground (arith, works s.executed, works (suc s.executed), e)

pub upsert_pod-Holds :
    (now : ℕ) (p : Pod) (s : Db) → Holds now s → Holds now (after (upsert_pod now p s))
upsert_pod-Holds now p s (works, rows) = (
  (upsert_pod-NoFaults now p s works).1,
  elim (Option-cases (select p.metadata.name s.pods)) [
    | inl e ↦ rw (upsert_new now p s works e) (new_row-Rows now p s.pods rows)
    | inr (r, e) ↦ rw (upsert_old now p s r works e) (Rows-update now p s.pods rows)
  ],
)

deleted_rows :
    (name : String) (s : Db)
    → NoFaults s
    → NoFaults (after (delete_pod name s)) × ((after (delete_pod name s)).pods ≡ remove name s.pods)
unfolding delete_pod
deleted_rows name s works = (λ n. ground (arith, works n), ground (arith, works s.executed))

pub delete_pod-Holds :
    (now : ℕ) (name : String) (s : Db) → Holds now s → Holds now (after (delete_pod name s))
delete_pod-Holds now name s (works, rows) =
    let (w, e) = deleted_rows name s works in (w, rw e (Rows-remove now name s.pods rows))

delete_pod_ok :
    (now : ℕ) (name : String) (s : Db)
    → Holds now s
    → any (λ p. p.metadata.name == name) (listed s.pods) ≡ true
    → result (delete_pod name s) ≡ ok tt
unfolding delete_pod
delete_pod_ok now name s (works, rows) there_is =
    let (n, e) = affected-listed now name s.pods rows there_is in
    ground (arith, works s.executed, e)

pub status-Holds :
    (now : ℕ) (name : String) (st : ReplicaSetStatus) (s : Db)
    → Holds now s
    → Holds now (after (update_replica_set_status now name st s))
      × ((after (update_replica_set_status now name st s)).pods ≡ s.pods)
unfolding update_replica_set_status
status-Holds now name st s (works, rows) =
    let same : (after (update_replica_set_status now name st s)).pods ≡ s.pods = ground arith in
    (((λ n. ground (arith, works n)), rw same rows), same)

-- ListPods returns the pods of the rows, in their order.
list_pods-listed : (now : ℕ) (s : Db) → Holds now s → result (list_pods "" s) ≡ ok (listed s.pods)
unfolding list_pods oldest_first
list_pods-listed now s (works, rows) =
    ground (arith, works s.executed, order_by-Rows now s.pods rows)

abbrev pub succeeds : Result (Unit {0}) → Bool
succeeds (ok u) = true
succeeds (err e) = false

-- createPod refuses a pod without a name or containers.
abbrev pub refused : Pod → Bool
refused p = p.metadata.name == "" || (elim p.spec.containers [ [] ↦ true | c ∷ cs ↦ false ])

abbrev pub Server : ℕ → Type 0
Server now = (s : Db) × Holds now s

abbrev pub created : (now : ℕ) → Pod → Bool → Server now → Bool × Server now
created now p true w = (false, w)
created now p false w = (
  succeeds (result (upsert_pod now p w.0)),
  (after (upsert_pod now p w.0), upsert_pod-Holds now p w.0 w.1),
)

abbrev pub pod_server : ℕ → PodClient
pod_server now = record {
  State = Server now;
  pods = λ w. listed w.0.pods;
  create_pod = λ p w. created now p (refused p) w;
  delete_pod = λ name w. (
    succeeds (result (delete_pod name w.0)),
    (after (delete_pod name w.0), delete_pod-Holds now name w.0 w.1),
  );
  update_replica_set_status = λ name st w. (
    succeeds (result (update_replica_set_status now name st w.0)),
    (after (update_replica_set_status now name st w.0), (status-Holds now name st w.0 w.1).0),
  );
  stored = λ p w. pod_of_row (new_pod_row now p);
}

created-pods :
    (now : ℕ) (p : Pod) (w : Server now) (b : Bool)
    → Unused p.metadata.name (listed w.0.pods)
    → (listed (created now p b w).1.0.pods ≡ listed w.0.pods ++ pod_of_row (new_pod_row now p) ∷ [])
      ⊎ (((created now p b w).0 ≡ false) × (listed (created now p b w).1.0.pods ≡ listed w.0.pods))
created-pods now p w true free = inr (refl, refl)
created-pods now p w false free = inl (
    ap listed (upsert_new now p w.0 w.1.0 (select-listed now p.metadata.name w.0.pods w.1.1 free))
    ∙ listed-append p.metadata.name (new_pod_row now p) w.0.pods)

stored-pod :
    (now : ℕ) (p : Pod)
    → ((pod_of_row (new_pod_row now p)).metadata ≡ p.metadata)
      × (p.status.phase ≡ "" → (pod_of_row (new_pod_row now p)).status.phase ≡ phase_pending)
unfolding pod_of_row new_pod_row
stored-pod now p = (refl, λ e. rw e refl)

pub pod_server-IsLawful : (now : ℕ) → IsLawful (pod_server now)
pod_server-IsLawful now = record {
  stored-metadata = λ p w. (stored-pod now p).0;
  stored-phase = λ p w e. (stored-pod now p).1 e;
  pods-create_pod = λ p w free. created-pods now p w (refused p) free;
  pods-delete_pod = λ name w.
      inl (ap listed (deleted_rows name w.0 w.1.0).1 ∙ listed-remove now name w.0.pods w.1.1);
  pods-update_status = λ name st w. ap listed (status-Holds now name st w.0 w.1).1;
}

not_refused : (p : Pod) → p.metadata.name ≢ "" → p.spec.containers ≢ [] → refused p ≡ false
not_refused p named filled = by_containers p.spec.containers filled
  where
    by_containers :
        (cs : List Container)
        → cs ≢ []
        → (p.metadata.name == "" || (elim cs [ [] ↦ true | c ∷ rest ↦ false ])) ≡ false
    by_containers [] h = absurd (h refl)
    by_containers (c ∷ cs) h = ground (arith, ==_iff p.metadata.name "", named)

created-succeeds :
    (now : ℕ) (p : Pod) (w : Server now) (b : Bool) → b ≡ false → (created now p b w).0 ≡ true
created-succeeds now p w true e = cc e
created-succeeds now p w false e = ap succeeds (upsert_pod-NoFaults now p w.0 w.1.0).0

pub pod_server-IsReliable : (now : ℕ) → IsReliable (pod_server now)
pod_server-IsReliable now = record {
  creates = λ p w named filled. created-succeeds now p w (refused p) (not_refused p named filled);
  deletes = λ name w found. ap succeeds (delete_pod_ok now name w.0 w.1 found);
}
