-- ===== src/Store/Pods/Refinement.antt =====
-- mvp/internal/store/store.go: the pods of the store against a finite map.
use kubernetes_style_orchest.Prelude.{
  Bool, true, false, sym, ℕ, suc, String, ◌==◌, string_eq, Option, none, some, List, [], ◌∷◌, ◌≡◌,
  refl, ap, ◌∙◌, fun_ext, arith, if◌then◌else◌, ==_iff,
}
use mathlib.Core.Path.{ap₂}
use kubernetes_style_orchest.Api.{Pod, PodStatus}
use kubernetes_style_orchest.Db.{Db, PodRow}
use kubernetes_style_orchest.Sql.{
  M, NoFaults, Result, ok, err, not_found, result, after, ◌>>=◌, ◌>>◌, pure,
}
use kubernetes_style_orchest.Sql.Rows.{select}
use kubernetes_style_orchest.Store.Pods.{pod_of_row, get_pod, upsert_pod, update_status, delete_pod}
use kubernetes_style_orchest.Store.Pods.RoundTrip.{upserted, select-upsert_pod}
use kubernetes_style_orchest.Store.Pods.Status.{
  changed, with_status, update_status_lem, delete_pod_lem,
}

-- What a client of the store asks for.
pub data PodCall : Type 0 where
  read : String → PodCall
  put : ℕ → Pod → PodCall
  set_status : ℕ → String → PodStatus → PodCall
  drop : String → PodCall

-- The calls of the code.
unfoldable pub run_call : PodCall → M (Option Pod)
unfolding get_pod upsert_pod update_status delete_pod
run_call (read name) = do p ← get_pod name; pure (some p)
run_call (put now p) = upsert_pod now p >> pure none
run_call (set_status now name st) = update_status now name st >> pure none
run_call (drop name) = delete_pod name >> pure none

-- The same calls on a map from names to pods.
abbrev pub PodMap : Type 0
PodMap = String → Option Pod

abbrev pub assign : String → Option Pod → PodMap → PodMap
assign name o m = λ k. if name == k then o else m k

abbrev pub found_or : Option Pod → (Pod → Option Pod) → Result (Option Pod)
found_or none f = err not_found
found_or (some p) f = ok (f p)

abbrev pub changed_or : String → (Pod → Option Pod) → Option Pod → PodMap → PodMap
changed_or name f none m = m
changed_or name f (some p) m = assign name (f p) m

-- The status at `now`.
abbrev pub at_time : ℕ → PodStatus → PodStatus
at_time now st = record st { last_updated = now }

-- A pod that is written keeps the status of the pod that is there; a new one that has no phase is
-- Pending.
abbrev pub status_put : ℕ → Pod → Option Pod → PodStatus
status_put now p none =
    at_time now
      (record p.status { phase = if p.status.phase == "" then "Pending" else p.status.phase })
status_put now p (some old) = at_time now old.status

abbrev pub pod_put : ℕ → Pod → Option Pod → Pod
pod_put now p old = record {
  api_version = "v1";
  kind = "Pod";
  metadata = p.metadata;
  spec = p.spec;
  status = status_put now p old;
}

unfoldable pub map_answer : PodCall → PodMap → Result (Option Pod)
map_answer (read name) m = found_or (m name) (λ p. some p)
map_answer (put now p) m = ok none
map_answer (set_status now name st) m = found_or (m name) (λ p. none)
map_answer (drop name) m = found_or (m name) (λ p. none)

unfoldable pub map_after : PodCall → PodMap → PodMap
map_after (read name) m = m
map_after (put now p) m = assign p.metadata.name (some (pod_put now p (m p.metadata.name))) m
map_after (set_status now name st) m =
    changed_or name (λ p. some (record p { status = at_time now st })) (m name) m
map_after (drop name) m = changed_or name (λ p. none) (m name) m

-- The pod that a row holds.
abbrev pub pod_in : PodRow → Pod
pod_in r = record {
  api_version = "v1";
  kind = "Pod";
  metadata = r.metadata;
  spec = r.spec;
  status = record {
    phase = r.phase;
    node_name = r.node_name;
    container_id = r.container_id;
    message = r.message;
    pod_ip = r.pod_ip;
    host_port = r.host_port;
    last_updated = r.last_updated;
  };
}

abbrev pub pod_seen : Option PodRow → Option Pod
pod_seen none = none
pod_seen (some r) = some (pod_in r)

abbrev pub map_of : Db → PodMap
map_of s = λ k. pod_seen (select k s.pods)

pod_of_row-pod_in : (r : PodRow) → pod_of_row r ≡ pod_in r
unfolding pod_of_row
pod_of_row-pod_in r = refl

upserted-pod_put :
    (now : ℕ) (p : Pod) (o : Option PodRow) → pod_in (upserted now p o) ≡ pod_put now p (pod_seen o)
upserted-pod_put now p none = refl
upserted-pod_put now p (some r) = refl

upsert_pod_ok : (now : ℕ) (p : Pod) (s : Db) → NoFaults s → result (upsert_pod now p s) ≡ ok tt
unfolding upsert_pod
upsert_pod_ok now p s works = ground (arith, works s.executed, works (suc s.executed))

run_call-map_answer :
    (c : PodCall) (s : Db) → NoFaults s → result (run_call c s) ≡ map_answer c (map_of s)
unfolding run_call map_answer get_pod pod_of_row
run_call-map_answer (read name) s works = ground (arith, works s.executed)
run_call-map_answer (put now p) s works = ground (arith, upsert_pod_ok now p s works)
run_call-map_answer (set_status now name st) s works =
    ground (arith, (update_status_lem now name st s).0, works s.executed)
run_call-map_answer (drop name) s works =
    ground (arith, (delete_pod_lem name s).0, works s.executed)

-- The map after a change of the row `o` of one name, at a key of row `q` which is that name or not.
change_at :
    (name k : String) (f : PodRow → Option PodRow) (g : Pod → Option Pod) (m : PodMap)
    (o q : Option PodRow) (b : Bool)
    → ((r : PodRow) → pod_seen (f r) ≡ g (pod_in r))
    → (name == k) ≡ b
    → m k ≡ pod_seen q
    → (b ≡ true → q ≡ o)
    → pod_seen (if b then (elim q [ none ↦ none | some r ↦ f r ]) else q)
      ≡ changed_or name g (pod_seen o) m k
change_at name k f g m none none b h e w same = ground (arith, w)
change_at name k f g m (some r) none true h e w same = cc (same refl)
change_at name k f g m (some r) none false h e w same = rw e (sym w)
change_at name k f g m none (some r) true h e w same = cc (same refl)
change_at name k f g m none (some r) false h e w same = sym w
change_at name k f g m (some r) (some t) true h e w same =
    let eq : t ≡ r = cc (same refl) in rw (e, eq) (h r)
change_at name k f g m (some r) (some t) false h e w same = rw e (sym w)

changed-changed_or :
    (name : String) (f : PodRow → Option PodRow) (g : Pod → Option Pod) (s : Db) (k : String)
    → ((r : PodRow) → pod_seen (f r) ≡ g (pod_in r))
    → pod_seen (changed false name f s k) ≡ changed_or name g (map_of s name) (map_of s) k
changed-changed_or name f g s k h =
    change_at name k f g (map_of s) (select name s.pods) (select k s.pods) (name == k) h refl refl
      (λ e. ap (λ x. select x s.pods) (sym ((==_iff name k).0 e)))

-- The row of the name after each call that changes one.
put-row :
    (now : ℕ) (p : Pod) (s : Db)
    → NoFaults s
    → (k : String)
    → select k (after (run_call (put now p) s)).pods ≡ (
        if p.metadata.name == k
        then some (upserted now p (select p.metadata.name s.pods))
        else select k s.pods)
unfolding run_call
put-row now p s works k =
    ground (
      arith,
      upsert_pod_ok now p s works,
      select-upsert_pod now p s (upsert_pod_ok now p s works) k,
    )

set_status-row :
    (now : ℕ) (name : String) (st : PodStatus) (s : Db)
    → NoFaults s
    → (k : String)
    → select k (after (run_call (set_status now name st) s)).pods
      ≡ changed false name (λ r. some (with_status now st r)) s k
unfolding run_call
set_status-row now name st s works k =
    ground (arith, (update_status_lem now name st s).1 k, works s.executed)

drop-row :
    (name : String) (s : Db)
    → NoFaults s
    → (k : String)
    → select k (after (run_call (drop name) s)).pods ≡ changed false name (λ r. none) s k
unfolding run_call
drop-row name s works k = ground (arith, (delete_pod_lem name s).1 k, works s.executed)

put-assign :
    (now : ℕ) (p : Pod) (b : Bool) (o q : Option PodRow)
    → pod_seen (if b then some (upserted now p o) else q)
      ≡ (if b then some (pod_put now p (pod_seen o)) else pod_seen q)
put-assign now p true o q = ap some (upserted-pod_put now p o)
put-assign now p false o q = refl

run_call-map_after :
    (c : PodCall) (s : Db)
    → NoFaults s
    → (k : String) → map_of (after (run_call c s)) k ≡ map_after c (map_of s) k
unfolding run_call map_after get_pod
run_call-map_after (read name) s works k = ap pod_seen (ground (arith, works s.executed))
run_call-map_after (put now p) s works k =
    ap pod_seen (put-row now p s works k)
    ∙ put-assign now p (p.metadata.name == k) (select p.metadata.name s.pods) (select k s.pods)
run_call-map_after (set_status now name st) s works k =
    ap pod_seen (set_status-row now name st s works k)
    ∙ changed-changed_or name _ (λ p. some (record p { status = at_time now st })) s k (λ r. refl)
run_call-map_after (drop name) s works k =
    ap pod_seen (drop-row name s works k) ∙ changed-changed_or name _ (λ p. none) s k (λ r. refl)

run_call-NoFaults : (c : PodCall) (s : Db) → NoFaults s → NoFaults (after (run_call c s))
unfolding run_call get_pod upsert_pod update_status delete_pod
run_call-NoFaults (read name) s works = λ n. ground (arith, works n)
run_call-NoFaults (put now p) s works = λ n. ground (arith, works n)
run_call-NoFaults (set_status now name st) s works = λ n. ground (arith, works n)
run_call-NoFaults (drop name) s works = λ n. ground (arith, works n)

-- The answers to a history of calls, from the store and from the map.
unfoldable pub answers : List PodCall → Db → List (Result (Option Pod))
unfolding run_call
answers [] s = []
answers (c ∷ cs) s = result (run_call c s) ∷ answers cs (after (run_call c s))

unfoldable pub map_answers : List PodCall → PodMap → List (Result (Option Pod))
unfolding map_answer map_after
map_answers [] m = []
map_answers (c ∷ cs) m = map_answer c m ∷ map_answers cs (map_after c m)

-- Where the driver fails nothing, a client that reads, writes, updates and deletes pods in any order
-- is answered as by a map from names to pods.
pub answers-map :
    (cs : List PodCall) (s : Db) → NoFaults s → answers cs s ≡ map_answers cs (map_of s)
unfolding answers map_answers
answers-map [] s works = refl
answers-map (c ∷ cs) s works =
    let t = after (run_call c s) in
    ap₂ (λ x xs. x ∷ xs) (run_call-map_answer c s works)
      (answers-map cs t (run_call-NoFaults c s works)
        ∙ ap (map_answers cs) (fun_ext (run_call-map_after c s works)))
