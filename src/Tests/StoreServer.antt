-- ===== src/Tests/StoreServer.antt =====
-- mvp/cmd/apiserver/main.go and mvp/internal/store/store.go: the server's ReplicaSets, over a database that
-- fails no statement, as the client that the Deployment controller asks.
use kubernetes_style_orchest.Prelude.{
  ℕ, suc, String, ◌==◌, string_eq, ==_iff, ==_refl, Bool, true, false, Option, none, some, ◌≡◌, ◌≢◌,
  refl, ap, ◌∙◌, sym, arith, ltb, Option-cases, Bool-cases, inl, inr, if◌then◌else◌,
}
use kubernetes_style_orchest.Prelude.Int.{ℤ}
use kubernetes_style_orchest.Api.{ReplicaSet, ReplicaSetSpec, ReplicaSetStatus, DeploymentStatus}
use kubernetes_style_orchest.Db.{Db, ObjectRow}
use kubernetes_style_orchest.Sql.{NoFaults, Result, ok, err, result, after}
use kubernetes_style_orchest.Sql.Rows.{select}
use kubernetes_style_orchest.Sql.Laws.{select-update, select-append}
use kubernetes_style_orchest.Store.Tables.{ns_or_default}
use kubernetes_style_orchest.Store.Workloads.{
  replica_set_of_row, get_replica_set, upsert_replica_set, update_deployment_status,
}
use kubernetes_style_orchest.ApiServer.Http.{Reply, object, error, items, deleted}
use kubernetes_style_orchest.ApiServer.Handlers.Workloads.{store_replica_set}
use kubernetes_style_orchest.Controllers.Deployments.{DeploymentClient}
use kubernetes_style_orchest.Controllers.Deployments.Desired.{IsFaithful, PostsWork}

abbrev pub Works : Type 0
Works = (s : Db) × NoFaults s

-- The client reports no error for a code below 300.
abbrev pub accepted : Result (Reply ReplicaSet) → Bool
accepted (ok (object code o)) = ltb code 300
accepted (ok (error code)) = false
accepted (ok (items xs)) = true
accepted (ok (deleted name)) = true
accepted (err e) = false

abbrev pub value_of : Result ReplicaSet → Option ReplicaSet
value_of (ok rs) = some rs
value_of (err e) = none

abbrev pub replicas_in : Option (ObjectRow ReplicaSetSpec ReplicaSetStatus) → Option ℤ
replicas_in none = none
replicas_in (some r) = some r.spec.replicas

pub store_replica_set-NoFaults :
    (now : ℕ) (rs : ReplicaSet) (s : Db)
    → NoFaults s
    → NoFaults (after (store_replica_set (λ t. none) now rs s))
unfolding store_replica_set
store_replica_set-NoFaults now rs s works n = ground (arith, works n)

get_replica_set-NoFaults :
    (name : String) (s : Db) → NoFaults s → NoFaults (after (get_replica_set name s))
unfolding get_replica_set
get_replica_set-NoFaults name s works n = ground (arith, works n)

pub update_deployment_status-NoFaults :
    (now : ℕ) (name : String) (st : DeploymentStatus) (s : Db)
    → NoFaults s
    → NoFaults (after (update_deployment_status now name st s))
unfolding update_deployment_status
update_deployment_status-NoFaults now name st s works n = ground (arith, works n)

store_replica_set-accepted :
    (now : ℕ) (rs : ReplicaSet) (s : Db)
    → NoFaults s
    → rs.metadata.name ≢ ""
    → accepted (result (store_replica_set (λ t. none) now rs s)) ≡ true
unfolding store_replica_set
store_replica_set-accepted now rs s works filled =
    ground (arith, ==_iff rs.metadata.name "", works s.executed, works (suc s.executed))

pub get_replica_set-replicas :
    (name : String) (s : Db) (rs : ReplicaSet)
    → NoFaults s
    → value_of (result (get_replica_set name s)) ≡ some rs
    → replicas_in (select name s.replicasets) ≡ some rs.spec.replicas
unfolding get_replica_set replica_set_of_row
get_replica_set-replicas name s rs works h = elim (Option-cases (select name s.replicasets)) [
  | inl e ↦ cc (rw (works s.executed, e, get_replica_set) at h)
  | inr (r, e) ↦
      let same : replica_set_of_row r ≡ rs = cc (rw (works s.executed, e, get_replica_set) at h) in
      rw e (ap (λ x. some x.spec.replicas) same)
]

abbrev new_row : ℕ → ReplicaSet → ObjectRow ReplicaSetSpec ReplicaSetStatus
new_row now rs = record {
  namespace = ns_or_default rs.metadata.namespace;
  spec = rs.spec;
  metadata = rs.metadata;
  status = record rs.status { last_updated = now };
  created_at = now;
  last_updated = now;
}

abbrev written :
    ℕ
    → ReplicaSet
    → ReplicaSetStatus
    → ObjectRow ReplicaSetSpec ReplicaSetStatus
    → ObjectRow ReplicaSetSpec ReplicaSetStatus
written now rs status r = record r {
  namespace = ns_or_default rs.metadata.namespace;
  spec = rs.spec;
  metadata = rs.metadata;
  status = status;
  last_updated = now;
}

-- The replicas under a name in the rows that an UpsertReplicaSet leaves.
upsert_replica_set-replicas :
    (now : ℕ) (rs : ReplicaSet) (s : Db) (name : String)
    → NoFaults s
    → replicas_in (select name (after (upsert_replica_set now rs s)).replicasets) ≡ (
        if rs.metadata.name == name
        then some rs.spec.replicas
        else replicas_in (select name s.replicasets))
unfolding upsert_replica_set
upsert_replica_set-replicas now rs s name works =
    elim (Option-cases (select rs.metadata.name s.replicasets)) [
      | inl e ↦ ground (
        arith,
        works s.executed,
        works (suc s.executed),
        ==_iff rs.metadata.name name,
        select-append rs.metadata.name name (new_row now rs) s.replicasets,
      )
      | inr (r, e) ↦ ground (
        arith,
        works s.executed,
        works (suc s.executed),
        ==_iff rs.metadata.name name,
        select-update rs.metadata.name name (written now rs r.status) s.replicasets,
      )
    ]

store_replica_set-rows :
    (now : ℕ) (rs : ReplicaSet) (s : Db)
    → (rs.metadata.name == "") ≡ false
    → (after (store_replica_set (λ t. none) now rs s)).replicasets
      ≡ (after (
          upsert_replica_set now
            (record rs { api_version = "apps/v1"; kind = "ReplicaSet" })
            s)).replicasets
unfolding store_replica_set
store_replica_set-rows now rs s filled = ground (arith, filled)

pub status-replicas :
    (now : ℕ) (d name : String) (st : DeploymentStatus) (s : Db)
    → replicas_in (select name (after (update_deployment_status now d st s)).replicasets)
      ≡ replicas_in (select name s.replicasets)
unfolding update_deployment_status
status-replicas now d name st s = ground arith

-- The server at the time `now`.
abbrev pub store_server : ℕ → DeploymentClient
store_server now = record {
  State = Works;
  get_replica_set = λ name w. value_of (result (get_replica_set name w.0));
  create_replica_set = λ rs w. (
    accepted (result (store_replica_set (λ t. none) now rs w.0)),
    (after (store_replica_set (λ t. none) now rs w.0), store_replica_set-NoFaults now rs w.0 w.1),
  );
  update_deployment_status = λ name st w. (
    true,
    (
      after (update_deployment_status now name st w.0),
      update_deployment_status-NoFaults now name st w.0 w.1,
    ),
  );
}

unnamed_refused :
    (now : ℕ) (rs : ReplicaSet) (s : Db)
    → (rs.metadata.name == "") ≡ true
    → (result (store_replica_set (λ t. none) now rs s) ≡ ok (error 400))
      × ((after (store_replica_set (λ t. none) now rs s)).replicasets ≡ s.replicasets)
unfolding store_replica_set
unnamed_refused now rs s e = (rw (e, store_replica_set) refl, rw (e, store_replica_set) refl)

pub store_server-posts :
    (now : ℕ) (rs : ReplicaSet) (s : Db)
    → NoFaults s
    → accepted (result (store_replica_set (λ t. none) now rs s)) ≡ true
    → replicas_in
        (select rs.metadata.name (after (store_replica_set (λ t. none) now rs s)).replicasets)
      ≡ some rs.spec.replicas
store_server-posts now rs s works h = elim (Bool-cases (rs.metadata.name == "")) [
  | inl e ↦ cc (ap accepted (sym (unnamed_refused now rs s e).0) ∙ h)
  | inr e ↦ rw (store_replica_set-rows now rs s e) (
      upsert_replica_set-replicas now (record rs { api_version = "apps/v1"; kind = "ReplicaSet" }) s
        rs.metadata.name works
      ∙ rw (==_refl rs.metadata.name) refl)
]

pub store_server-posts_one :
    (now : ℕ) (rs : ReplicaSet) (s : Db) (name : String)
    → NoFaults s
    → name ≢ rs.metadata.name
    → replicas_in (select name (after (store_replica_set (λ t. none) now rs s)).replicasets)
      ≡ replicas_in (select name s.replicasets)
store_server-posts_one now rs s name works other = elim (Bool-cases (rs.metadata.name == "")) [
  | inl e ↦ ap (λ rows. replicas_in (select name rows)) (unnamed_refused now rs s e).1
  | inr e ↦ rw (store_replica_set-rows now rs s e) (
      upsert_replica_set-replicas now (record rs { api_version = "apps/v1"; kind = "ReplicaSet" }) s
        name works
      ∙ ground (arith, ==_iff rs.metadata.name name, other))
]

abbrev pub store_server-IsFaithful : (now : ℕ) → IsFaithful (store_server now)
store_server-IsFaithful now = record {
  replicas_of = λ name w. replicas_in (select name w.0.replicasets);
  reads = λ name w rs e. get_replica_set-replicas name w.0 rs w.1 e;
  posts = λ rs w e. store_server-posts now rs w.0 w.1 e;
  posts_one = λ rs w name other. store_server-posts_one now rs w.0 name w.1 other;
  status_kept = λ d name st w. status-replicas now d name st w.0;
}

pub store_server-PostsWork : (now : ℕ) → PostsWork (store_server now)
store_server-PostsWork now rs w filled = store_replica_set-accepted now rs w.0 w.1 filled
