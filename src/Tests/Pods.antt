-- ===== src/Tests/Pods.antt =====
-- mvp/internal/store/store.go: pods that are written, updated and deleted.
use kubernetes_style_orchest.Prelude.{
  String, string_eq, ◌==◌, false, none, some, ◌≡◌, refl, [], ◌∷◌, if◌then◌else◌,
}
use kubernetes_style_orchest.Api.{Pod}
use kubernetes_style_orchest.Db.{Db}
use kubernetes_style_orchest.Sql.{result, after}
use kubernetes_style_orchest.Sql.Rows.{select, affected}
use kubernetes_style_orchest.Store.Pods.{new_pod_row, upsert_pod, update_status, delete_pod}
use kubernetes_style_orchest.Store.Pods.RoundTrip.{upserted, select-upsert_pod}
use kubernetes_style_orchest.Store.Pods.Status.{
  answer, changed, with_status, update_status_lem, delete_pod_lem,
}
use kubernetes_style_orchest.Tests.Data.{no_rows, pod_of, status_of}

abbrev web : Pod
web = pod_of "web" [] ""

abbrev one_pod : Db
one_pod = record no_rows { pods = ("web", new_pod_row 5 web) ∷ [] }

select-upsert_pod_example : select "web" (after (upsert_pod 9 web one_pod)).pods ≡ (
    if web.metadata.name == "web"
    then some (upserted 9 web (select web.metadata.name one_pod.pods))
    else select "web" one_pod.pods)
unfolding upsert_pod select
select-upsert_pod_example = select-upsert_pod 9 web one_pod refl "web"

update_status_lem_example :
    (result (update_status 9 "web" (status_of "Running" "n1") one_pod)
      ≡ answer (one_pod.fails one_pod.executed) (select "web" one_pod.pods))
    × ((k : String)
        → select k (after (update_status 9 "web" (status_of "Running" "n1") one_pod)).pods
          ≡ changed
              (one_pod.fails one_pod.executed)
              "web"
              (λ r. some (with_status 9 (status_of "Running" "n1") r))
              one_pod
              k)
update_status_lem_example = update_status_lem 9 "web" (status_of "Running" "n1") one_pod

delete_pod_lem_example :
    (result (delete_pod "web" one_pod)
      ≡ answer (one_pod.fails one_pod.executed) (select "web" one_pod.pods))
    × ((k : String)
        → select k (after (delete_pod "web" one_pod)).pods
          ≡ changed (one_pod.fails one_pod.executed) "web" (λ r. none) one_pod k)
delete_pod_lem_example = delete_pod_lem "web" one_pod

missing_pod : result (delete_pod "db" one_pod) ≡ answer false none
unfolding delete_pod affected
missing_pod = refl
