-- ===== src/Tests/LeaderElection.antt =====
-- mvp/cmd/apiserver/main.go: a replica that takes a free lease, and one that keeps leading on an error.
use kubernetes_style_orchest.Prelude.{◌*◌, string_eq, true, false, some, ◌≡◌, refl, ◌⊎◌}
use kubernetes_style_orchest.Db.{Db}
use kubernetes_style_orchest.Sql.{Error, ok, err, result, after}
use kubernetes_style_orchest.Sql.Rows.{select}
use kubernetes_style_orchest.Store.Leases.{second, try_acquire_lease}
use kubernetes_style_orchest.Store.Leases.Exclusion.{term_from}
use kubernetes_style_orchest.ApiServer.LeaderElection.{tick, start_controllers, nothing}
use kubernetes_style_orchest.ApiServer.LeaderElection.Leading.{tick-leading}
use kubernetes_style_orchest.Tests.Data.{no_rows}

tick-leading_example :
    (select "mgr" (after (tick "mgr" "a" (15 * second) (3 * second) false no_rows)).leases
      ≡ some (term_from "a" (15 * second) (3 * second)))
    ⊎ ((false ≡ true)
        × ((e : Error) × (result (try_acquire_lease "mgr" "a" (15 * second) (3 * second) no_rows)
              ≡ err e)))
unfolding tick select try_acquire_lease
tick-leading_example =
    tick-leading "mgr" "a" (15 * second) (3 * second) false no_rows start_controllers refl

abbrev unreachable : Db
unreachable = record no_rows { fails = λ n. true }

still_leading :
    result (tick "mgr" "a" (15 * second) (3 * second) true unreachable) ≡ ok (true, nothing)
unfolding tick try_acquire_lease
still_leading = refl
