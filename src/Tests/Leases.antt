-- ===== src/Tests/Leases.antt =====
-- mvp/internal/store/store.go: two replicas and one lease.
use kubernetes_style_orchest.Prelude.{
  zero, suc, string_eq, true, false, some, ◌≡◌, refl, List, [], ◌∷◌, arith, inr, ◌⊎◌, ◌*◌,
}
use kubernetes_style_orchest.Db.{Db, LeaseRow}
use kubernetes_style_orchest.Sql.Rows.{select}
use kubernetes_style_orchest.Store.Leases.{second}
use kubernetes_style_orchest.Store.Leases.Exclusion.{
  try_acquire_lease_error, may_take_acquires, Acquired, Faulty, Fails, Answers,
}
use kubernetes_style_orchest.Store.Leases.History.{Attempt, run, winners, lease_exclusion}
use kubernetes_style_orchest.Tests.Data.{no_rows, told_apart}

abbrev held_by_a : LeaseRow
held_by_a = record { holder = "a"; renew_time = 100 * second; ttl_seconds = 15 }

abbrev held : Db
held = record no_rows { leases = ("controller-manager", held_by_a) ∷ [] }

abbrev rivals : List Attempt
rivals =
    record { identity = "b"; ttl = 15 * second; now = 101 * second }
    ∷ record { identity = "c"; ttl = 15 * second; now = 115 * second }
    ∷ []

lease_exclusion_example :
    (winners "controller-manager" rivals held ≡ [])
    × (select "controller-manager" (run "controller-manager" rivals held).leases ≡ some held_by_a)
unfolding select
lease_exclusion_example =
    lease_exclusion "controller-manager" held_by_a rivals held refl
      (told_apart "b" "a" refl, omega arith, (told_apart "c" "a" refl, omega arith, tt))

may_take_acquires_example : Acquired "controller-manager" "b" (15 * second) (116 * second) held
unfolding select
may_take_acquires_example =
    may_take_acquires "controller-manager" "b" (15 * second) (116 * second) held (λ n. refl)
      (inr (omega arith))

-- The driver fails the second statement.
abbrev flaky : Db
flaky = record held { fails = λ n. elim n [ zero ↦ false | suc m ↦ true ] }

try_acquire_lease_error_example :
    (Faulty "controller-manager" "a" (15 * second) (110 * second) flaky
      × Fails "controller-manager" "a" (15 * second) (110 * second) flaky)
    ⊎ ((¬ Faulty "controller-manager" "a" (15 * second) (110 * second) flaky)
        × Answers "controller-manager" "a" (15 * second) (110 * second) flaky)
try_acquire_lease_error_example =
    try_acquire_lease_error "controller-manager" "a" (15 * second) (110 * second) flaky
