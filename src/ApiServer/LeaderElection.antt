-- ===== src/ApiServer/LeaderElection.antt =====
-- mvp/cmd/apiserver/main.go: the loop of `runLeaderElected`, one tick at a time.
pub mod Leading
use kubernetes_style_orchest.Prelude.{ℕ, String, Bool, true, false, not, ◌&&◌, if◌then◌else◌}
use kubernetes_style_orchest.Sql.{M, Result, ok, err, ◌>>=◌, pure, attempt}
use kubernetes_style_orchest.Store.Leases.{try_acquire_lease}

-- What a tick does with the controllers.
pub data Action : Type 0 where
  nothing start_controllers stop_controllers : Action

-- The branches after the lease was asked for, with the flag `leading` that they leave.
unfoldable pub tick_after : Bool → Result (Bool × String) → Bool × Action
tick_after leading (err e) = (leading, nothing)
tick_after leading (ok (got, holder)) =
    if got && not leading
    then (true, start_controllers)
    else if not got && leading
    then (false, stop_controllers)
    else (leading, nothing)

unfoldable pub tick : String → String → ℕ → ℕ → Bool → M (Bool × Action)
unfolding tick_after
tick name identity ttl now leading = do
  answer ← attempt (try_acquire_lease name identity ttl now)
  pure (tick_after leading answer)
