-- ===== src/ApiServer/LeaderElection/Leading.antt =====
-- mvp/cmd/apiserver/main.go: when a replica leads after a tick.
use kubernetes_style_orchest.Prelude.{
  ℕ, String, Bool, true, string_eq, ==_refl, some, ◌≡◌, refl, sym, ◌∙◌, ap, inl, inr, ◌⊎◌, arith,
}
use kubernetes_style_orchest.Db.{Db}
use kubernetes_style_orchest.Sql.{
  Run, Error, ok, err, result, after, caught, proceed, pure, returns, raises,
}
use kubernetes_style_orchest.Sql.Rows.{select}
use kubernetes_style_orchest.Sql.Laws.{select-update, select-append}
use kubernetes_style_orchest.Store.Leases.{renewed_lease, try_acquire_lease}
use kubernetes_style_orchest.Store.Leases.Exclusion.{term_from}
use kubernetes_style_orchest.ApiServer.LeaderElection.{tick_after, tick, Action}

-- Whoever is told that it has the lease is the holder of its row.
acquired_row :
    (name identity : String) (ttl now : ℕ) (s : Db) (holder : String)
    → result (try_acquire_lease name identity ttl now s) ≡ ok (true, holder)
    → select name (after (try_acquire_lease name identity ttl now s)).leases
      ≡ some (term_from identity ttl now)
unfolding try_acquire_lease renewed_lease
acquired_row name identity ttl now s holder h = ground (
  arith,
  select-append name name (renewed_lease identity ttl now) s.leases,
  select-update name name (λ _. renewed_lease identity ttl now) s.leases,
  ==_refl name,
)

tick_after-leading :
    (leading got : Bool) (holder : String) → (tick_after leading (ok (got, holder))).0 ≡ got
unfolding tick_after
tick_after-leading leading got holder = ground arith

abbrev finish : Bool → Run (Bool × String) → Run (Bool × Action)
finish leading r = proceed (λ answer. pure (tick_after leading answer)) (caught r)

finish-leading :
    (leading : Bool) (r : Run (Bool × String)) (action : Action) (P : Db → Type 0)
    → ((holder : String) → result r ≡ ok (true, holder) → P (after r))
    → result (finish leading r) ≡ ok (true, action)
    → P (after (finish leading r)) ⊎ ((leading ≡ true) × ((e : Error) × (result r ≡ err e)))
unfolding tick_after
finish-leading leading (raises e t) action P acquired h = inr (cc h, (e, refl))
finish-leading leading (returns (got, holder) t) action P acquired h =
    let led : (tick_after leading (ok (got, holder))).0 ≡ true = cc h in
    let same : got ≡ true = sym (tick_after-leading leading got holder) ∙ led in
    inl (acquired holder (ap (λ (b : Bool). ok (b, holder)) same))

-- A replica that leads after a tick is the holder of the lease, with a term of `ttl` in whole seconds that
-- begins at the tick, or led before and was answered with an error.
pub tick-leading :
    (name identity : String) (ttl now : ℕ) (leading : Bool) (s : Db) (action : Action)
    → result (tick name identity ttl now leading s) ≡ ok (true, action)
    → (select name (after (tick name identity ttl now leading s)).leases
        ≡ some (term_from identity ttl now))
      ⊎ ((leading ≡ true)
          × ((e : Error) × (result (try_acquire_lease name identity ttl now s) ≡ err e)))
unfolding tick
tick-leading name identity ttl now leading s action h =
    finish-leading leading (try_acquire_lease name identity ttl now s) action
      (λ t. select name t.leases ≡ some (term_from identity ttl now))
      (acquired_row name identity ttl now s) h
