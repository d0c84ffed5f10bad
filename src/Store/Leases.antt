-- ===== src/Store/Leases.antt =====
-- mvp/internal/store/store.go: leases for leader election. Times and durations count nanoseconds.
pub mod Exclusion
pub mod History
use kubernetes_style_orchest.Prelude.{
  ℕ, ◌-◌, ◌*◌, ◌/◌, String, ◌==◌, string_eq, Bool, true, false, ◌||◌, ltb, if◌then◌else◌,
}
use kubernetes_style_orchest.Db.{LeaseRow}
use kubernetes_style_orchest.Sql.{
  M, Result, ok, err, not_found, failed, ◌>>=◌, ◌>>◌, pure, raise, attempt, ignore, query_row,
  query_all, insert_into, insert_or_update, update_where, delete_where, require_row,
}
use kubernetes_style_orchest.Sql.{transaction, commit}
use kubernetes_style_orchest.Store.Tables.{leases}

abbrev pub second : ℕ
second = 1000000000

-- `now.Sub(renew) > time.Duration(ttlSec)*time.Second`
unfoldable pub lease_expired : ℕ → LeaseRow → Bool
lease_expired now l = ltb (l.ttl_seconds * second) (now - l.renew_time)

-- The lease as `identity` writes it, with `int(ttl.Seconds())`.
unfoldable pub renewed_lease : String → ℕ → ℕ → LeaseRow
renewed_lease identity ttl now = record {
  holder = identity;
  renew_time = now;
  ttl_seconds = ttl / second;
}

-- The rest of `TryAcquireLease`, after the row was read.
unfoldable pub acquire_after : String → String → ℕ → ℕ → Result LeaseRow → M (Bool × String)
unfolding lease_expired renewed_lease insert_into update_where commit
acquire_after name identity ttl now (err not_found) = do
  insert_into leases name (renewed_lease identity ttl now)
  commit
  pure (true, identity)
acquire_after name identity ttl now (err failed) = raise failed
acquire_after name identity ttl now (ok l) =
    if l.holder == identity || lease_expired now l
    then (do
      n ← update_where leases name (λ _. renewed_lease identity ttl now)
      commit
      pure (true, identity))
    else pure (false, l.holder)

unfoldable pub try_acquire_lease : String → String → ℕ → ℕ → M (Bool × String)
unfolding transaction query_row acquire_after
try_acquire_lease name identity ttl now =
    transaction do row ← attempt (query_row leases name); acquire_after name identity ttl now row

unfoldable pub get_lease : String → M LeaseRow
unfolding query_row
get_lease name = query_row leases name
