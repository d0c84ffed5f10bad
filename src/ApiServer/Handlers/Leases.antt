-- ===== src/ApiServer/Handlers/Leases.antt =====
-- mvp/cmd/apiserver/main.go: who holds a lease. Durations count nanoseconds.
use kubernetes_style_orchest.Prelude.{
  ℕ, ◌+◌, ◌*◌, String, ◌==◌, string_eq, Bool, trim_prefix, if◌then◌else◌,
}
use kubernetes_style_orchest.Prelude.Int.{ℤ, difference}
use kubernetes_style_orchest.Db.{LeaseRow}
use kubernetes_style_orchest.Sql.{M, ◌>>=◌, pure}
use kubernetes_style_orchest.Store.Leases.{get_lease, second}
use kubernetes_style_orchest.ApiServer.Http.{HttpRequest, Reply, error, reply_object}

pub record LeaseInfo : Type 0 where
  pub name : String
  pub holder : String
  pub renew_time : ℕ
  pub ttl_seconds : ℕ
  pub expires_in : ℤ
  pub this_replica : String
  pub is_this_replica : Bool

unfoldable pub lease_info : String → String → ℕ → LeaseRow → LeaseInfo
lease_info identity name now l = record {
  name = name;
  holder = l.holder;
  renew_time = l.renew_time;
  ttl_seconds = l.ttl_seconds;
  expires_in = difference (l.ttl_seconds * second + l.renew_time) now;
  this_replica = identity;
  is_this_replica = l.holder == identity;
}

-- Every method is served alike.
unfoldable pub handle_lease : String → ℕ → HttpRequest → M (Reply LeaseInfo)
unfolding trim_prefix reply_object get_lease lease_info
handle_lease identity now r =
    let name = trim_prefix "/apis/coordination.mk.io/v1/leases/" r.path in
    if name == ""
    then pure (error 400)
    else reply_object do l ← get_lease name; pure (lease_info identity name now l)
