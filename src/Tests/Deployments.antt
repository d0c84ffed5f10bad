-- ===== src/Tests/Deployments.antt =====
-- mvp/internal/controllers/deployment.go: one Deployment against the server over an empty database.
use kubernetes_style_orchest.Prelude.{string_eq, some, ◌≡◌, refl, [], ◌∷◌, here}
use kubernetes_style_orchest.Prelude.Int.{pos}
use kubernetes_style_orchest.Api.{Deployment}
use kubernetes_style_orchest.Controllers.Deployments.{rs_name, reconcile_each}
use kubernetes_style_orchest.Controllers.Deployments.Desired.{reconcile_each-replicas}
use kubernetes_style_orchest.Tests.Data.{named, no_rows}
use kubernetes_style_orchest.Sql.Rows.{select}
use kubernetes_style_orchest.Tests.StoreServer.{
  Works, replicas_in, store_server, store_server-IsFaithful, store_server-PostsWork,
}

abbrev web : Deployment
web = record {
  api_version = "apps/v1";
  kind = "Deployment";
  metadata = named "web" [];
  spec = record {
    replicas = pos 3;
    selector = [];
    template = record { metadata = named "" []; spec = record { containers = [] } };
    strategy = "";
  };
  status = record { replicas = pos 0; ready_replicas = pos 0; last_updated = 0 };
}

abbrev start : Works
start = (no_rows, λ n. refl)

reconcile_each-replicas_example :
    replicas_in
      (select (rs_name web) (reconcile_each (store_server 7) (web ∷ []) start).0.replicasets)
    ≡ some (pos 3)
reconcile_each-replicas_example =
    reconcile_each-replicas (store_server 7) (store_server-IsFaithful 7) (web ∷ []) start
      (store_server-PostsWork 7) ((λ e m. elim m [ ]), tt) web (here refl)
