-- ===== src/Tests/Federation.antt =====
-- mvp/internal/federation/federation.go: two clusters, of which one is ready.
use kubernetes_style_orchest.Prelude.{
  String, string_eq, Bool, true, false, ◌≡◌, ◌↔◌, refl, List, [], ◌∷◌, Member,
}
use kubernetes_style_orchest.Prelude.Int.{pos}
use kubernetes_style_orchest.Api.{Cluster, FederatedDeployment, Deployment}
use kubernetes_style_orchest.Federation.{reconcile_one, deployment_for}
use kubernetes_style_orchest.Federation.Recipients.{record_push, Targets, reconcile_one-recipients}
use kubernetes_style_orchest.Tests.Data.{named}

abbrev cluster_of : String → Bool → Cluster
cluster_of name ready = record {
  api_version = "federation.mk.io/v1";
  kind = "Cluster";
  metadata = named name [];
  spec = record { server = name; region = "" };
  status = record { ready = ready; last_heartbeat = 0; message = "" };
}

abbrev clusters : List Cluster
clusters = cluster_of "eu" true ∷ cluster_of "us" false ∷ []

abbrev web : FederatedDeployment
web = record {
  api_version = "federation.mk.io/v1";
  kind = "FederatedDeployment";
  metadata = named "web" [];
  spec = record {
    clusters = [];
    template = record {
      replicas = pos 2;
      selector = [];
      template = record { metadata = named "" []; spec = record { containers = [] } };
      strategy = "";
    };
  };
  status = record { cluster_count = pos 0; ready_count = pos 0; last_updated = 0 };
}

abbrev all_work : String → Bool
all_work server = true

abbrev eu_post : String × Deployment
eu_post = ("eu", deployment_for web (cluster_of "eu" true))

reconcile_one-recipients_example :
    Member eu_post (reconcile_one (record_push all_work) web clusters []).1 ↔ (
      (cl : Cluster) × Member cl clusters
      × Targets web cl
      × (cl.status.ready ≡ true)
      × (eu_post ≡ (cl.spec.server, deployment_for web cl)))
reconcile_one-recipients_example = reconcile_one-recipients all_work web clusters eu_post

one_of_two_ready : (reconcile_one (record_push all_work) web clusters []).0.ready_count ≡ pos 1
unfolding reconcile_one
one_of_two_ready = refl
