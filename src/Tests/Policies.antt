-- ===== src/Tests/Policies.antt =====
-- mvp/internal/netpol/netpol.go: one policy that lets the pods of app=web reach app=db on 5432.
use kubernetes_style_orchest.Prelude.{
  string_eq, true, false, Option, none, some, ◌≡◌, refl, ◌↔◌, ◌⊎◌, List, [], ◌∷◌,
}
use kubernetes_style_orchest.Prelude.Int.{pos}
use kubernetes_style_orchest.Api.{NetworkPolicy, Pod}
use kubernetes_style_orchest.NetPol.{evaluate, labels_of}
use kubernetes_style_orchest.NetPol.Decisions.{Unselected, Permitted, evaluate_iff}
use kubernetes_style_orchest.Tests.Data.{named, pod_of}

abbrev db_policy : NetworkPolicy
db_policy = record {
  api_version = "networking.mk.io/v1";
  kind = "NetworkPolicy";
  metadata = named "db-allow-web" [];
  spec = record {
    pod_selector = ("app", "db") ∷ [];
    ingress =
        record {
          from = record { pod_selector = ("app", "web") ∷ [] } ∷ [];
          ports = record { port = pos 5432; protocol = "TCP" } ∷ [];
        }
        ∷ [];
    policy_types = [];
  };
}

abbrev web : Pod
web = pod_of "web" (("app", "web") ∷ []) "Running"

abbrev db : Pod
db = pod_of "db" (("app", "db") ∷ []) "Running"

abbrev policies : List (Option NetworkPolicy)
policies = none ∷ some db_policy ∷ []

evaluate_iff_example : ((evaluate policies (some web) (some db) (pos 5432)).allowed ≡ true) ↔ (
    Unselected policies db.metadata.labels
    ⊎ Permitted policies (labels_of (some web)) db.metadata.labels (pos 5432))
evaluate_iff_example = evaluate_iff policies (some web) db (pos 5432)

web_reaches_db : (evaluate policies (some web) (some db) (pos 5432)).allowed ≡ true
unfolding evaluate
web_reaches_db = refl

other_port : (evaluate policies (some web) (some db) (pos 80)).allowed ≡ false
unfolding evaluate
other_port = refl
