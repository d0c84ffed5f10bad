-- ===== src/Tests/Services.antt =====
-- mvp/internal/controllers/service.go: a service with one running pod behind it.
use kubernetes_style_orchest.Prelude.{
  string_eq, int_eq, Bool, ◌↔◌, ◌≡◌, refl, List, [], ◌∷◌, Member,
}
use kubernetes_style_orchest.Prelude.Int.{pos}
use kubernetes_style_orchest.Api.{Service, Pod, EndpointAddress}
use kubernetes_style_orchest.Controllers.Services.{endpoints_for}
use kubernetes_style_orchest.Controllers.Services.Backends.{endpoints_iff, Backs}
use kubernetes_style_orchest.Tests.Data.{named, pod_of, status_of}

abbrev web_service : Service
web_service = record {
  api_version = "v1";
  kind = "Service";
  metadata = named "web" [];
  spec = record {
    selector = ("app", "web") ∷ [];
    ports = record { name = ""; port = pos 80; target_port = pos 0; protocol = "TCP" } ∷ [];
    type = "ClusterIP";
    cluster_ip = "127.20.0.2";
  };
  status = record { last_updated = 0 };
}

abbrev web_pod : Pod
web_pod = record (pod_of "web-a" (("app", "web") ∷ []) "Running") {
  status = record (status_of "Running" "n1") { pod_ip = "10.0.0.1" };
}

abbrev web_address : EndpointAddress
web_address = record { ip = "10.0.0.1"; port = pos 80; node_name = "n1"; pod_name = "web-a" }

-- A sort that leaves a list of one address as it is.
abbrev as_is :
    (EndpointAddress → EndpointAddress → Bool) → List EndpointAddress → List EndpointAddress
as_is less xs = xs

endpoints_iff_example :
    Member web_address (endpoints_for as_is web_service (web_pod ∷ [])).subsets
    ↔ ((p : Pod) × Member p (web_pod ∷ []) × Backs web_service p web_address)
endpoints_iff_example =
    endpoints_iff as_is web_service (web_pod ∷ []) web_address (λ less xs x. ((λ m. m), (λ m. m)))

published :
    (endpoints_for as_is web_service (web_pod ∷ pod_of "db" [] "Running" ∷ [])).subsets
    ≡ web_address ∷ []
unfolding endpoints_for
published = refl
