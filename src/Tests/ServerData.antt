-- ===== src/Tests/ServerData.antt =====
-- A small server: what its decoders make of a body, and requests to it.
use kubernetes_style_orchest.Prelude.{ℕ, String, true, none, some, [], ◌∷◌}
use kubernetes_style_orchest.Prelude.Int.{pos}
use kubernetes_style_orchest.Api.{Pod, Hpa, Service, AdmissionReviewRequest}
use kubernetes_style_orchest.Admission.{Answer, unreachable}
use kubernetes_style_orchest.ApiServer.ClusterIps.{ClusterIpAlloc}
use kubernetes_style_orchest.ApiServer.Http.{HttpRequest}
use kubernetes_style_orchest.ApiServer.Routes.Serve.{Server}
use kubernetes_style_orchest.Tests.Data.{named, pod_of}

abbrev pub one_container : Pod
one_container = record (pod_of "web" [] "") {
  spec = record {
    containers =
        record {
          name = "main";
          image = "nginx";
          command = [];
          args = [];
          ports = [];
          resources = record { requests = []; limits = [] };
        }
        ∷ [];
  };
}

abbrev pub load_hpa : Hpa
load_hpa = record {
  api_version = "";
  kind = "";
  metadata = named "load" [];
  spec = record {
    scale_target_ref = record { kind = "Deployment"; name = "web" };
    min_replicas = pos 0;
    max_replicas = pos 4;
    metric = record { type = "cpu"; name = "cpu"; target_average_value = pos 50 };
  };
  status = record {
    current_replicas = pos 0;
    desired_replicas = pos 0;
    current_average_value = pos 0;
    last_scale_time = 0;
    last_updated = 0;
  };
}

abbrev pub web_service : Service
web_service = record {
  api_version = "";
  kind = "";
  metadata = named "web" [];
  spec = record {
    selector = ("app", "web") ∷ [];
    ports = record { name = "http"; port = pos 80; target_port = pos 8080; protocol = "TCP" } ∷ [];
    type = "ClusterIP";
    cluster_ip = "";
  };
  status = record { last_updated = 0 };
}

abbrev pub no_answer : ℕ → String → AdmissionReviewRequest → Answer
no_answer n url request = unreachable

abbrev pub small_server : Server
small_server = record {
  rbac_enforce = true;
  identity = "first";
  now = 7;
  to_lower = λ s. s;
  address = λ n. "127.20.0.9";
  post = no_answer;
  uid = λ n. "id";
  marshal_pod = λ p. "{}";
  marshal_deployment = λ d. "{}";
  unmarshal_deployment = λ text d. some d;
  read_pod = λ text. some one_container;
  read_pod_status = λ text. none;
  read_service = λ text. some web_service;
  read_endpoints = λ text. none;
  read_node = λ text. none;
  read_replica_set = λ text. none;
  read_replica_set_status = λ text. none;
  read_deployment_status = λ text. none;
  read_crd = λ text. none;
  read_custom_resource = λ text. none;
  read_user = λ text. none;
  read_role = λ text. none;
  read_role_binding = λ text. none;
  read_webhook = λ text. none;
  read_hpa = λ text. some load_hpa;
  read_hpa_status = λ text. none;
  read_net_pol = λ text. none;
  read_cluster = λ text. none;
  read_cluster_status = λ text. none;
  read_fed_deployment = λ text. none;
  read_fed_deployment_status = λ text. none;
}

abbrev pub loop_alloc : ClusterIpAlloc
loop_alloc = record { next = 1; use_loop = true }

abbrev pub post_to : String → HttpRequest
post_to path = record {
  method = "POST";
  path = path;
  authorization = "";
  query = [];
  body = some "{}";
}

abbrev pub get_from : String → HttpRequest
get_from path = record {
  method = "GET";
  path = path;
  authorization = "Bearer nobody";
  query = [];
  body = none;
}
