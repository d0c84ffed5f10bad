-- ===== src/Tests/Data.antt =====
-- Small databases and objects that the tests share.
use kubernetes_style_orchest.Prelude.{
  ◌==◌, string_eq, ==_iff, ◌≡◌, ◌≢◌, ◌∙◌, sym, false≢true, String, false, [], StringMap,
}
use kubernetes_style_orchest.Prelude.Int.{pos}
use kubernetes_style_orchest.Api.{Metadata, Pod, PodStatus}
use kubernetes_style_orchest.Db.{Db}

abbrev pub no_rows : Db
no_rows = record {
  pods = [];
  replicasets = [];
  deployments = [];
  services = [];
  endpoints = [];
  nodes = [];
  crds = [];
  custom_resources = [];
  users = [];
  roles = [];
  role_bindings = [];
  leases = [];
  admission_webhooks = [];
  hpas = [];
  network_policies = [];
  clusters = [];
  federated_deployments = [];
  fails = λ n. false;
  executed = 0;
}

-- Strings that the code tells apart are different.
pub told_apart : (a b : String) → (a == b) ≡ false → a ≢ b
told_apart a b h e = false≢true (sym h ∙ (==_iff a b).1 e)

abbrev pub named : String → StringMap String → Metadata
named name labels = record { name = name; namespace = "default"; labels = labels }

abbrev pub status_of : String → String → PodStatus
status_of phase node = record {
  phase = phase;
  node_name = node;
  container_id = "";
  message = "";
  pod_ip = "";
  host_port = pos 0;
  last_updated = 0;
}

abbrev pub pod_of : String → StringMap String → String → Pod
pod_of name labels phase = record {
  api_version = "v1";
  kind = "Pod";
  metadata = named name labels;
  spec = record { containers = [] };
  status = status_of phase "";
}
