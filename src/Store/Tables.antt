-- ===== src/Store/Tables.antt =====
-- The tables of mvp/internal/store/store.go and store_m6.go, and `nsOrDefault`.
use kubernetes_style_orchest.Prelude.{String, ◌==◌, string_eq, if◌then◌else◌}
use kubernetes_style_orchest.Api.{
  ReplicaSetSpec, ReplicaSetStatus, DeploymentSpec, DeploymentStatus, HpaSpec, HpaStatus,
  FederatedDeploymentSpec, FederatedDeploymentStatus,
}
use kubernetes_style_orchest.Db.{
  PodRow, ObjectRow, ServiceRow, EndpointsRow, NodeRow, CrdRow, CustomResourceRow, UserRow, RoleRow,
  RoleBindingRow, LeaseRow, WebhookRow, NetworkPolicyRow, ClusterRow,
}
use kubernetes_style_orchest.Sql.{Table}

abbrev pub pods : Table String PodRow
pods = record { rows = λ s. s.pods; with_rows = λ t s. record s { pods = t } }

abbrev pub replicasets : Table String (ObjectRow ReplicaSetSpec ReplicaSetStatus)
replicasets = record { rows = λ s. s.replicasets; with_rows = λ t s. record s { replicasets = t } }

abbrev pub deployments : Table String (ObjectRow DeploymentSpec DeploymentStatus)
deployments = record { rows = λ s. s.deployments; with_rows = λ t s. record s { deployments = t } }

abbrev pub services : Table String ServiceRow
services = record { rows = λ s. s.services; with_rows = λ t s. record s { services = t } }

abbrev pub endpoints : Table String EndpointsRow
endpoints = record { rows = λ s. s.endpoints; with_rows = λ t s. record s { endpoints = t } }

abbrev pub nodes : Table String NodeRow
nodes = record { rows = λ s. s.nodes; with_rows = λ t s. record s { nodes = t } }

abbrev pub crds : Table String CrdRow
crds = record { rows = λ s. s.crds; with_rows = λ t s. record s { crds = t } }

abbrev pub custom_resources : Table (String × String) CustomResourceRow
custom_resources = record {
  rows = λ s. s.custom_resources;
  with_rows = λ t s. record s { custom_resources = t };
}

abbrev pub users : Table String UserRow
users = record { rows = λ s. s.users; with_rows = λ t s. record s { users = t } }

abbrev pub roles : Table (String × String) RoleRow
roles = record { rows = λ s. s.roles; with_rows = λ t s. record s { roles = t } }

abbrev pub role_bindings : Table (String × String) RoleBindingRow
role_bindings = record {
  rows = λ s. s.role_bindings;
  with_rows = λ t s. record s { role_bindings = t };
}

abbrev pub leases : Table String LeaseRow
leases = record { rows = λ s. s.leases; with_rows = λ t s. record s { leases = t } }

abbrev pub admission_webhooks : Table String WebhookRow
admission_webhooks = record {
  rows = λ s. s.admission_webhooks;
  with_rows = λ t s. record s { admission_webhooks = t };
}

abbrev pub hpas : Table String (ObjectRow HpaSpec HpaStatus)
hpas = record { rows = λ s. s.hpas; with_rows = λ t s. record s { hpas = t } }

abbrev pub network_policies : Table String NetworkPolicyRow
network_policies = record {
  rows = λ s. s.network_policies;
  with_rows = λ t s. record s { network_policies = t };
}

abbrev pub clusters : Table String ClusterRow
clusters = record { rows = λ s. s.clusters; with_rows = λ t s. record s { clusters = t } }

abbrev pub federated_deployments :
    Table String (ObjectRow FederatedDeploymentSpec FederatedDeploymentStatus)
federated_deployments = record {
  rows = λ s. s.federated_deployments;
  with_rows = λ t s. record s { federated_deployments = t };
}

unfoldable pub ns_or_default : String → String
ns_or_default ns = if ns == "" then "default" else ns
