-- ===== src/Db.antt =====
-- The database behind mvp/internal/store: one list of rows to each table that `migrate` and
-- `EnsureM6Tables` create, with the columns of its CREATE TABLE. A row stands beside its primary
-- key. A column that holds JSON holds the value that the JSON encodes.
-- The driver (modernc.org/sqlite) is not part of the repository: `fails` says of the n-th
-- statement whether the driver reports an error for it, and the theorems hold for every `fails`.
use kubernetes_style_orchest.Prelude.{ℕ, String, Bool, List, StringMap}
use kubernetes_style_orchest.Prelude.Int.{ℤ}
use kubernetes_style_orchest.Api.{
  Metadata, PodSpec, ReplicaSetSpec, ReplicaSetStatus, DeploymentSpec, DeploymentStatus, HpaSpec,
  HpaStatus, ServiceSpec, ServiceStatus, EndpointAddress, NetPolSpec, CrdSpec, CustomResource,
  PolicyRule, RoleRef, Subject, NodeStatus, ClusterSpec, ClusterStatus, FederatedDeploymentSpec,
  FederatedDeploymentStatus,
}

pub record PodRow : Type 0 where
  pub namespace : String
  pub spec : PodSpec
  pub metadata : Metadata
  pub phase : String
  pub node_name : String
  pub container_id : String
  pub message : String
  pub pod_ip : String
  pub host_port : ℤ
  pub last_updated : ℕ
  pub created_at : ℕ

-- replicasets, deployments, hpas and federated_deployments have the same columns.
pub record ObjectRow (Spec Status : Type 0) : Type 0 where
  pub namespace : String
  pub spec : Spec
  pub metadata : Metadata
  pub status : Status
  pub created_at : ℕ
  pub last_updated : ℕ

pub record ServiceRow : Type 0 where
  pub namespace : String
  pub spec : ServiceSpec
  pub metadata : Metadata
  pub status : ServiceStatus
  pub cluster_ip : String
  pub created_at : ℕ
  pub last_updated : ℕ

pub record EndpointsRow : Type 0 where
  pub namespace : String
  pub metadata : Metadata
  pub subsets : List EndpointAddress
  pub last_updated : ℕ

pub record NodeRow : Type 0 where
  pub metadata : Metadata
  pub status : NodeStatus
  pub created_at : ℕ
  pub last_heartbeat : ℕ

pub record CrdRow : Type 0 where
  pub group_name : String
  pub version : String
  pub plural : String
  pub kind : String
  pub singular : String
  pub scope : String
  pub spec : CrdSpec
  pub metadata : Metadata
  pub created_at : ℕ

pub record CustomResourceRow : Type 0 where
  pub namespace : String
  pub body : CustomResource
  pub created_at : ℕ
  pub last_updated : ℕ

pub record UserRow : Type 0 where
  pub token : String
  pub groups : List String
  pub created_at : ℕ

pub record RoleRow : Type 0 where
  pub namespace : String
  pub rules : List PolicyRule
  pub metadata : Metadata
  pub created_at : ℕ

pub record RoleBindingRow : Type 0 where
  pub namespace : String
  pub subjects : List Subject
  pub role_ref : RoleRef
  pub metadata : Metadata
  pub created_at : ℕ

pub record LeaseRow : Type 0 where
  pub holder : String
  pub renew_time : ℕ
  pub ttl_seconds : ℕ

pub record WebhookRow : Type 0 where
  pub type : String
  pub url : String
  pub resources : List String
  pub failure_policy : String
  pub created_at : ℕ

pub record NetworkPolicyRow : Type 0 where
  pub namespace : String
  pub spec : NetPolSpec
  pub metadata : Metadata
  pub created_at : ℕ
  pub last_updated : ℕ

pub record ClusterRow : Type 0 where
  pub spec : ClusterSpec
  pub metadata : Metadata
  pub status : ClusterStatus
  pub created_at : ℕ
  pub last_updated : ℕ

pub record Db : Type 0 where
  pub pods : StringMap PodRow
  pub replicasets : StringMap (ObjectRow ReplicaSetSpec ReplicaSetStatus)
  pub deployments : StringMap (ObjectRow DeploymentSpec DeploymentStatus)
  pub services : StringMap ServiceRow
  pub endpoints : StringMap EndpointsRow
  pub nodes : StringMap NodeRow
  pub crds : StringMap CrdRow
  pub custom_resources : List ((String × String) × CustomResourceRow)
  pub users : StringMap UserRow
  pub roles : List ((String × String) × RoleRow)
  pub role_bindings : List ((String × String) × RoleBindingRow)
  pub leases : StringMap LeaseRow
  pub admission_webhooks : StringMap WebhookRow
  pub hpas : StringMap (ObjectRow HpaSpec HpaStatus)
  pub network_policies : StringMap NetworkPolicyRow
  pub clusters : StringMap ClusterRow
  pub federated_deployments :
      StringMap (ObjectRow FederatedDeploymentSpec FederatedDeploymentStatus)
  pub fails : ℕ → Bool
  pub executed : ℕ
