-- ===== src/Api/Members.antt =====
-- mvp/internal/api/types.go: nodes, member clusters and FederatedDeployments.
use kubernetes_style_orchest.Prelude.{ℕ, String, Bool, List}
use kubernetes_style_orchest.Prelude.Int.{ℤ}
use kubernetes_style_orchest.Api.Objects.{Metadata}
use kubernetes_style_orchest.Api.Workloads.{DeploymentSpec}

pub record NodeStatus : Type 0 where
  pub ready : Bool
  pub last_heartbeat : ℕ
  pub pod_count : ℤ
  pub address : String

pub record Node : Type 0 where
  pub api_version : String
  pub kind : String
  pub metadata : Metadata
  pub status : NodeStatus

pub record ClusterStatus : Type 0 where
  pub ready : Bool
  pub last_heartbeat : ℕ
  pub message : String

pub record ClusterSpec : Type 0 where
  pub server : String
  pub region : String

pub record Cluster : Type 0 where
  pub api_version : String
  pub kind : String
  pub metadata : Metadata
  pub spec : ClusterSpec
  pub status : ClusterStatus

pub record FederatedDeploymentSpec : Type 0 where
  pub clusters : List String
  pub template : DeploymentSpec

pub record FederatedDeploymentStatus : Type 0 where
  pub cluster_count : ℤ
  pub ready_count : ℤ
  pub last_updated : ℕ

pub record FederatedDeployment : Type 0 where
  pub api_version : String
  pub kind : String
  pub metadata : Metadata
  pub spec : FederatedDeploymentSpec
  pub status : FederatedDeploymentStatus
