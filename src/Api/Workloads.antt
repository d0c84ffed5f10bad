-- ===== src/Api/Workloads.antt =====
-- mvp/internal/api/types.go: ReplicaSet, Deployment and HorizontalPodAutoscaler.
use kubernetes_style_orchest.Prelude.{ℕ, String, StringMap}
use kubernetes_style_orchest.Prelude.Int.{ℤ}
use kubernetes_style_orchest.Api.Objects.{Metadata, PodSpec}

pub record PodTemplate : Type 0 where
  pub metadata : Metadata
  pub spec : PodSpec

pub record ReplicaSetSpec : Type 0 where
  pub replicas : ℤ
  pub selector : StringMap String
  pub template : PodTemplate

pub record ReplicaSetStatus : Type 0 where
  pub replicas : ℤ
  pub ready_replicas : ℤ
  pub last_updated : ℕ

pub record ReplicaSet : Type 0 where
  pub api_version : String
  pub kind : String
  pub metadata : Metadata
  pub spec : ReplicaSetSpec
  pub status : ReplicaSetStatus

pub record DeploymentSpec : Type 0 where
  pub replicas : ℤ
  pub selector : StringMap String
  pub template : PodTemplate
  pub strategy : String

pub record DeploymentStatus : Type 0 where
  pub replicas : ℤ
  pub ready_replicas : ℤ
  pub last_updated : ℕ

pub record Deployment : Type 0 where
  pub api_version : String
  pub kind : String
  pub metadata : Metadata
  pub spec : DeploymentSpec
  pub status : DeploymentStatus

pub record HpaMetric : Type 0 where
  pub type : String
  pub name : String
  pub target_average_value : ℤ

pub record ScaleTargetRef : Type 0 where
  pub kind : String
  pub name : String

pub record HpaSpec : Type 0 where
  pub scale_target_ref : ScaleTargetRef
  pub min_replicas : ℤ
  pub max_replicas : ℤ
  pub metric : HpaMetric

pub record HpaStatus : Type 0 where
  pub current_replicas : ℤ
  pub desired_replicas : ℤ
  pub current_average_value : ℤ
  pub last_scale_time : ℕ
  pub last_updated : ℕ

pub record Hpa : Type 0 where
  pub api_version : String
  pub kind : String
  pub metadata : Metadata
  pub spec : HpaSpec
  pub status : HpaStatus
