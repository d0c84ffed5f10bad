-- ===== src/Api/Objects.antt =====
-- mvp/internal/api/types.go: metadata and pods.
use kubernetes_style_orchest.Prelude.{ℕ, String, List, StringMap}
use kubernetes_style_orchest.Prelude.Int.{ℤ}

abbrev pub phase_pending : String
phase_pending = "Pending"

abbrev pub phase_scheduled : String
phase_scheduled = "Scheduled"

abbrev pub phase_running : String
phase_running = "Running"

abbrev pub phase_succeeded : String
phase_succeeded = "Succeeded"

abbrev pub phase_failed : String
phase_failed = "Failed"

pub record Metadata : Type 0 where
  pub name : String
  pub namespace : String
  pub labels : StringMap String

pub record ContainerPort : Type 0 where
  pub name : String
  pub container_port : ℤ
  pub protocol : String

pub record ResourceRequirements : Type 0 where
  pub requests : StringMap String
  pub limits : StringMap String

pub record Container : Type 0 where
  pub name : String
  pub image : String
  pub command : List String
  pub args : List String
  pub ports : List ContainerPort
  pub resources : ResourceRequirements

pub record PodSpec : Type 0 where
  pub containers : List Container

pub record PodStatus : Type 0 where
  pub phase : String
  pub node_name : String
  pub container_id : String
  pub message : String
  pub pod_ip : String
  pub host_port : ℤ
  pub last_updated : ℕ

pub record Pod : Type 0 where
  pub api_version : String
  pub kind : String
  pub metadata : Metadata
  pub spec : PodSpec
  pub status : PodStatus
