-- ===== src/Api/Networking.antt =====
-- mvp/internal/api/types.go: Service, Endpoints and NetworkPolicy.
use kubernetes_style_orchest.Prelude.{ℕ, String, List, StringMap}
use kubernetes_style_orchest.Prelude.Int.{ℤ}
use kubernetes_style_orchest.Api.Objects.{Metadata}

abbrev pub service_type_cluster_ip : String
service_type_cluster_ip = "ClusterIP"

pub record ServicePort : Type 0 where
  pub name : String
  pub port : ℤ
  pub target_port : ℤ
  pub protocol : String

pub record ServiceSpec : Type 0 where
  pub selector : StringMap String
  pub ports : List ServicePort
  pub type : String
  pub cluster_ip : String

pub record ServiceStatus : Type 0 where
  pub last_updated : ℕ

pub record Service : Type 0 where
  pub api_version : String
  pub kind : String
  pub metadata : Metadata
  pub spec : ServiceSpec
  pub status : ServiceStatus

pub record EndpointAddress : Type 0 where
  pub ip : String
  pub port : ℤ
  pub node_name : String
  pub pod_name : String

pub record Endpoints : Type 0 where
  pub api_version : String
  pub kind : String
  pub metadata : Metadata
  pub subsets : List EndpointAddress
  pub last_updated : ℕ

pub record NetPolPeer : Type 0 where
  pub pod_selector : StringMap String

pub record NetPolPort : Type 0 where
  pub port : ℤ
  pub protocol : String

pub record NetPolIngressRule : Type 0 where
  pub from : List NetPolPeer
  pub ports : List NetPolPort

pub record NetPolSpec : Type 0 where
  pub pod_selector : StringMap String
  pub ingress : List NetPolIngressRule
  pub policy_types : List String

pub record NetworkPolicy : Type 0 where
  pub api_version : String
  pub kind : String
  pub metadata : Metadata
  pub spec : NetPolSpec
