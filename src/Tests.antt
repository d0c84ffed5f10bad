-- ===== src/Tests.antt =====
-- The theorems at concrete inputs, and runs of the definitions.
pub mod Data
pub mod Leases
pub mod Pods
pub mod Policies
pub mod Access
pub mod ReplicaSets
pub mod Admission
pub mod CustomResources
pub mod Services
pub mod Deployments
pub mod ClusterIps
pub mod StoredServices
pub mod Tokens
pub mod Hpas
pub mod Federation
pub mod LeaderElection
pub mod ServerData
pub mod Requests
pub mod Nodes
pub mod StoreServer
pub mod PodRows
pub mod PodServer
pub mod Hooks
