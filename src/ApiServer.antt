-- ===== src/ApiServer.antt =====
-- mvp/cmd/apiserver: the API server.
pub mod ClusterIps
pub mod LeaderElection
pub mod Http
pub mod Guard
pub mod Handlers
pub mod Routes
pub mod Invariant
