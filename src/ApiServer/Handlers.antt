-- ===== src/ApiServer/Handlers.antt =====
-- mvp/cmd/apiserver/main.go and m6.go: the handlers of the API server. One reading of the clock,
-- `now`, serves a whole request. `read` decodes a body.
pub mod Pods
pub mod Services
pub mod Endpoints
pub mod Nodes
pub mod Workloads
pub mod Deployments
pub mod Scaling
pub mod Custom
pub mod Access
pub mod Policies
pub mod Federation
pub mod Leases
