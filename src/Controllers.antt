-- ===== src/Controllers.antt =====
-- mvp/internal/controllers: the reconciliation loops.
pub mod Client
pub mod Deployments
pub mod Hpas
pub mod ReplicaSets
pub mod Services
