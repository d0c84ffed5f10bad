-- ===== src/Store.antt =====
-- mvp/internal/store: the methods of `*Store`, each an action on the database.
pub mod Tables
pub mod Pods
pub mod Workloads
pub mod Services
pub mod Nodes
pub mod Custom
pub mod Access
pub mod Leases
pub mod Scaling
pub mod Members
pub mod Reading
