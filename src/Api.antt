-- ===== src/Api.antt =====
-- The objects of the control plane: the structs of mvp/internal/api/types.go, one record to a
-- struct with the struct's fields. An `int` is a whole number, a `time.Time` a number of
-- nanoseconds with 0 for the zero time, a `map[string]string` a list of entries.
mod Objects
mod Workloads
mod Networking
mod Extensions
mod Access
mod Members
pub use Objects.*
pub use Workloads.*
pub use Networking.*
pub use Extensions.*
pub use Access.*
pub use Members.*
