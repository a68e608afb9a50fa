-- ===== src/Plugin/Kodo.antt =====
-- Kodo volumes: plugin/kodo_parameters.go and plugin/kodo_controller_server.go.
mod StorageClass
mod Volume
mod Calls
mod Create
mod Delete
pub mod Provision
pub mod Teardown
pub mod Lifecycle
pub mod Resolve
mod Swap
pub mod Order
mod Context
mod Load
pub mod RoundTrip
pub mod Survive
pub mod Arrive
unfoldable pub use StorageClass.*
unfoldable pub use Context.*
unfoldable pub use Volume.*
unfoldable pub use Calls.*
unfoldable pub use Create.*
unfoldable pub use Delete.*
