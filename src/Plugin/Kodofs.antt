-- ===== src/Plugin/Kodofs.antt =====
-- The KodoFS side of the plugin.
mod Parameters
pub mod Bounds
pub mod Slips
mod Calls
mod Archive
pub mod Endless
pub mod Server
pub mod Delete
pub mod Removal
pub mod Lifecycle
pub mod Survive
unfoldable pub use Parameters.*
unfoldable pub use Calls.*
unfoldable pub use Archive.*
