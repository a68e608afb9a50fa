-- ===== src/Plugin/Mount.antt =====
-- The plugin's end of the connection: mountKodo, mountKodoFS and cleanAfterKodoUmount in
-- plugin/utils.go.
mod Loop
pub mod Local
pub mod Questions
pub mod Wire
pub mod Heard
mod Command
pub mod Verdict
pub mod Session
unfoldable pub use Loop.*
unfoldable pub use Command.*
