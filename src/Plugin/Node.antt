-- ===== src/Plugin/Node.antt =====
-- The node servers of Kodo and of KodoFS volumes.
mod Server
pub mod Publish
pub mod Mounts
pub mod Kodofs
pub mod Table
pub mod Composition
pub mod Journey
unfoldable pub use Server.*
