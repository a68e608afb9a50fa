-- ===== src/Protocol.antt =====
-- The protocol between the plugin and the connector: package protocol/.
mod Messages
mod Utils
mod Commands
pub mod DirKey
unfoldable pub use Messages.*
unfoldable pub use Utils.*
unfoldable pub use Commands.*
