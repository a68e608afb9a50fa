-- ===== src/Connector.antt =====
-- The connector daemon: package connector/.
mod Requests
mod Session
pub mod Lifecycle
pub mod Failure
pub mod Input
pub mod Files
pub mod Configuration
pub mod Streams
pub mod Startup
unfoldable pub use Requests.*
unfoldable pub use Session.*
