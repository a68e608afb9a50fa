-- ===== src/Qiniu.antt =====
-- The client of the object storage: package qiniu/.
mod Objects
mod Cache
mod Client
pub mod Batches
pub mod Listing
pub mod Cleaning
pub mod Freshness
pub mod Regions
pub mod Iam
pub mod Pages
pub mod Served
pub mod Kinds
pub mod Calls
pub mod Panics
pub mod Answers
pub mod Kodofs
pub mod Workers
pub mod Signing
pub mod Verifies
pub mod Existence
unfoldable pub use Objects.*
unfoldable pub use Cache.*
unfoldable pub use Client.*
