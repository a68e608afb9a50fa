-- ===== src/Plugin.antt =====
-- The CSI plugin: package plugin/.
pub mod Fields
pub mod Values
mod Reading
pub mod Kodo
pub mod Kodofs
pub mod Mount
pub mod Node
pub mod Random
pub mod Logging
pub mod Startup
