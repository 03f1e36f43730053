-- ===== src/Update.antt =====
-- internal/update: the self-update of the agent.
pub mod Version
pub mod Assets
pub mod Sums
pub mod Disk
pub mod Download
pub mod Extract
pub mod Method
pub mod Plan
pub mod Report
pub mod Updater
pub mod Attempt
