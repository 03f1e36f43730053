-- ===== src/Agent.antt =====
-- internal/agent: the parts of the running agent.
pub mod Coordinator
pub mod ScanRun
pub mod Performance
pub mod Spool
pub mod PackageReport
pub mod Yara
pub mod Enrollment
pub mod Events
pub mod Settings
pub mod HostScans
