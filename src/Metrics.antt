-- ===== src/Metrics.antt =====
-- internal/metrics: the host's metrics, read from the texts that the operating systems give.
pub mod Numbers
pub mod Words
pub mod Linux
pub mod Darwin
pub mod Mounts
pub mod PidStat
pub mod Memory
pub mod Collector
