-- ===== src/Tests.antt =====
-- The theorems at concrete inputs: a small mail configuration, reports, clusters and environments.
pub mod Data
pub mod Notify
pub mod Rounds
pub mod Checker
pub mod Settings
pub mod Runs
pub mod Procmon
pub mod Collector
pub mod Main
