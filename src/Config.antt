-- ===== src/Config.antt =====
-- inspect/config: the settings of a run, read from environment variables.
pub mod Thresholds
pub mod Env
pub mod Settings
pub mod Hosts
pub mod Load
