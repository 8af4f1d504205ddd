-- ===== src/Checker.antt =====
-- inspect/checker: the rules that grade what was collected. Each function returns its results and,
-- where the source writes render states back through a pointer, the coloured data.
pub mod Summary
pub mod Host
pub mod Service
pub mod Es
pub mod Replication
pub mod RabbitMq
pub mod Result
pub mod Mongo
pub mod Redis
pub mod Severity
