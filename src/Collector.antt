-- ===== src/Collector.antt =====
-- inspect/collector: what is asked of the outer world, and how the answers become the data of a
-- report. The answers of drivers, commands and remote hosts are arguments of the definitions.
pub mod Probe
pub mod Redis
pub mod Sentinel
pub mod Replication
pub mod RabbitMq
pub mod Json
pub mod RabbitApi
pub mod Disk
pub mod Sections
pub mod Host
pub mod Service
pub mod HostOutput
pub mod ServiceCommand
pub mod Registry
pub mod BkDeps
pub mod Es
pub mod Mongo
pub mod Mysql
pub mod Failures
