-- ===== src/Model.antt =====
-- inspect/model/types.go: the data that the collectors fill, the checkers grade and the
-- notifier reads. Fields that only JSON or the HTML template use are kept too.
pub mod Status
pub mod Float
pub mod Host
pub mod Component
pub mod RabbitMq
pub mod Replication
pub mod Report
