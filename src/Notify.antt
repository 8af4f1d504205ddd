-- ===== src/Notify.antt =====
-- inspect/notify: which alerts are mailed, and when.
pub mod Item
pub mod Clock
pub mod Trigger
pub mod Persistence
pub mod Alerts
pub mod Demote
pub mod HtmlFrag
pub mod Signature
pub mod Dispatch
pub mod Config
pub mod Email
