-- ===== src/Alert.antt =====
-- internal/alert: the alert records, the CSV filters, the routing rules, the dispatch of notifications
-- and the alert engine.
pub mod Model
pub mod Csv
pub mod Routing
pub mod Deps
pub mod Dispatch
pub mod Engine
pub mod Operations
