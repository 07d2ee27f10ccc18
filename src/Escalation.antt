-- ===== src/Escalation.antt =====
-- internal/commercial/escalation: policies, and the runs that walk an alert through the levels of one.
pub mod Model
pub mod Store
pub mod Policies
pub mod Overlap
pub mod Steps
pub mod Runner
