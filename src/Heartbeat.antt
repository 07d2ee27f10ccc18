-- ===== src/Heartbeat.antt =====
-- internal/heartbeat: the heartbeat monitors, with the part of internal/store/heartbeats.go that keeps
-- their rows.
pub mod Model
pub mod Store
pub mod Pings
pub mod Transitions
pub mod Service
pub mod Edits
pub mod Rows
pub mod Invariant
pub mod Preserve
pub mod Safety
pub mod Outcomes
pub mod Callbacks
