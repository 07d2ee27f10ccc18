-- ===== src/Tests.antt =====
-- The theorems at concrete inputs.
mod Alerts
mod Certificates
mod Endpoints
mod Escalations
mod Heartbeats
mod Licenses
mod Postures
mod Spools
mod Timers
