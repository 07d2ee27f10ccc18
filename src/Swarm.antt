-- ===== src/Swarm.antt =====
-- internal/swarm: the crash-loop detector of Swarm services.
pub mod CrashLoop
