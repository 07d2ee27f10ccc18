-- ===== src/Update.antt =====
-- internal/commercial/updates and internal/update: the risk score of an image update, and its tags.
pub mod Risk
pub mod Semver
