-- ===== src/License.antt =====
-- internal/commercial/license: the grace of a build released after the update window.
pub mod Window
pub mod Manager
