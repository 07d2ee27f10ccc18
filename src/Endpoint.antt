-- ===== src/Endpoint.antt =====
-- internal/endpoint: what status codes an HTTP check expects, and what its results do.
pub mod Status
pub mod Checks
