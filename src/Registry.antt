-- ===== src/Registry.antt =====
-- internal/registry: polling an OCI registry.
pub mod Backoff
pub mod Etag
pub mod Client
