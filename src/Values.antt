-- ===== src/Values.antt =====
-- internal/values: configuration values, from ConfigMaps and Secrets to `--set` arguments.
pub mod Merge
pub mod Escape
pub mod SetFlags
pub mod Yaml
pub mod Fetch
pub mod Resolver
