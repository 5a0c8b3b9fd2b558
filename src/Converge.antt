-- ===== src/Converge.antt =====
-- internal/converge: the Job that runs `werf converge`, and its logs.
pub mod JobName
pub mod Limits
pub mod Builder
pub mod Logs
