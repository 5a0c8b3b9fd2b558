-- ===== src/Testing.antt =====
-- internal/testing: helpers that the tests of the program share.
pub mod SetFlags
