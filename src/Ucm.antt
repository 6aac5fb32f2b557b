-- ===== src/Ucm.antt =====
-- src/ara/ucm: update and configuration management.
pub mod Environment
pub mod PackageManager
pub mod Tests
