-- ===== src/Exec.antt =====
-- src/ara/exec: the services of execution management.
pub mod Common
pub mod StateServer
pub mod ExecutionServer
pub mod Tests
