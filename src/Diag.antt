-- ===== src/Diag.antt =====
-- src/ara/diag: the diagnostic services.
pub mod SecurityAccess
pub mod Debouncer
pub mod Event
pub mod Monitor
pub mod DtcInformation
pub mod Routing
pub mod Transfer
pub mod Tests
