-- ===== src/Com/Discovery.antt =====
-- src/ara/com/someip/sd: the agents of the service discovery.
pub mod Server
pub mod Timer
pub mod Endpoint
pub mod Client
pub mod Wire
pub mod Handshake
pub mod Tests
