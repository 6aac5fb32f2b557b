-- ===== src/Com.antt =====
-- src/ara/com: SOME/IP messages, service discovery, remote calls, publish and subscribe, and
-- end-to-end protection.
pub mod Payload
pub mod Options
pub mod Entries
pub mod Message
pub mod Sd
pub mod Discovery
pub mod E2e
pub mod PubSub
pub mod Rpc
pub mod Tests
