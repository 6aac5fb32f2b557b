-- ===== src/Phm.antt =====
-- src/ara/phm: the supervisions of platform health management.
pub mod Elementary
pub mod Alive
pub mod Deadline
pub mod Global
pub mod Tests
