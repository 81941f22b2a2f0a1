-- ===== src/Sdo/Server.antt =====
-- canopen-core/src/sdo/server.rs: the SDO server.
pub mod State
pub mod Segmented
pub mod Block
pub mod Process
pub mod Invariant
pub mod Safety
pub mod Session
pub mod Effects
