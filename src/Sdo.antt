-- ===== src/Sdo.antt =====
-- canopen-core/src/sdo: the SDO protocol, its server and its client.
pub mod Abort
pub mod Protocol
pub mod Frames
pub mod Codes
pub mod Od
pub mod Crc
pub mod Validate
pub mod Server
pub mod Client
pub mod Exchange
