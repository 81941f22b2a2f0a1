-- ===== src/Lib.antt =====
-- The CANopen protocol library yacob: its COB-IDs, its NMT state machine, SYNC, heartbeat,
-- emergencies, process data, LSS, its SDO server and client, and the formats in which frames leave
-- the bus.
--
-- A device of the library is a `Node` (canopen-core/src/node.rs). Each frame that it receives goes
-- to the component that its COB-ID selects: the NMT handler, the SYNC consumer, a heartbeat
-- monitor, or one of the SDO servers, which read and write the device's object dictionary. A
-- master runs an `SdoClient` against such a server. The dictionary is generated from an
-- application's description, so here it is a record of operations over an abstract state
-- (`ObjectDictionary`) that every server operation takes as an argument; what the code relies on,
-- that a read keeps within its buffer, is `ReadFits`.
--
-- The files and the code that they model (paths from the repository's root):
--   Base             numbers, lists, bytes and results; words of w bits keep their wrap-around
--   Can              canopen-core/src/transport.rs, `CanFrame`
--   CobId            canopen-core/src/cobid.rs; CobId/RoundTrip is about it
--   Nmt              canopen-core/src/nmt.rs; Nmt/Codec and Nmt/Machine are about it
--   Sync             canopen-core/src/sync.rs; Sync/Cycle and Sync/Pulses are about it
--   Heartbeat        canopen-core/src/heartbeat.rs; Heartbeat/Supervision is about it
--   Emcy             canopen-core/src/emcy.rs; Emcy/Register is about it
--   Sdo/Abort        canopen-core/src/sdo/protocol.rs, `AbortCode`; Sdo/Codes is about it
--   Sdo/Protocol     canopen-core/src/sdo/protocol.rs, frames; Sdo/Frames is about it
--   Sdo/Od           canopen-core/src/od.rs and datatypes.rs
--   Sdo/Crc          canopen-core/src/sdo/server.rs, `crc16_ccitt_update`
--   Sdo/Validate     canopen-core/src/sdo/server.rs, `validate_download` and its rules;
--                    Sdo/Validate/Plan and Sdo/Validate/Rules are about it
--   Sdo/Server       canopen-core/src/sdo/server.rs: State (the transfers, `check_timeout`,
--                    `push_event`), Segmented and Block (the handlers), Process (the dispatch);
--                    Invariant, Safety, Session and Effects are about it
--   Sdo/Client       canopen-core/src/sdo/client.rs
--   Sdo/Exchange     a client and a server on one channel
--   Pdo              canopen-core/src/pdo/engine.rs: entries, numbers and configurations; Pdo/Bits is
--                    pdo/mod.rs, and Pdo/Pack, Pdo/Tpdo and Pdo/Rpdo are the rest of engine.rs;
--                    Payload and Transfer (a TPDO's frame in an RPDO), Tpdo/Schedule, Tpdo/Timing
--                    and Rpdo/Deferred are about them
--   Lss              canopen-core/src/lss.rs; Lss/Selection and Lss/Identity are about it
--   Node             canopen-core/src/node.rs: Config (what is read from the dictionary), Channel
--                    (the response slot of an SDO server), Pulse (SYNC and RPDOs), Dispatch (a
--                    received frame) and Process (one call of `process`); Node/Reset,
--                    Node/Restart, Node/Gates, Node/Cycle, Node/Quiet and Node/Returns are
--                    about it
--   Events           canopen-core/src/events.rs; Events/Frames and Events/Decoding are about it
--   Slcan            canopen-core/src/slcan/logic.rs; Slcan/Digits and Slcan/RoundTrip are about it
--   Canwsd           canwsd-proto/src/wire.rs and filter.rs; Canwsd/Codec is about it
--   Examples         dictionaries, and the theorems applied to them
--
-- State is passed explicitly. A server handler takes the server, the request, the dictionary, the
-- event queue and the context, and gives an `Outcome`: the new server, dictionary and queue, and a
-- `Reply`, which is `respond` for `Ok(())` with the response, `silent` for `Err(())`, and
-- `panicked` where Rust would panic on a subtraction, a slice or an `unwrap`. The client's results
-- have a `panicked` of their own. A long `match` is split into functions where its arms begin.
-- The end of a download, which the code writes out in three handlers, is the one function
-- `commit`.
--
-- Loops run on the list or number that they count down; nothing needs fuel but `exchange`, which
-- takes the number of rounds, and whose theorems say how many are enough: one for the request that
-- opens the transfer and one for each seven bytes.
--
-- A node takes its transport as an argument, a function from a state and a frame to a new state and
-- whether the frame was taken; the frames that a call receives are a list. A failed assertion or
-- `unwrap` in a node is `none`.
--
-- Not modelled: the construction of a node with its assertions, the guard for changes to its
-- dictionary, and its asynchronous wrapper; the bus and the router above it; the asynchronous SDO
-- driver; the generated dictionaries and their typed changes. The transports and tools are input
-- and output.
pub mod Base
pub mod Can
pub mod Canwsd
pub mod CobId
pub mod Emcy
pub mod Events
pub mod Examples
pub mod Heartbeat
pub mod Lss
pub mod Nmt
pub mod Node
pub mod Pdo
pub mod Sdo
pub mod Slcan
pub mod Sync
