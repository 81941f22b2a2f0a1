-- ===== src/Node.antt =====
-- canopen-core/src/node.rs: a device. Its arrays of length `SDO`, `TPDO`, `RPDO` and
-- `MAX_HEARTBEAT_MONITORS` are lists here, the four arrays of the additional SDO servers one list
-- of channels. An operation that may panic (on a failed assertion or `unwrap`) gives an option,
-- and `none` is the panic.
pub mod Config
pub mod Channel
pub mod Pulse
pub mod Dispatch
pub mod Process
pub mod Reset
pub mod Restart
pub mod Gates
pub mod Cycle
pub mod Quiet
pub mod Returns
use yacob.Base.{
  ℕ, zero, suc, ◌+◌, ◌-◌, ◌*◌, ◌/◌, ◌%◌, ◌^◌, ◌≤◌, ◌<◌, ◌≡◌, ◌≢◌, ◌↔◌, ◌⊎◌, min, max, inl, inr,
  refl, sym, ap, ◌∙◌, arith, Bool, true, false, not, ◌&&◌, ◌||◌, if◌then◌else◌, same, ltb, leb,
  ◌==◌, bit_and, bit_or, List, [], ◌∷◌, ◌++◌, map, length, get_or, take, drop, replicate, write_at,
  contains, Option, none, some, Bool-cases, Option-cases, length-append, length-take, length-drop,
  length-replicate, length-write_at, append-nil, take-write_at, take_add, take_all, ltb→lt, lt→ltb,
  ==_iff,
}
use yacob.Base.Bytes.{
  Bytes8, IsBytes8, AllBytes, to_list, of_list, u8, u16, u32, wrapping_sub, ◌<<<◌, ◌>>>◌, has_bits,
  le_bytes32, from_le32, from_le16, low_byte, high_byte, join_bytes, from_le32_bytes,
}
use yacob.Base.Bits.{
  bit_and_mask, bit_or_fields, bit_or_low, bit_or_odd, bit_and_le, every, every_holds,
}
use yacob.Base.Results.{Result, ok, err, ◌>>=◌, ◌>>◌, map_err}
use yacob.Can.{CanFrame, new_frame, frame_data}
use yacob.Sdo.Od.{
  DataType, boolean, int8, int16, int32, uint8, uint16, uint32, real32, visible_string,
  octet_string, domain, int24, uint24, real64, int64, uint64, size, AccessType, ro, wo, const,
  OdEntryMeta, OdError, not_found, read_only, write_only, data_type_mismatch, value_too_long,
  value_range, hardware_error, abort, OdEventSource, OdEvent, ObjectDictionary, ReadFits,
  ReadWithin,
}
use yacob.CobId.{NodeId}
use yacob.Nmt.{NmtState, NmtHandler}
use yacob.Sdo.Server.State.{SdoServer, abort_transfer}
use yacob.Pdo.Pack.{saturating_add32}
use yacob.Pdo.Tpdo.{TpdoEngine, any, discard_sync_events, discard_async_events, notify_changed}
use yacob.Pdo.Rpdo.{RpdoEngine, discard_pending, reset_deadline_monitoring}
use yacob.Sync.{SyncConsumer, SyncProducer, SyncWindow, reset_window}
use yacob.Heartbeat.{HeartbeatProducer, HeartbeatMonitor, HeartbeatEvent}
use yacob.Emcy.{EmcyProducer}
use yacob.Lss.{LssSlave}

pub data ResetType : Type 0 where
  application communication : ResetType

-- `PendingSdoTx`, and its default.
pub record PendingSdoTx : Type 0 where
  pub frame : Option (CanFrame × ℕ)
  pub refused_this_poll : Bool

abbrev pub no_pending : PendingSdoTx
no_pending = record { frame = none; refused_this_poll = false }

-- An SDO server with its response slot and its COB-IDs; the default server's are `sdo_rx_cob` and
-- `sdo_tx_cob` of the node ID.
pub record SdoChannel : Type 0 where
  pub server : SdoServer
  pub pending : PendingSdoTx
  pub rx : ℕ
  pub tx : ℕ

-- What the transport says of a frame: taken, `WouldBlock`, or another error.
pub data Sent : Type 0 where
  taken would_block refused : Sent

abbrev pub is_taken : Sent → Bool
is_taken taken = true
is_taken would_block = false
is_taken refused = false

-- `Node`, without its LSS identity's source and its wake-up signal; `default` is the default SDO
-- server, and `event_capacity`, `dirty_capacity` are the constants `EVT_QUEUE` and `DIRTY_SET`.
pub record Node (O : Type 0) : Type 0 where
  pub node_id : NodeId
  pub od : O
  pub nmt : NmtHandler
  pub default : SdoChannel
  pub extra : List SdoChannel
  pub tpdo : TpdoEngine
  pub rpdo : RpdoEngine
  pub sync : SyncConsumer
  pub sync_producer : SyncProducer
  pub sync_window : SyncWindow
  pub pending_sync_tpdo : List CanFrame
  pub sync_tpdo_last_attempt_us : Option ℕ
  pub heartbeat : HeartbeatProducer
  pub hb_monitors : List (Option HeartbeatMonitor)
  pub hb_event_queue : List HeartbeatEvent
  pub emcy : EmcyProducer
  pub lss : LssSlave
  pub booted : Bool
  pub auto_start : Bool
  pub event_queue : List OdEvent
  pub event_capacity : ℕ
  pub dirty_set : List (ℕ × ℕ)
  pub dirty_capacity : ℕ
  pub event_overflow_count : ℕ
  pub reset_event : Option ResetType

-- `leave_operational`.
unfoldable pub leave_operational : {O : Type 0} → Node O → Node O
leave_operational n = record n {
  rpdo = discard_pending (reset_deadline_monitoring n.rpdo);
  tpdo = discard_async_events (discard_sync_events n.tpdo);
  dirty_set = [];
  sync_window = reset_window n.sync_window;
  pending_sync_tpdo = [];
  sync_tpdo_last_attempt_us = none;
}

-- `abort_all_sdo_transfers`.
abbrev pub abort_channel : SdoChannel → SdoChannel
abort_channel c = record c { server = abort_transfer c.server; pending = no_pending }

unfoldable pub abort_all_sdo_transfers : {O : Type 0} → Node O → Node O
abort_all_sdo_transfers n = record n {
  default = abort_channel n.default;
  extra = map abort_channel n.extra;
}

-- `take_reset_event`, `next_event` and `next_heartbeat_event`.
unfoldable pub take_reset_event : {O : Type 0} → Node O → Node O × Option ResetType
take_reset_event n = (record n { reset_event = none }, n.reset_event)

abbrev pub pop_front : {A : Type 0} → List A → List A × Option A
pop_front [] = ([], none)
pop_front (x ∷ xs) = (xs, some x)

unfoldable pub next_event : {O : Type 0} → Node O → Node O × Option OdEvent
next_event n = (record n { event_queue = (pop_front n.event_queue).0 }, (pop_front n.event_queue).1)

unfoldable pub next_heartbeat_event : {O : Type 0} → Node O → Node O × Option HeartbeatEvent
next_heartbeat_event n =
    (record n { hb_event_queue = (pop_front n.hb_event_queue).0 }, (pop_front n.hb_event_queue).1)

-- `Node::notify_changed`.
abbrev pub holds : List (ℕ × ℕ) → ℕ → ℕ → Bool
holds dirty index subindex = any (λ d. d.0 == index && d.1 == subindex) dirty

unfoldable pub notify_node : {O : Type 0} → Node O → ℕ → ℕ → Node O
notify_node n index subindex = record n {
  tpdo = notify_changed n.tpdo index subindex;
  dirty_set =
      if holds n.dirty_set index subindex || not (ltb (length n.dirty_set) n.dirty_capacity)
      then n.dirty_set
      else n.dirty_set ++ (index, subindex) ∷ [];
}

-- An event of a heartbeat monitor on the queue of eight, and the count of those that made room.
unfoldable pub push_heartbeat_event : {O : Type 0} → Node O → HeartbeatEvent → Node O
push_heartbeat_event n e =
    if length n.hb_event_queue == 8
    then record n {
      hb_event_queue = drop 1 n.hb_event_queue ++ e ∷ [];
      event_overflow_count = saturating_add32 n.event_overflow_count 1;
    }
    else record n { hb_event_queue = n.hb_event_queue ++ e ∷ [] }

abbrev pub push_heartbeat_events : {O : Type 0} → Node O → List HeartbeatEvent → Node O
push_heartbeat_events n [] = n
push_heartbeat_events n (e ∷ es) = push_heartbeat_events (push_heartbeat_event n e) es
