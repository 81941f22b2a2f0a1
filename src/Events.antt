-- ===== src/Events.antt =====
-- canopen-core/src/events.rs: what a frame on the bus means, for an observer.
pub mod Frames
pub mod Decoding
use yacob.Base.{
  ℕ, zero, suc, ◌+◌, ◌-◌, ◌*◌, ◌/◌, ◌%◌, ◌^◌, ◌≤◌, ◌<◌, ◌≡◌, ◌≢◌, ◌↔◌, ◌⊎◌, min, max, inl, inr,
  refl, sym, ap, ◌∙◌, arith, Bool, true, false, not, ◌&&◌, ◌||◌, if◌then◌else◌, same, ltb, leb,
  ◌==◌, bit_and, bit_or, List, [], ◌∷◌, ◌++◌, map, length, get_or, take, drop, replicate, write_at,
  contains, Option, none, some, Bool-cases, Option-cases, length-append, length-take, length-drop,
  length-replicate, length-write_at, append-nil, take-write_at, take_add, take_all, ltb→lt, lt→ltb,
  ==_iff,
}
use yacob.Base.Bytes.{
  Bytes8, IsBytes8, AllBytes, to_list, of_list, u8, u16, u32, wrapping_sub, ◌<<<◌, ◌>>>◌, has_bits,
  le_bytes32, from_le32, from_le16, low_byte, high_byte, join_bytes, from_le32_bytes,
}
use yacob.Base.Bits.{
  bit_and_mask, bit_or_fields, bit_or_low, bit_or_odd, bit_and_le, every, every_holds,
}
use yacob.Base.Results.{Result, ok, err, ◌>>=◌, ◌>>◌, map_err}
use yacob.Can.{CanFrame, new_frame, frame_data}
use yacob.Sdo.Od.{
  DataType, boolean, int8, int16, int32, uint8, uint16, uint32, real32, visible_string,
  octet_string, domain, int24, uint24, real64, int64, uint64, size, AccessType, ro, wo, const,
  OdEntryMeta, OdError, not_found, read_only, write_only, data_type_mismatch, value_too_long,
  value_range, hardware_error, abort, OdEventSource, OdEvent, ObjectDictionary, ReadFits,
  ReadWithin,
}
use yacob.CobId.{
  NodeId, ParsedCobId, nmt, sync, emergency, tpdo, rpdo, sdo_response, sdo_request, heartbeat,
  unknown, new_node_id, new_cob_id, parse,
}
use yacob.Nmt.{NmtState, from_heartbeat_byte}
use yacob.Emcy.{EmcyMessage, parse_emcy}

pub data CanOpenEvent : Type 0 where
  nmt_event : ℕ → Option NodeId → CanOpenEvent
  sync_event : CanOpenEvent
  emcy_event : EmcyMessage → CanOpenEvent
  heartbeat_event : NodeId → NmtState → CanOpenEvent
  tpdo_event rpdo_event : ℕ → NodeId → Bytes8 → ℕ → CanOpenEvent
  sdo_response_event sdo_request_event : NodeId → Bytes8 → CanOpenEvent

-- `copy_payload`.
unfoldable pub copy_payload : List ℕ → Bytes8 × ℕ
copy_payload xs = let len = min (length xs) 8 in (of_list (take len xs), len)

-- The target of an NMT command; an error if it names no node.
unfoldable pub nmt_target : ℕ → Option (Option NodeId)
nmt_target b =
    if b == 0 then some none else elim (new_node_id b) [ none ↦ none | some n ↦ some (some n) ]

-- `match cob.parse()` of `CanOpenEvent::decode`, on the data of the frame.
unfoldable pub decode_nmt : List ℕ → Option CanOpenEvent
decode_nmt [] = none
decode_nmt (b0 ∷ []) = none
decode_nmt (b0 ∷ b1 ∷ xs) = elim (nmt_target b1) [
  | none ↦ none
  | some target ↦ some (nmt_event b0 target)
]

unfoldable pub decode_heartbeat : NodeId → List ℕ → Option CanOpenEvent
decode_heartbeat node [] = none
decode_heartbeat node (b ∷ xs) = elim (from_heartbeat_byte b) [
  | none ↦ none
  | some state ↦ some (heartbeat_event node state)
]

-- `data.try_into().ok()?`.
abbrev pub eight_bytes : List ℕ → Option Bytes8
eight_bytes xs = if length xs == 8 then some (of_list xs) else none

unfoldable pub decode_service : CanFrame → ParsedCobId → Option CanOpenEvent
decode_service f nmt = decode_nmt (frame_data f)
decode_service f sync = some sync_event
decode_service f (emergency node) = elim (parse_emcy f) [
  | none ↦ none
  | some m ↦ some (emcy_event m)
]
decode_service f (heartbeat node) = decode_heartbeat node (frame_data f)
decode_service f (tpdo pdo_num node) =
    let (payload, len) = copy_payload (frame_data f) in some (tpdo_event pdo_num node payload len)
decode_service f (rpdo pdo_num node) =
    let (payload, len) = copy_payload (frame_data f) in some (rpdo_event pdo_num node payload len)
decode_service f (sdo_response node) = elim (eight_bytes (frame_data f)) [
  | none ↦ none
  | some d ↦ some (sdo_response_event node d)
]
decode_service f (sdo_request node) = elim (eight_bytes (frame_data f)) [
  | none ↦ none
  | some d ↦ some (sdo_request_event node d)
]
decode_service f (unknown raw) = none

-- `CanOpenEvent::decode`.
unfoldable pub decode_event : CanFrame → Option CanOpenEvent
decode_event f = elim (new_cob_id f.id) [ none ↦ none | some cob ↦ decode_service f (parse cob) ]

-- `CanOpenEvent::node` and `matches_node`.
unfoldable pub event_node : CanOpenEvent → Option NodeId
event_node (nmt_event command target) = target
event_node sync_event = none
event_node (emcy_event m) = some m.node
event_node (heartbeat_event node state) = some node
event_node (tpdo_event pdo_num node payload len) = some node
event_node (rpdo_event pdo_num node payload len) = some node
event_node (sdo_response_event node d) = some node
event_node (sdo_request_event node d) = some node

abbrev pub is_node : Option NodeId → NodeId → Bool
is_node none node = false
is_node (some n) node = n == node

unfoldable pub matches_node : CanOpenEvent → NodeId → Bool
matches_node (nmt_event command none) node = true
matches_node (nmt_event command (some n)) node = n == node
matches_node sync_event node = false
matches_node (emcy_event m) node = is_node (event_node (emcy_event m)) node
matches_node (heartbeat_event n state) node = is_node (event_node (heartbeat_event n state)) node
matches_node (tpdo_event p n d len) node = is_node (event_node (tpdo_event p n d len)) node
matches_node (rpdo_event p n d len) node = is_node (event_node (rpdo_event p n d len)) node
matches_node (sdo_response_event n d) node = is_node (event_node (sdo_response_event n d)) node
matches_node (sdo_request_event n d) node = is_node (event_node (sdo_request_event n d)) node
