-- ===== src/Lss.antt =====
-- canopen-core/src/lss.rs: the slave of the Layer Setting Services.
pub mod Selection
pub mod Identity
use yacob.Base.{
  ℕ, zero, suc, ◌+◌, ◌-◌, ◌*◌, ◌/◌, ◌%◌, ◌^◌, ◌≤◌, ◌<◌, ◌≡◌, ◌≢◌, ◌↔◌, ◌⊎◌, min, max, inl, inr,
  refl, sym, ap, ◌∙◌, arith, Bool, true, false, not, ◌&&◌, ◌||◌, if◌then◌else◌, same, ltb, leb,
  ◌==◌, bit_and, bit_or, List, [], ◌∷◌, ◌++◌, map, length, get_or, take, drop, replicate, write_at,
  contains, Option, none, some, Bool-cases, Option-cases, length-append, length-take, length-drop,
  length-replicate, length-write_at, append-nil, take-write_at, take_add, take_all, ltb→lt, lt→ltb,
  ==_iff,
}
use yacob.Base.Bytes.{
  Bytes8, IsBytes8, AllBytes, to_list, of_list, u8, u16, u32, wrapping_sub, ◌<<<◌, ◌>>>◌, has_bits,
  le_bytes32, from_le32, from_le16, low_byte, high_byte, join_bytes, from_le32_bytes,
}
use yacob.Base.Bits.{
  bit_and_mask, bit_or_fields, bit_or_low, bit_or_odd, bit_and_le, every, every_holds,
}
use yacob.Base.Results.{Result, ok, err, ◌>>=◌, ◌>>◌, map_err}
use yacob.Can.{CanFrame, new_frame, frame_data}
use yacob.Sdo.Od.{
  DataType, boolean, int8, int16, int32, uint8, uint16, uint32, real32, visible_string,
  octet_string, domain, int24, uint24, real64, int64, uint64, size, AccessType, ro, wo, const,
  OdEntryMeta, OdError, not_found, read_only, write_only, data_type_mismatch, value_too_long,
  value_range, hardware_error, abort, OdEventSource, OdEvent, ObjectDictionary, ReadFits,
  ReadWithin,
}

pub record LssIdentity : Type 0 where
  pub vendor_id : ℕ
  pub product_code : ℕ
  pub revision : ℕ
  pub serial : ℕ

pub data LssMode : Type 0 where
  waiting configuration : LssMode

pub data LssEvent : Type 0 where
  node_id_configured : ℕ → LssEvent
  store_configuration : LssEvent

pub record LssSlave : Type 0 where
  pub identity : LssIdentity
  pub node_id : ℕ
  pub mode : LssMode
  pub selective_step : ℕ
  pub pending_event : Option LssEvent

-- `LssSlave::new` and `take_event`.
unfoldable pub new_slave : LssIdentity → ℕ → LssSlave
new_slave identity node_id = record {
  identity = identity;
  node_id = node_id;
  mode = waiting;
  selective_step = 0;
  pending_event = none;
}

unfoldable pub take_event : LssSlave → LssSlave × Option LssEvent
take_event s = (record s { pending_event = none }, s.pending_event)

-- `self.mode == LssMode::Waiting`.
abbrev pub is_waiting : LssMode → Bool
is_waiting waiting = true
is_waiting configuration = false

-- `make_response`, with the first bytes of a response, the rest being zeros.
abbrev pub respond : List ℕ → Option CanFrame
respond xs = new_frame 0x7E4 (to_list (of_list xs))

-- `SWITCH_MODE_GLOBAL`.
unfoldable pub switch_global : LssSlave → ℕ → LssSlave
switch_global s new_mode =
    if new_mode == 0
    then record s { mode = waiting; selective_step = 0 }
    else if new_mode == 1
    then record s { mode = configuration }
    else s

-- The step of a selective command, and the number that it must carry.
abbrev pub selective_part : LssIdentity → ℕ → ℕ × ℕ
selective_part i cmd =
    if cmd == 0x40
    then (0, i.vendor_id)
    else if cmd == 0x41
    then (1, i.product_code)
    else if cmd == 0x42
    then (2, i.revision)
    else (3, i.serial)

-- `SWITCH_VENDOR | SWITCH_PRODUCT | SWITCH_REVISION | SWITCH_SERIAL`, while waiting.
unfoldable pub switch_selective : LssSlave → ℕ → ℕ → LssSlave × Option CanFrame
switch_selective s cmd val =
    let (step, expected) = selective_part s.identity cmd in
    let reached = if step == 0 then 0 else s.selective_step in
    if not (reached == step) || not (val == expected)
    then (record s { selective_step = 0 }, none)
    else if ltb step 3
    then (record s { selective_step = step + 1 }, none)
    else (record s { selective_step = 0; mode = configuration }, respond (0x44 ∷ []))

-- `CONFIGURE_NODE_ID`, while in configuration.
unfoldable pub configure_node_id : LssSlave → ℕ → LssSlave × Option CanFrame
configure_node_id s new_id =
    if leb 1 new_id && leb new_id 127 || new_id == 0xFF
    then (
      record s { node_id = new_id; pending_event = some (node_id_configured new_id) },
      respond (0x11 ∷ 0 ∷ []),
    )
    else (s, respond (0x11 ∷ 1 ∷ []))

-- The services of the configuration mode.
unfoldable pub configure_slave : LssSlave → ℕ → ℕ → LssSlave × Option CanFrame
configure_slave s cmd arg =
    if cmd == 0x11
    then configure_node_id s arg
    else if cmd == 0x17
    then (record s { pending_event = some store_configuration }, respond (0x17 ∷ []))
    else if cmd == 0x5A
    then (s, respond (0x5A ∷ le_bytes32 s.identity.vendor_id))
    else if cmd == 0x5B
    then (s, respond (0x5B ∷ le_bytes32 s.identity.product_code))
    else if cmd == 0x5C
    then (s, respond (0x5C ∷ le_bytes32 s.identity.revision))
    else if cmd == 0x5D
    then (s, respond (0x5D ∷ le_bytes32 s.identity.serial))
    else if cmd == 0x5E
    then (s, respond (0x5E ∷ s.node_id ∷ []))
    else (s, none)

-- Is the frame one that the slave reads, and the value behind its command byte.
abbrev pub is_request : CanFrame → Bool
is_request f = f.id == 0x7E5 && leb 8 f.dlc

abbrev pub request_value : CanFrame → ℕ
request_value f = let at = get_or (frame_data f) in from_le32 (at 1 0) (at 2 0) (at 3 0) (at 4 0)

abbrev pub is_selective : ℕ → Bool
is_selective cmd = leb 0x40 cmd && leb cmd 0x43

-- `LssSlave::process`.
unfoldable pub process_lss : LssSlave → CanFrame → LssSlave × Option CanFrame
process_lss s f =
    let cmd = get_or (frame_data f) 0 0 in
    let arg = get_or (frame_data f) 1 0 in
    if not (is_request f)
    then (s, none)
    else if cmd == 0x04
    then (switch_global s arg, none)
    else if is_waiting s.mode
    then (if is_selective cmd then switch_selective s cmd (request_value f) else (s, none))
    else configure_slave s cmd arg
