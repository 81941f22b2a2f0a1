-- ===== src/Pdo.antt =====
-- canopen-core/src/pdo/engine.rs: mapping entries, transmission types, PDO numbers and the
-- configuration of a PDO. A `heapless::Vec` of mappings is a list; its capacity bounds what a
-- caller can build, and nothing here pushes to it.
pub mod Bits
pub mod Pack
pub mod Payload
pub mod Transfer
pub mod Tpdo
pub mod Rpdo
use yacob.Base.{
  ℕ, zero, suc, ◌+◌, ◌-◌, ◌*◌, ◌/◌, ◌%◌, ◌^◌, ◌≤◌, ◌<◌, ◌≡◌, ◌≢◌, ◌↔◌, ◌⊎◌, min, max, inl, inr,
  refl, sym, ap, ◌∙◌, arith, Bool, true, false, not, ◌&&◌, ◌||◌, if◌then◌else◌, same, ltb, leb,
  ◌==◌, bit_and, bit_or, List, [], ◌∷◌, ◌++◌, map, length, get_or, take, drop, replicate, write_at,
  contains, Option, none, some, Bool-cases, Option-cases, length-append, length-take, length-drop,
  length-replicate, length-write_at, append-nil, take-write_at, take_add, take_all, ltb→lt, lt→ltb,
  ==_iff,
}
use yacob.Base.Bytes.{
  Bytes8, IsBytes8, AllBytes, to_list, of_list, u8, u16, u32, wrapping_sub, ◌<<<◌, ◌>>>◌, has_bits,
  le_bytes32, from_le32, from_le16, low_byte, high_byte, join_bytes, from_le32_bytes,
}
use yacob.Base.Bits.{
  bit_and_mask, bit_or_fields, bit_or_low, bit_or_odd, bit_and_le, every, every_holds,
}
use yacob.Sdo.Abort.{to_u32, object_cannot_be_mapped}
use yacob.Base.Results.{Result, ok, err, ◌>>=◌, ◌>>◌, map_err}
use yacob.Can.{CanFrame, new_frame, frame_data}
use yacob.Sdo.Od.{
  DataType, boolean, int8, int16, int32, uint8, uint16, uint32, real32, visible_string,
  octet_string, domain, int24, uint24, real64, int64, uint64, size, AccessType, ro, wo, rw, const,
  OdEntryMeta, OdError, not_found, read_only, write_only, data_type_mismatch, value_too_long,
  value_range, hardware_error, abort, OdEventSource, sdo, rpdo, rpdo_deadline, OdEvent,
  ObjectDictionary, ReadFits, ReadWithin,
}

pub record PdoMapping : Type 0 where
  pub index : ℕ
  pub subindex : ℕ
  pub bit_length : ℕ

-- `PdoMapping::from_mapping_value` and `to_mapping_value`.
unfoldable pub from_mapping_value : ℕ → PdoMapping
from_mapping_value val = record {
  index = u16 (val >>> 16);
  subindex = u8 (val >>> 8);
  bit_length = u8 val;
}

unfoldable pub to_mapping_value : PdoMapping → ℕ
to_mapping_value m = bit_or (bit_or (m.index <<< 16) (m.subindex <<< 8)) m.bit_length

unfoldable pub is_dummy_mapping_index : ℕ → Bool
is_dummy_mapping_index index = leb 0x0001 index && leb index 0x0007

unfoldable pub bytes_for_bits : ℕ → ℕ
bytes_for_bits bits = (bits + 7) / 8

unfoldable pub raw_is_synchronous : ℕ → Bool
raw_is_synchronous raw = leb raw 240

pub data TransmissionType : Type 0 where
  sync_acyclic : TransmissionType
  sync_cyclic : ℕ → TransmissionType
  rtr_sync rtr_event event_driven_manufacturer event_driven : TransmissionType

-- `TransmissionType::raw`; `none` is the failed assertion.
unfoldable pub raw : TransmissionType → Option ℕ
raw sync_acyclic = some 0
raw (sync_cyclic n) = if leb 1 n && leb n 240 then some n else none
raw rtr_sync = some 252
raw rtr_event = some 253
raw event_driven_manufacturer = some 254
raw event_driven = some 255

-- `TransmissionType::is_synchronous`.
unfoldable pub is_synchronous : TransmissionType → Bool
is_synchronous sync_acyclic = true
is_synchronous (sync_cyclic n) = true
is_synchronous rtr_sync = false
is_synchronous rtr_event = false
is_synchronous event_driven_manufacturer = false
is_synchronous event_driven = false

-- `TransmissionType::from_raw`.
unfoldable pub transmission_type : ℕ → Option TransmissionType
transmission_type value =
    if value == 0
    then some sync_acyclic
    else if leb 1 value && leb value 240
    then some (sync_cyclic value)
    else if value == 252
    then some rtr_sync
    else if value == 253
    then some rtr_event
    else if value == 254
    then some event_driven_manufacturer
    else if value == 255
    then some event_driven
    else none

-- `PdoNumber::new` and `od_offset`: a number of 1 to 512.
unfoldable pub pdo_number : ℕ → Option ℕ
pdo_number n = if leb 1 n && leb n 512 then some n else none

unfoldable pub od_offset : ℕ → ℕ
od_offset n = n - 1

unfoldable pub pdo_number_for_slot : ℕ → ℕ → ℕ
pdo_number_for_slot od_number slot = if od_number == 0 then u16 (u16 slot + 1) else od_number

-- `TpdoConfig` and its default.
pub record TpdoConfig : Type 0 where
  pub od_number : ℕ
  pub cob_id : ℕ
  pub transmission_type : ℕ
  pub inhibit_time_100us : ℕ
  pub event_timer_ms : ℕ
  pub mappings : List PdoMapping
  pub enabled : Bool

unfoldable pub default_tpdo : TpdoConfig
default_tpdo = record {
  od_number = 0;
  cob_id = 0;
  transmission_type = 255;
  inhibit_time_100us = 0;
  event_timer_ms = 0;
  mappings = [];
  enabled = false;
}

-- `RpdoConfig` and its default.
pub record RpdoConfig : Type 0 where
  pub od_number : ℕ
  pub cob_id : ℕ
  pub transmission_type : ℕ
  pub deadline_ms : ℕ
  pub mappings : List PdoMapping
  pub enabled : Bool

unfoldable pub default_rpdo : RpdoConfig
default_rpdo = record {
  od_number = 0;
  cob_id = 0;
  transmission_type = 255;
  deadline_ms = 0;
  mappings = [];
  enabled = false;
}

-- `Vec::is_empty`.
abbrev pub is_empty {ℓ} : {A : Type ℓ} → List A → Bool
is_empty [] = true
is_empty (x ∷ xs) = false

-- `TpdoConfig::is_placeholder` and `RpdoConfig::is_placeholder`.
unfoldable pub is_tpdo_placeholder : TpdoConfig → Bool
is_tpdo_placeholder c =
    c.od_number == 0 && (c.cob_id == 0 && (not c.enabled && is_empty c.mappings))

unfoldable pub is_rpdo_placeholder : RpdoConfig → Bool
is_rpdo_placeholder c =
    c.od_number == 0 && (c.cob_id == 0 && (not c.enabled && is_empty c.mappings))

-- `validate_mapping_target`.
abbrev pub may_receive : AccessType → Bool
may_receive wo = true
may_receive rw = true
may_receive ro = false
may_receive const = false

abbrev pub may_transmit : AccessType → Bool
may_transmit wo = false
may_transmit rw = true
may_transmit ro = true
may_transmit const = true

unfoldable pub validate_mapping_target :
    {O : Type 0} → ObjectDictionary O → O → ℕ → Bool → Result (Unit {0}) OdError
validate_mapping_target dict od descriptor receive =
    let index = u16 (descriptor >>> 16) in
    if is_dummy_mapping_index index
    then ok _
    else elim (dict.lookup od index (u8 (descriptor >>> 8))) [
      | none ↦ err (abort (to_u32 object_cannot_be_mapped))
      | some entry ↦
          if entry.pdo_mappable
            && (if receive then may_receive entry.access else may_transmit entry.access)
          then ok _
          else err (abort (to_u32 object_cannot_be_mapped))
    ]

-- `is_signed_integer`.
unfoldable pub is_signed_integer : DataType → Bool
is_signed_integer int8 = true
is_signed_integer int16 = true
is_signed_integer int24 = true
is_signed_integer int32 = true
is_signed_integer int64 = true
is_signed_integer boolean = false
is_signed_integer uint8 = false
is_signed_integer uint16 = false
is_signed_integer uint24 = false
is_signed_integer uint32 = false
is_signed_integer uint64 = false
is_signed_integer real32 = false
is_signed_integer real64 = false
is_signed_integer visible_string = false
is_signed_integer octet_string = false
is_signed_integer domain = false

-- The sum of the mapped bit lengths, and `mapped_payload_len`.
abbrev pub total_bits : List PdoMapping → ℕ
total_bits [] = 0
total_bits (m ∷ ms) = m.bit_length + total_bits ms

unfoldable pub mapped_payload_len : RpdoConfig → Option ℕ
mapped_payload_len pdo =
    let bits = total_bits pdo.mappings in if leb bits 64 then some (bytes_for_bits bits) else none
