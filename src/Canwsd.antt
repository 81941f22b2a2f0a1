-- ===== src/Canwsd.antt =====
-- canwsd-proto/src/wire.rs and filter.rs: CAN frames as WebSocket messages, and receive filters.
pub mod Codec
use yacob.Base.{
  ℕ, zero, suc, ◌+◌, ◌-◌, ◌*◌, ◌/◌, ◌%◌, ◌^◌, ◌≤◌, ◌<◌, ◌≡◌, ◌≢◌, ◌↔◌, ◌⊎◌, min, max, inl, inr,
  refl, sym, ap, ◌∙◌, arith, Bool, true, false, not, ◌&&◌, ◌||◌, if◌then◌else◌, same, ltb, leb,
  ◌==◌, bit_and, bit_or, List, [], ◌∷◌, ◌++◌, map, length, get_or, take, drop, replicate, write_at,
  contains, Option, none, some, Bool-cases, Option-cases, length-append, length-take, length-drop,
  length-replicate, length-write_at, append-nil, take-write_at, take_add, take_all, ltb→lt, lt→ltb,
  ==_iff,
}
use yacob.Base.Bytes.{
  Bytes8, IsBytes8, AllBytes, to_list, of_list, u8, u16, u32, wrapping_sub, ◌<<<◌, ◌>>>◌, has_bits,
  le_bytes32, from_le32, from_le16, low_byte, high_byte, join_bytes, from_le32_bytes,
}
use yacob.Base.Bits.{
  bit_and_mask, bit_or_fields, bit_or_low, bit_or_odd, bit_and_le, every, every_holds,
}
use yacob.Base.Results.{Result, ok, err, ◌>>=◌, ◌>>◌, map_err}
use yacob.Can.{CanFrame, new_frame, frame_data}
use yacob.Sdo.Od.{
  DataType, boolean, int8, int16, int32, uint8, uint16, uint32, real32, visible_string,
  octet_string, domain, int24, uint24, real64, int64, uint64, size, AccessType, ro, wo, const,
  OdEntryMeta, OdError, not_found, read_only, write_only, data_type_mismatch, value_too_long,
  value_range, hardware_error, abort, OdEventSource, OdEvent, ObjectDictionary, ReadFits,
  ReadWithin,
}

pub record WireFrame : Type 0 where
  pub id_word : ℕ
  pub dlc : ℕ
  pub bytes : Bytes8

pub data DecodeError : Type 0 where
  too_short : (actual : ℕ) → DecodeError
  bad_dlc : (dlc : ℕ) → DecodeError
  length_mismatch : (expected actual : ℕ) → DecodeError

-- `WireFrame::new`.
unfoldable pub new_wire_frame : ℕ → List ℕ → Option WireFrame
new_wire_frame id_word xs =
    if ltb 8 (length xs)
    then none
    else some (record { id_word = id_word; dlc = u8 (length xs); bytes = of_list xs })

-- `is_extended`, `is_rtr`, `is_error` and `id`.
unfoldable pub is_extended : WireFrame → Bool
is_extended f = has_bits f.id_word 0x8000_0000

unfoldable pub is_rtr : WireFrame → Bool
is_rtr f = has_bits f.id_word 0x4000_0000

unfoldable pub is_error : WireFrame → Bool
is_error f = has_bits f.id_word 0x2000_0000

unfoldable pub wire_id : WireFrame → ℕ
wire_id f = if is_extended f then bit_and f.id_word 0x1FFF_FFFF else bit_and f.id_word 0x7FF

-- `WireFrame::data`.
abbrev pub wire_data : WireFrame → List ℕ
wire_data f = take f.dlc (to_list f.bytes)

-- `WireFrame::encode`: the buffer of 13 bytes, and the length of its valid prefix.
unfoldable pub encode_wire : WireFrame → List ℕ × ℕ
encode_wire f =
    let buf = write_at (replicate 13 0) 0 (le_bytes32 f.id_word) in
    let buf' = write_at buf 4 (f.dlc ∷ []) in (write_at buf' 5 (wire_data f), 5 + f.dlc)

-- `WireFrame::decode`.
unfoldable pub decode_wire : List ℕ → Result WireFrame DecodeError
decode_wire buf =
    let at = get_or buf in
    let dlc = at 4 0 in
    if ltb (length buf) 5
    then err (too_short (length buf))
    else if ltb 8 dlc
    then err (bad_dlc dlc)
    else if not (length buf == 5 + dlc)
    then err (length_mismatch (5 + dlc) (length buf))
    else ok (record {
      id_word = from_le32 (at 0 0) (at 1 0) (at 2 0) (at 3 0);
      dlc = dlc;
      bytes = of_list (take dlc (drop 5 buf));
    })

-- `CanFilter`, and `CanFilter::matches`.
pub record CanFilter : Type 0 where
  pub id : ℕ
  pub mask : ℕ

unfoldable pub matches : CanFilter → ℕ → Bool
matches c frame_id = bit_and frame_id c.mask == bit_and c.id c.mask
