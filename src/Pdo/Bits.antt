-- ===== src/Pdo/Bits.antt =====
-- canopen-core/src/pdo/mod.rs: copying bits between byte sequences, least significant bit first,
-- and sign extension. An index past the end panics in the source: reading there gives 0 here, and
-- writing there changes nothing.
pub mod Copy
pub mod Low
-- `src[bit / 8] >> (bit % 8) & 1`.
use yacob.Base.{
  ℕ, zero, suc, ◌+◌, ◌-◌, ◌*◌, ◌/◌, ◌%◌, ◌^◌, ◌≤◌, ◌<◌, ◌≡◌, ◌≢◌, ◌↔◌, ◌⊎◌, min, max, inl, inr,
  refl, sym, ap, ◌∙◌, arith, Bool, true, false, not, ◌&&◌, ◌||◌, if◌then◌else◌, same, ltb, leb,
  ◌==◌, bit_and, bit_or, List, [], ◌∷◌, ◌++◌, map, length, get_or, take, drop, replicate, write_at,
  contains, Option, none, some, Bool-cases, Option-cases, length-append, length-take, length-drop,
  length-replicate, length-write_at, append-nil, take-write_at, take_add, take_all, ltb→lt, lt→ltb,
  ==_iff,
}
use yacob.Base.Bytes.{
  Bytes8, IsBytes8, AllBytes, to_list, of_list, u8, u16, u32, wrapping_sub, ◌<<<◌, ◌>>>◌, has_bits,
  le_bytes32, from_le32, from_le16, low_byte, high_byte, join_bytes, from_le32_bytes,
}
use yacob.Base.Bits.{
  bit_and_mask, bit_or_fields, bit_or_low, bit_or_odd, bit_and_le, every, every_holds,
}
use yacob.Base.Results.{Result, ok, err, ◌>>=◌, ◌>>◌, map_err}
use yacob.Can.{CanFrame, new_frame, frame_data}
use yacob.Sdo.Od.{
  DataType, boolean, int8, int16, int32, uint8, uint16, uint32, real32, visible_string,
  octet_string, domain, int24, uint24, real64, int64, uint64, size, AccessType, ro, wo, const,
  OdEntryMeta, OdError, not_found, read_only, write_only, data_type_mismatch, value_too_long,
  value_range, hardware_error, abort, OdEventSource, sdo, rpdo, rpdo_deadline, OdEvent,
  ObjectDictionary, ReadFits, ReadWithin,
}

abbrev pub bit_at : List ℕ → ℕ → ℕ
bit_at xs bit = bit_and (get_or xs (bit / 8) 0 >>> (bit % 8)) 1

-- `dst[bit / 8] |= 1 << (bit % 8)`, and `dst[bit / 8] &= !(1 << (bit % 8))`.
abbrev pub mask : ℕ → ℕ
mask bit = 1 <<< (bit % 8)

unfoldable pub set_bit : List ℕ → ℕ → List ℕ
set_bit dst bit = write_at dst (bit / 8) (bit_or (get_or dst (bit / 8) 0) (mask bit) ∷ [])

unfoldable pub clear_bit : List ℕ → ℕ → List ℕ
clear_bit dst bit = write_at dst (bit / 8) (bit_and (get_or dst (bit / 8) 0) (255 - mask bit) ∷ [])

-- The loop of `copy_pdo_bits`: `count` bits are left.
unfoldable pub copy_each_bit : List ℕ → ℕ → List ℕ → ℕ → ℕ → List ℕ
copy_each_bit src src_bit dst dst_bit zero = dst
copy_each_bit src src_bit dst dst_bit (suc count) =
    copy_each_bit src (src_bit + 1)
      (if not (bit_at src src_bit == 0) then set_bit dst dst_bit else clear_bit dst dst_bit)
      (dst_bit + 1) count

unfoldable pub copy_pdo_bits : List ℕ → ℕ → List ℕ → ℕ → ℕ → List ℕ
copy_pdo_bits src src_bit_offset dst dst_bit_offset bit_len =
    if src_bit_offset % 8 == 0 && (dst_bit_offset % 8 == 0 && bit_len % 8 == 0)
    then write_at dst (dst_bit_offset / 8) (take (bit_len / 8) (drop (src_bit_offset / 8) src))
    else copy_each_bit src src_bit_offset dst dst_bit_offset bit_len

-- The loop of `sign_extend_pdo_bits`, and the function.
unfoldable pub set_each_bit : List ℕ → ℕ → ℕ → List ℕ
set_each_bit value bit zero = value
set_each_bit value bit (suc count) = set_each_bit (set_bit value bit) (bit + 1) count

unfoldable pub sign_extend_pdo_bits : List ℕ → ℕ → List ℕ
sign_extend_pdo_bits value bits =
    if bits == 0 || leb (length value * 8) bits
    then value
    else if bit_at value (bits - 1) == 0
    then value
    else set_each_bit value bits (length value * 8 - bits)
