-- ===== src/Slcan.antt =====
-- canopen-core/src/slcan/logic.rs: CAN frames as lines of text. Bytes are their ASCII codes. The
-- bitrate codes only name a serial command.
pub mod Digits
pub mod RoundTrip
use yacob.Base.Results.{and_then}
use yacob.Base.{
  ℕ, zero, suc, ◌+◌, ◌-◌, ◌*◌, ◌/◌, ◌%◌, ◌^◌, ◌≤◌, ◌<◌, ◌≡◌, ◌≢◌, ◌↔◌, ◌⊎◌, min, max, inl, inr,
  refl, sym, ap, ◌∙◌, arith, Bool, true, false, not, ◌&&◌, ◌||◌, if◌then◌else◌, same, ltb, leb,
  ◌==◌, bit_and, bit_or, List, [], ◌∷◌, ◌++◌, map, length, get_or, take, drop, replicate, write_at,
  contains, Option, none, some, Bool-cases, Option-cases, length-append, length-take, length-drop,
  length-replicate, length-write_at, append-nil, take-write_at, take_add, take_all, ltb→lt, lt→ltb,
  ==_iff,
}
use yacob.Base.Bytes.{
  Bytes8, IsBytes8, AllBytes, to_list, of_list, u8, u16, u32, wrapping_sub, ◌<<<◌, ◌>>>◌, has_bits,
  le_bytes32, from_le32, from_le16, low_byte, high_byte, join_bytes, from_le32_bytes,
}
use yacob.Base.Bits.{
  bit_and_mask, bit_or_fields, bit_or_low, bit_or_odd, bit_and_le, every, every_holds,
}
use yacob.Base.Results.{Result, ok, err, ◌>>=◌, ◌>>◌, map_err}
use yacob.Can.{CanFrame, new_frame, frame_data}
use yacob.Sdo.Od.{
  DataType, boolean, int8, int16, int32, uint8, uint16, uint32, real32, visible_string,
  octet_string, domain, int24, uint24, real64, int64, uint64, size, AccessType, ro, wo, const,
  OdEntryMeta, OdError, not_found, read_only, write_only, data_type_mismatch, value_too_long,
  value_range, hardware_error, abort, OdEventSource, OdEvent, ObjectDictionary, ReadFits,
  ReadWithin,
}

-- `hex_digit` and `parse_hex_digit`.
unfoldable pub hex_digit : ℕ → ℕ
hex_digit val = if leb (bit_and val 0x0F) 9 then 48 + val else 65 + (val - 10)

unfoldable pub parse_hex_digit : ℕ → Option ℕ
parse_hex_digit ch =
    if leb 48 ch && leb ch 57
    then some (ch - 48)
    else if leb 97 ch && leb ch 102
    then some (ch - 97 + 10)
    else if leb 65 ch && leb ch 70
    then some (ch - 65 + 10)
    else none

abbrev pub is_hex : ℕ → Bool
is_hex ch = elim (parse_hex_digit ch) [ none ↦ false | some v ↦ true ]

-- `has_slcan_frame`: a window of five bytes that begins a frame.
unfoldable pub has_slcan_frame : List ℕ → Bool
has_slcan_frame [] = false
has_slcan_frame (a ∷ []) = false
has_slcan_frame (a ∷ b ∷ []) = false
has_slcan_frame (a ∷ b ∷ c ∷ []) = false
has_slcan_frame (a ∷ b ∷ c ∷ d ∷ []) = false
has_slcan_frame (a ∷ b ∷ c ∷ d ∷ e ∷ buf) =
    a == 116 && (is_hex b && (is_hex c && (is_hex d && (leb 48 e && leb e 56))))
    || has_slcan_frame (b ∷ c ∷ d ∷ e ∷ buf)

-- The bytes that `encode_slcan_frame` puts out, in their order.
unfoldable pub hex_pairs : List ℕ → List ℕ
hex_pairs [] = []
hex_pairs (b ∷ xs) = hex_digit (b >>> 4) ∷ hex_digit (bit_and b 0x0F) ∷ hex_pairs xs

unfoldable pub slcan_line : CanFrame → List ℕ
slcan_line f =
    116
    ∷ hex_digit (bit_and (u8 (f.id >>> 8)) 0x0F)
    ∷ hex_digit (bit_and (u8 (f.id >>> 4)) 0x0F)
    ∷ hex_digit (bit_and (u8 f.id) 0x0F)
    ∷ (48 + f.dlc)
    ∷ hex_pairs (frame_data f)

-- `encode_slcan_frame`: the number of bytes written, and the buffer.
unfoldable pub encode_slcan_frame : CanFrame → List ℕ → Option ℕ × List ℕ
encode_slcan_frame f out =
    let needed = 6 + length (frame_data f) * 2 in
    if ltb (length out) needed
    then (none, out)
    else (some needed, write_at out 0 (slcan_line f ++ 13 ∷ []))

-- `line.strip_suffix(b"\r").unwrap_or(line)`.
unfoldable pub strip_cr : List ℕ → List ℕ
strip_cr [] = []
strip_cr (x ∷ []) = if x == 13 then [] else x ∷ []
strip_cr (x ∷ y ∷ xs) = x ∷ strip_cr (y ∷ xs)

abbrev pub all_hex : List ℕ → Bool
all_hex [] = true
all_hex (x ∷ xs) = is_hex x && all_hex xs

-- The loop over the data: `dlc` pairs of digits, which are there where it is called.
unfoldable pub parse_pairs : ℕ → List ℕ → Option (List ℕ)
parse_pairs zero line = some []
parse_pairs (suc n) [] = none
parse_pairs (suc n) (h ∷ []) = none
parse_pairs (suc n) (h ∷ l ∷ line) = and_then (parse_hex_digit h) λ hi.
    and_then (parse_hex_digit l)
      λ lo. and_then (parse_pairs n line) λ xs. some (bit_or (u8 (hi <<< 4)) lo ∷ xs)

-- `parse_slcan_frame` behind the header: the COB-ID is known, and `line` is `line[5..]`.
unfoldable pub parse_payload : ℕ → ℕ → List ℕ → Option CanFrame
parse_payload id dlc line =
    let suffix = drop (dlc * 2) line in
    if ltb 8 dlc
    then none
    else if ltb (length line) (dlc * 2)
    then none
    else if not (length suffix == 0) && (not (length suffix == 4) || not (all_hex suffix))
    then none
    else and_then (parse_pairs dlc line) λ xs. new_frame id xs

unfoldable pub parse_line : List ℕ → Option CanFrame
parse_line line =
    let at = get_or line in
    if length line == 0
    then none
    else if not (at 0 0 == 116)
    then none
    else if ltb (length line) 5
    then none
    else and_then (parse_hex_digit (at 1 0)) λ a. and_then (parse_hex_digit (at 2 0)) λ b.
      and_then (parse_hex_digit (at 3 0)) λ c.
        let id = bit_or (bit_or (u16 (a <<< 8)) (u16 (b <<< 4))) c in
        if ltb (at 4 0) 48 then none else parse_payload id (at 4 0 - 48) (drop 5 line)

unfoldable pub parse_slcan_frame : List ℕ → Option CanFrame
parse_slcan_frame line = parse_line (strip_cr line)
