-- ===== src/Sdo/Protocol.antt =====
-- canopen-core/src/sdo/protocol.rs: the eight-byte SDO frames.
use yacob.Base.{
  ℕ, ◌-◌, Bool, ◌||◌, if◌then◌else◌, ltb, ◌==◌, bit_and, bit_or, List, [], length, get_or, Option,
  some, none,
}
use yacob.Base.Bytes.{
  Bytes8, of_list, u8, low_byte, high_byte, ◌<<<◌, ◌>>>◌, le_bytes32, join_bytes,
}
use yacob.Sdo.Abort.{AbortCode, SdoAbort, to_u32}

-- `Ccs` and `Scs`, the command specifiers, by their discriminants.
abbrev pub ccs_download_segment : ℕ
ccs_download_segment = 0

abbrev pub ccs_initiate_download : ℕ
ccs_initiate_download = 1

abbrev pub ccs_initiate_upload : ℕ
ccs_initiate_upload = 2

abbrev pub ccs_upload_segment : ℕ
ccs_upload_segment = 3

abbrev pub ccs_abort_transfer : ℕ
ccs_abort_transfer = 4

abbrev pub ccs_block_upload : ℕ
ccs_block_upload = 5

abbrev pub ccs_block_download : ℕ
ccs_block_download = 6

abbrev pub scs_upload_segment_response : ℕ
scs_upload_segment_response = 0

abbrev pub scs_download_segment_response : ℕ
scs_download_segment_response = 1

abbrev pub scs_initiate_upload_response : ℕ
scs_initiate_upload_response = 2

abbrev pub scs_initiate_download_response : ℕ
scs_initiate_download_response = 3

abbrev pub scs_abort_transfer : ℕ
scs_abort_transfer = 4

unfoldable pub command_specifier : ℕ → ℕ
command_specifier byte0 = bit_and (byte0 >>> 5) 0x07

-- `[0u8; 8]`.
abbrev pub zeros : Bytes8
zeros = of_list []

-- Bytes 0 to 3 of a frame that names an object, before byte 4.
abbrev pub object_frame : ℕ → ℕ → ℕ → List ℕ → Bytes8
object_frame head index subindex payload = record {
  b0 = head;
  b1 = low_byte index;
  b2 = high_byte index;
  b3 = subindex;
  b4 = get_or payload 0 0;
  b5 = get_or payload 1 0;
  b6 = get_or payload 2 0;
  b7 = get_or payload 3 0;
}

-- A command byte and up to seven bytes behind it.
abbrev pub segment_frame : ℕ → List ℕ → Bytes8
segment_frame head payload = record {
  b0 = head;
  b1 = get_or payload 0 0;
  b2 = get_or payload 1 0;
  b3 = get_or payload 2 0;
  b4 = get_or payload 3 0;
  b5 = get_or payload 4 0;
  b6 = get_or payload 5 0;
  b7 = get_or payload 6 0;
}

unfoldable pub encode_sdo_abort : ℕ → ℕ → SdoAbort → Bytes8
encode_sdo_abort index subindex code =
    object_frame (scs_abort_transfer <<< 5) index subindex (le_bytes32 code)

unfoldable pub encode_abort : ℕ → ℕ → AbortCode → Bytes8
unfolding encode_sdo_abort
encode_abort index subindex code = encode_sdo_abort index subindex (to_u32 code)

-- `n` stays below 4, so the casts to `u8` and the shift lose nothing.
unfoldable pub encode_upload_response_expedited : ℕ → ℕ → List ℕ → Option Bytes8
encode_upload_response_expedited index subindex value =
    if length value == 0 || ltb 4 (length value)
    then none
    else some (
        object_frame
          (bit_or
            (bit_or (bit_or (scs_initiate_upload_response <<< 5) (u8 (4 - length value) <<< 2))
              0x02)
            0x01)
          index subindex value)

unfoldable pub encode_upload_response_segmented : ℕ → ℕ → ℕ → Bytes8
encode_upload_response_segmented index subindex total_size =
    object_frame (bit_or (scs_initiate_upload_response <<< 5) 0x01) index subindex
      (le_bytes32 total_size)

-- The command byte of a segment in either direction.
unfoldable pub segment_head : ℕ → Bool → ℕ → Bool → ℕ
segment_head specifier toggle n last =
    bit_or (bit_or (bit_or (specifier <<< 5) (if toggle then 0x10 else 0)) (u8 n <<< 1))
      (if last then 0x01 else 0)

unfoldable pub encode_upload_segment_response : Bool → List ℕ → Bool → Option Bytes8
encode_upload_segment_response toggle segment last =
    if ltb 7 (length segment)
    then none
    else some (
        segment_frame (segment_head scs_upload_segment_response toggle (7 - length segment) last)
          segment)

unfoldable pub encode_download_response : ℕ → ℕ → Bytes8
encode_download_response index subindex =
    object_frame (scs_initiate_download_response <<< 5) index subindex []

unfoldable pub encode_download_segment_response : Bool → Bytes8
encode_download_segment_response toggle =
    segment_frame (bit_or (scs_download_segment_response <<< 5) (if toggle then 0x10 else 0)) []

unfoldable pub parse_index_sub : Bytes8 → ℕ × ℕ
parse_index_sub d = (join_bytes d.b1 d.b2, d.b3)
