-- ===== src/Sdo/Validate.antt =====
-- canopen-core/src/sdo/server.rs: what a download is checked against before it is written.
-- A `raw` is the four bytes of a `u32`; the callers compare lengths before they read them.
pub mod Plan
pub mod Rules
use yacob.Base.{
  ℕ, zero, suc, ◌+◌, ◌≡◌, Bool, true, false, not, ◌&&◌, ◌||◌, if◌then◌else◌, leb, ltb, ◌==◌,
  bit_and, List, [], ◌∷◌, length, get_or, contains, Option, some, none,
}
use yacob.Base.Bytes.{u16, from_le32, has_bits, ◌>>>◌}
use yacob.Base.Results.{Result, ok, err, ◌>>=◌, ◌>>◌, map_err}
use yacob.Nmt.{NmtState}
use yacob.Sync.{is_supported_sync_cob_id, is_valid_sync_counter_overflow}
use yacob.Sdo.Abort.{
  AbortCode, SdoAbort, to_u32, value_range_exceeded, parameter_incompatibility, subindex_not_found,
  object_not_found, read_only_object, write_only_object, data_type_mismatch as code_mismatch,
  length_too_high, length_too_low, hardware_error as code_hardware, out_of_memory,
}
use yacob.Sdo.Od.{
  ObjectDictionary, OdError, not_found, read_only, write_only, data_type_mismatch, value_too_long,
  value_range, hardware_error, abort, size,
}

-- `SdoCobIds`, with `claims`.
pub record SdoCobIds : Type 0 where
  pub default_rx : ℕ
  pub default_tx : ℕ
  pub extra_rx : List ℕ
  pub extra_tx : List ℕ

unfoldable pub sdo_claims : SdoCobIds → ℕ → Bool
sdo_claims ids cob =
    not (cob == 0)
    && (cob == ids.default_rx
        || (cob == ids.default_tx || (contains ids.extra_rx cob || contains ids.extra_tx cob)))

-- `ReservedCobIds`, with `claims`.
pub record ReservedCobIds : Type 0 where
  pub ids : List ℕ
  pub truncated : Bool

unfoldable pub reserved_claims : ReservedCobIds → ℕ → Bool
reserved_claims r cob = not (cob == 0) && (r.truncated || contains r.ids cob)

-- `SdoContext`.
pub record SdoContext : Type 0 where
  pub nmt_state : NmtState
  pub now_us : ℕ
  pub heartbeat_consumer_count : ℕ
  pub cob_ids : SdoCobIds
  pub reserved_cob_ids : ReservedCobIds
  pub sync_cob_id : ℕ

abbrev pub Check : Type 0
Check = Result (Unit {0}) AbortCode

-- `u32::from_le_bytes(data.try_into().unwrap())` of four bytes.
abbrev pub raw_of : List ℕ → ℕ
raw_of bytes = from_le32 (get_or bytes 0 0) (get_or bytes 1 0) (get_or bytes 2 0) (get_or bytes 3 0)

-- `is_pdo_config_index`.
unfoldable pub is_pdo_config_index : ℕ → Bool
is_pdo_config_index index = leb 0x1400 index && leb index 0x1BFF

unfoldable pub validate_sync_cob_id_write : SdoCobIds → ReservedCobIds → ℕ → ℕ → List ℕ → Check
validate_sync_cob_id_write sdo_cobs reserved_cobs index subindex bytes =
    let raw = raw_of bytes in
    let cob = u16 (bit_and raw 0x7FF) in
    if not (index == 0x1005) || (not (subindex == 0) || not (length bytes == 4))
    then ok tt
    else if not (is_supported_sync_cob_id raw)
    then err value_range_exceeded
    else if sdo_claims sdo_cobs cob || reserved_claims reserved_cobs cob
    then err parameter_incompatibility
    else ok tt

unfoldable pub validate_sync_counter_overflow_write : ℕ → ℕ → List ℕ → Check
validate_sync_counter_overflow_write index subindex bytes =
    if not (index == 0x1019) || (not (subindex == 0) || length bytes == 0)
    then ok tt
    else if not (is_valid_sync_counter_overflow (get_or bytes 0 0))
    then err value_range_exceeded
    else ok tt

unfoldable pub validate_pdo_cob_id_write : SdoCobIds → ℕ → ℕ → ℕ → List ℕ → Check
validate_pdo_cob_id_write sdo_cobs sync_cob_id index subindex bytes =
    let is_comm_param =
      leb 0x1400 index && leb index 0x15FF || leb 0x1800 index && leb index 0x19FF in
    let raw = raw_of bytes in
    let cob = u16 (bit_and raw 0x7FF) in
    if not is_comm_param || (not (subindex == 1) || not (length bytes == 4))
    then ok tt
    else if has_bits raw 0x3FFF_F800
    then err value_range_exceeded
    else if sdo_claims sdo_cobs cob || (not (cob == 0) && cob == sync_cob_id)
    then err parameter_incompatibility
    else ok tt

module _ {O : Type 0} (dict : ObjectDictionary O) where
  open dict use {lookup, read, sub_count, validate_write}

  -- The loop over `1..=count`, at `sub`, with `left` rounds to go and the buffer of the last read.
  unfoldable pub heartbeat_scan : O → ℕ → ℕ → ℕ → ℕ → ℕ → List ℕ → Check
  heartbeat_scan od index subindex node zero sub buf = ok tt
  heartbeat_scan od index subindex node (suc left) sub buf =
      let (result, buf') = read od index sub buf in
      let skipped = heartbeat_scan od index subindex node left (sub + 1) buf in
      let after = heartbeat_scan od index subindex node left (sub + 1) buf' in
      let other = raw_of buf' in
      if sub == subindex then skipped else elim result [
        | ok n ↦
            if has_bits other 0xFFFF && bit_and (other >>> 16) 0xFF == node
            then err parameter_incompatibility
            else after
        | err e ↦ after
      ]

  unfoldable pub validate_heartbeat_consumer_write : O → SdoCobIds → ℕ → ℕ → ℕ → ℕ → List ℕ → Check
  validate_heartbeat_consumer_write od sdo_cobs sync_cob_id consumer_count index subindex bytes =
      let raw = raw_of bytes in
      let node = bit_and (raw >>> 16) 0xFF in
      let cob = 0x700 + u16 node in
      let count : ℕ = elim (sub_count od index) [ some n ↦ n | none ↦ 0 ] in
      let scan = heartbeat_scan od index subindex node count 1 (0 ∷ 0 ∷ 0 ∷ 0 ∷ []) in
      if not (index == 0x1016) || (subindex == 0 || not (length bytes == 4))
      then ok tt
      else if not (raw >>> 24 == 0)
      then err value_range_exceeded
      else if bit_and raw 0xFFFF == 0
      then ok tt
      else if node == 0 || ltb 127 node
      then err value_range_exceeded
      else if leb subindex consumer_count && (sdo_claims sdo_cobs cob || cob == sync_cob_id)
      then err parameter_incompatibility
      else scan

  -- `od_error_to_abort`, `od_read_abort` and `od_write_abort`.
  unfoldable pub od_error_to_abort : O → ℕ → OdError → SdoAbort
  od_error_to_abort od index not_found = elim (lookup od index 0) [
    | some m ↦ to_u32 subindex_not_found
    | none ↦ to_u32 object_not_found
  ]
  od_error_to_abort od index read_only = to_u32 read_only_object
  od_error_to_abort od index write_only = to_u32 write_only_object
  od_error_to_abort od index data_type_mismatch = to_u32 code_mismatch
  od_error_to_abort od index value_too_long = to_u32 length_too_high
  od_error_to_abort od index value_range = to_u32 value_range_exceeded
  od_error_to_abort od index hardware_error = to_u32 code_hardware
  od_error_to_abort od index (abort code) = code

  unfoldable pub od_read_abort : O → ℕ → OdError → SdoAbort
  od_read_abort od index value_too_long = to_u32 out_of_memory
  od_read_abort od index e = od_error_to_abort od index e

  -- `od.lookup(index, subindex).and_then(|m| m.data_type.size())`.
  abbrev pub known_size : O → ℕ → ℕ → Option ℕ
  known_size od index subindex = elim (lookup od index subindex) [
    | some m ↦ size m.data_type
    | none ↦ none
  ]

  unfoldable pub od_write_abort : O → ℕ → ℕ → ℕ → OdError → SdoAbort
  od_write_abort od index subindex data_len data_type_mismatch =
      elim (known_size od index subindex) [
        | some n ↦
            if ltb n data_len
            then to_u32 length_too_high
            else if ltb data_len n
            then to_u32 length_too_low
            else od_error_to_abort od index data_type_mismatch
        | none ↦ od_error_to_abort od index data_type_mismatch
      ]
  od_write_abort od index subindex data_len e = od_error_to_abort od index e

  -- `validate_download`: the rules in their order, then the dictionary's own.
  unfoldable pub validate_download : O → SdoContext → ℕ → ℕ → List ℕ → Result (Unit {0}) SdoAbort
  validate_download od ctx index subindex bytes = do
    map_err to_u32 (
        validate_heartbeat_consumer_write od ctx.cob_ids ctx.sync_cob_id
          ctx.heartbeat_consumer_count index subindex bytes)
    map_err to_u32 (validate_pdo_cob_id_write ctx.cob_ids ctx.sync_cob_id index subindex bytes)
    map_err to_u32
        (validate_sync_cob_id_write ctx.cob_ids ctx.reserved_cob_ids index subindex bytes)
    map_err to_u32 (validate_sync_counter_overflow_write index subindex bytes)
    map_err (od_write_abort od index subindex (length bytes))
        (validate_write od index subindex bytes)
