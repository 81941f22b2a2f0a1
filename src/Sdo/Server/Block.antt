-- ===== src/Sdo/Server/Block.antt =====
-- canopen-core/src/sdo/server.rs: block transfers. The command bytes `6 << 5` and `5 << 5` are
-- written as shifts of `u8`, which drop the bit that leaves the byte.
use yacob.Base.{
  ℕ, ◌+◌, ◌-◌, ◌*◌, ◌%◌, Bool, true, false, not, ◌&&◌, ◌||◌, if◌then◌else◌, ltb, leb, ◌==◌, bit_and,
  bit_or, min, List, [], ◌∷◌, take, drop, write_at, some, none,
}
use yacob.Base.Bytes.{
  Bytes8, has_bits, from_le32, le_bytes32, low_byte, high_byte, u8, ◌>>>◌, ◌<<<◌, join_bytes,
}
use yacob.Base.Results.{Result, ok, err}
use yacob.Nmt.{operational, same_state}
use yacob.Sdo.Abort.{
  invalid_block_size, invalid_sequence_number, length_too_high, length_too_low, out_of_memory,
  data_transfer_device_state, data_transfer_error, crc_error,
}
use yacob.Sdo.Protocol.{
  object_frame, segment_frame, parse_index_sub, encode_abort, encode_sdo_abort,
}
use yacob.Sdo.Od.{OdError, ObjectDictionary, OdEvent}
use yacob.Sdo.Crc.{crc16_ccitt_update}
use yacob.Sdo.Validate.{SdoContext, is_pdo_config_index, od_read_abort}
use yacob.Sdo.Server.State.{
  SdoServer, BlockUploadState, BlockDownloadState, segmented, block_upload, block_download, Reply,
  respond, silent, panicked, Outcome, stray, buf_size, empty_buf, max_blksize,
}
use yacob.Sdo.Server.Segmented.{commit, only, segment_len, segment_payload}

-- The part of `poll_block_upload` behind the match on the transfer. The debug build panics where
-- `seqno + 1` leaves the `u8`, which the invariant rules out; the release build wraps, as here.
unfoldable pub poll_segment : SdoServer → BlockUploadState → ℕ → SdoServer × Reply
poll_segment s t now_us =
    let seg_data_len = segment_len t.total_len t.offset in
    let is_last_segment = leb (t.total_len - t.offset) 7 in
    let is_last_in_subblock = leb t.blksize t.seqno || is_last_segment in
    let head = if is_last_segment && is_last_in_subblock then bit_or t.seqno 0x80 else t.seqno in
    let segment = take seg_data_len (drop t.offset t.buf) in
    let t' = record t {
      crc = crc16_ccitt_update t.crc segment;
      offset = t.offset + seg_data_len;
      last_activity_us = now_us;
      seqno = if is_last_in_subblock then 0 else u8 (t.seqno + 1);
      last_seqno = bit_and head 0x7F;
    } in
    if t.seqno == 0
    then (s, silent)
    else if ltb t.total_len t.offset || ltb buf_size (t.offset + seg_data_len)
    then (s, panicked)
    else (record s { transfer = some (block_upload t') }, respond (segment_frame head segment))

-- `poll_block_upload`.
unfoldable pub poll_block_upload : SdoServer → ℕ → SdoServer × Reply
poll_block_upload s now_us = elim s.transfer [
  | some (block_upload t) ↦ poll_segment s t now_us
  | some (segmented t) ↦ (s, silent)
  | some (block_download t) ↦ (s, silent)
  | none ↦ (s, silent)
]

-- `(1..=MAX_BLKSIZE).contains(&blksize)`.
abbrev pub is_blksize : ℕ → Bool
is_blksize blksize = leb 1 blksize && leb blksize max_blksize

-- Sub-command 3, "start upload".
unfoldable pub start_block_upload : SdoServer → ℕ → SdoServer × Reply
start_block_upload s now_us = elim s.transfer [
  | some (block_upload t) ↦
      if t.seqno == 0 && t.offset == 0
      then (
        record s {
          transfer = some (block_upload (record t { seqno = 1; last_activity_us = now_us }));
        },
        silent,
      )
      else (s, respond stray)
  | some (segmented t) ↦ (s, respond stray)
  | some (block_download t) ↦ (s, respond stray)
  | none ↦ (s, respond stray)
]

-- How many bytes of the last segment carry no data.
abbrev pub unused_bytes : ℕ → ℕ
unused_bytes total_len = if total_len % 7 == 0 then 0 else 7 - total_len % 7

-- `[0; 8]` with the command byte and the next two bytes given.
abbrev pub short_frame : ℕ → ℕ → ℕ → Bytes8
short_frame b0 b1 b2 = segment_frame b0 (b1 ∷ b2 ∷ [])

-- Sub-command 2, the acknowledgement of a sub-block, for a transfer that waits for it.
unfoldable pub ack_block_upload : SdoServer → BlockUploadState → Bytes8 → ℕ → SdoServer × Reply
ack_block_upload s t request now_us =
    let ackseq = request.b1 in
    let new_blksize = request.b2 in
    let ended = record s { transfer = none } in
    let offset' = min (t.subblock_start_offset + ackseq * 7) t.total_len in
    let crc' = crc16_ccitt_update 0 (take offset' t.buf) in
    let t' = record t {
      offset = offset';
      crc = crc';
      subblock_start_offset = offset';
      blksize = new_blksize;
      last_activity_us = now_us;
      seqno = 1;
      last_seqno = 0;
    } in
    if not (is_blksize new_blksize)
    then (ended, respond (encode_abort t.index t.subindex invalid_block_size))
    else if ltb t.last_seqno ackseq
    then (ended, respond (encode_abort t.index t.subindex invalid_sequence_number))
    else if ltb buf_size offset'
    then (s, panicked)
    else if leb t.total_len offset'
    then (
      ended,
      respond (
          short_frame
            (bit_or (bit_or (u8 (6 <<< 5)) 0x01)
              (u8 (bit_and (u8 (unused_bytes t.total_len)) 0x07 <<< 2)))
            (low_byte crc') (high_byte crc')),
    )
    else (record s { transfer = some (block_upload t') }, silent)

-- Sub-command 2 for any transfer.
unfoldable pub handle_block_ack : SdoServer → Bytes8 → ℕ → SdoServer × Reply
handle_block_ack s request now_us = elim s.transfer [
  | some (block_upload t) ↦
      if t.seqno == 0 then ack_block_upload s t request now_us else (s, silent)
  | some (segmented t) ↦ (s, respond stray)
  | some (block_download t) ↦ (s, respond stray)
  | none ↦ (s, respond stray)
]

-- Sub-command 1, the client's confirmation of the end.
unfoldable pub end_block_upload : SdoServer → SdoServer × Reply
end_block_upload s = elim s.transfer [
  | some (block_upload t) ↦ (record s { transfer = none }, silent)
  | some (segmented t) ↦ (s, silent)
  | some (block_download t) ↦ (s, silent)
  | none ↦ (s, silent)
]

-- The part of `handle_block_download_segment` behind the match on the transfer.
unfoldable pub block_segment : SdoServer → BlockDownloadState → Bytes8 → ℕ → SdoServer × Reply
block_segment s t request now_us =
    let seqno = bit_and request.b0 0x7F in
    let is_last = has_bits request.b0 0x80 in
    let ended = record s { transfer = none } in
    let t' = record t {
      buf = write_at t.buf t.offset (segment_payload request 7);
      offset = t.offset + 7;
      seqno = seqno;
      last_activity_us = now_us;
    } in
    if seqno == 0 || not (seqno == u8 (t.seqno + 1))
    then (ended, respond (encode_abort t.index t.subindex invalid_sequence_number))
    else if ltb buf_size t.offset
    then (s, panicked)
    else if ltb (buf_size - t.offset) 7
    then (ended, respond (encode_abort t.index t.subindex out_of_memory))
    else if is_last || leb t.blksize seqno
    then (
      record s {
        transfer = some (
            block_download
              (if is_last then record t' { awaiting_end = true } else record t' { seqno = 0 }));
      },
      respond (short_frame (bit_or (u8 (5 <<< 5)) 0x02) seqno t.blksize),
    )
    else (record s { transfer = some (block_download t') }, silent)

-- `handle_block_download_segment`.
unfoldable pub handle_block_download_segment : SdoServer → Bytes8 → ℕ → SdoServer × Reply
handle_block_download_segment s request now_us = elim s.transfer [
  | some (block_download t) ↦ block_segment s t request now_us
  | some (segmented t) ↦ (s, respond stray)
  | some (block_upload t) ↦ (s, respond stray)
  | none ↦ (s, respond stray)
]

module _ {O : Type 0} (dict : ObjectDictionary O) where
  open dict use {read}

  -- The answer to the result of a read into `buf`.
  unfoldable pub begin_block_upload :
      SdoServer → Bytes8 → O → ℕ → List ℕ → Result ℕ OdError → SdoServer × Reply
  begin_block_upload s request od now_us buf (ok len) =
      let (index, subindex) = parse_index_sub request in
      (
        record s {
          transfer = some (
              block_upload (record {
                index = index;
                subindex = subindex;
                buf = buf;
                total_len = len;
                offset = 0;
                subblock_start_offset = 0;
                blksize = request.b4;
                seqno = 0;
                last_seqno = 0;
                crc = 0;
                last_activity_us = now_us;
              }));
        },
        respond (
            object_frame (bit_or (bit_or (u8 (6 <<< 5)) 0x04) 0x02) index subindex
              (le_bytes32 len)),
      )
  begin_block_upload s request od now_us buf (err e) =
      let (index, subindex) = parse_index_sub request in
      (s, respond (encode_sdo_abort index subindex (od_read_abort dict od index e)))

  -- Sub-command 0, "initiate block upload".
  unfoldable pub initiate_block_upload : SdoServer → Bytes8 → O → ℕ → SdoServer × Reply
  initiate_block_upload s request od now_us =
      let (index, subindex) = parse_index_sub request in
      let (result, buf) = read od index subindex empty_buf in
      if not (is_blksize request.b4)
      then (s, respond (encode_abort index subindex invalid_block_size))
      else begin_block_upload s request od now_us buf result

  -- `handle_block_upload`.
  unfoldable pub handle_block_upload : SdoServer → Bytes8 → O → ℕ → SdoServer × Reply
  handle_block_upload s request od now_us =
      let sub_cmd = bit_and request.b0 0x03 in
      if sub_cmd == 0
      then initiate_block_upload s request od now_us
      else if sub_cmd == 3
      then start_block_upload s now_us
      else if sub_cmd == 2
      then handle_block_ack s request now_us
      else if sub_cmd == 1
      then end_block_upload s
      else (s, respond stray)

  -- "Initiate block download".
  unfoldable pub initiate_block_download : SdoServer → Bytes8 → SdoContext → SdoServer × Reply
  initiate_block_download s request ctx =
      let (index, subindex) = parse_index_sub request in
      let size_indicated = has_bits request.b0 0x02 in
      let total_len =
        if size_indicated then from_le32 request.b4 request.b5 request.b6 request.b7 else 0 in
      if same_state ctx.nmt_state operational && is_pdo_config_index index
      then (s, respond (encode_abort index subindex data_transfer_device_state))
      else if ltb buf_size total_len
      then (s, respond (encode_abort index subindex out_of_memory))
      else (
        record s {
          transfer = some (
              block_download (record {
                index = index;
                subindex = subindex;
                buf = empty_buf;
                offset = 0;
                total_len = total_len;
                size_indicated = size_indicated;
                blksize = max_blksize;
                seqno = 0;
                awaiting_end = false;
                crc_enabled = has_bits request.b0 0x04;
                last_activity_us = ctx.now_us;
              }));
        },
        respond (object_frame (bit_or (u8 (5 <<< 5)) 0x04) index subindex (max_blksize ∷ [])),
      )

  -- "End block download" for a block download; `capacity` is that of the event queue.
  unfoldable pub finish_block_download :
      ℕ → SdoServer → BlockDownloadState → Bytes8 → O → List OdEvent → SdoContext → Outcome O
  finish_block_download capacity s t request od events ctx =
      let n_unused = bit_and (request.b0 >>> 2) 0x07 in
      let client_crc = join_bytes request.b1 request.b2 in
      let data_len = t.offset - n_unused in
      let bytes = take data_len t.buf in
      let ended = record s { transfer = none } in
      if ltb 6 n_unused || ltb t.offset n_unused
      then only od events (ended, respond (encode_abort t.index t.subindex data_transfer_error))
      else if ltb buf_size data_len
      then only od events (s, panicked)
      else if t.size_indicated && not (data_len == t.total_len)
      then only od events (
        ended,
        respond (
            encode_abort t.index t.subindex
              (if ltb t.total_len data_len then length_too_high else length_too_low)),
      )
      else if t.crc_enabled && not (crc16_ccitt_update 0 bytes == client_crc)
      then only od events (ended, respond (encode_abort t.index t.subindex crc_error))
      else commit dict capacity ended od events ctx t.index t.subindex bytes
          (short_frame (bit_or (u8 (5 <<< 5)) 0x01) 0 0)

  -- `handle_block_download`.
  unfoldable pub handle_block_download :
      ℕ → SdoServer → Bytes8 → O → List OdEvent → SdoContext → Outcome O
  handle_block_download capacity s request od events ctx =
      if bit_and request.b0 0x01 == 0
      then only od events (initiate_block_download s request ctx)
      else elim s.transfer [
        | some (block_download t) ↦ finish_block_download capacity s t request od events ctx
        | some (segmented t) ↦ only od events (s, respond stray)
        | some (block_upload t) ↦ only od events (s, respond stray)
        | none ↦ only od events (s, respond stray)
      ]
