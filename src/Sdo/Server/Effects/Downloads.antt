-- ===== src/Sdo/Server/Effects/Downloads.antt =====
-- What the end of a download does (canopen-core/src/sdo/server.rs).
use yacob.Base.Bytes.{from_le32, has_bits, to_list, ◌>>>◌, ◌<<<◌, u8, join_bytes, Bytes8}
use yacob.Nmt.{same_state, operational}
use yacob.Sdo.Abort.{
  out_of_memory, data_transfer_device_state, AbortCode, data_transfer_error, length_too_high,
  length_too_low, crc_error,
}
use yacob.Sdo.Validate.{is_pdo_config_index, SdoContext}
use yacob.Sdo.Server.State.{
  empty_buf, SegmentedTransfer, BlockDownloadState, buf_size, SdoServer, TransferState, segmented,
  block_upload, block_download, upload, download, respond, panicked, Outcome, stray,
}
use yacob.Base.{
  write_at, ◌||◌, not, ◌&&◌, bit_or, take, bit_and, ◌-◌, ℕ, ◌+◌, ◌≡◌, refl, arith, false, List,
  drop, Option, some, none, ◌==◌, ltb, if◌then◌else◌,
}
use yacob.Sdo.Protocol.{
  parse_index_sub, encode_download_response, encode_download_segment_response, encode_abort,
}
use yacob.Sdo.Server.Segmented.{
  segment_refusal, segment_payload, expedited_len, download_segment, commit, only,
  handle_initiate_download, handle_download_segment,
}
use yacob.Sdo.Crc.{crc16_ccitt_update}
use yacob.Sdo.Server.Block.{
  finish_block_download, short_frame, initiate_block_download, handle_block_download,
}
use yacob.Sdo.Od.{ObjectDictionary, OdEvent}
use yacob.Sdo.Server.Effects.{Effect, kept, only-Effect, if-Effect, commit-Effect}

module _ {O : Type 0} (dict : ObjectDictionary O) (capacity : ℕ) where
  option-Effect :
      (written : Option (ℕ × ℕ)) (od : O) (events : List OdEvent) (ctx : SdoContext)
      (r : Option AbortCode) (x : AbortCode → Outcome O) (y : Outcome O)
      → ((c : AbortCode) → Effect dict capacity written od events ctx (x c))
      → Effect dict capacity written od events ctx y
      → Effect dict capacity written od events ctx (elim r [ some c ↦ x c | none ↦ y ])
  option-Effect written od events ctx (some c) x y p q = p c
  option-Effect written od events ctx none x y p q = q

  pub download_segment-Effect :
      (s : SdoServer) (t : SegmentedTransfer) (request : Bytes8) (od : O) (events : List OdEvent)
      (ctx : SdoContext)
      → Effect dict capacity s.committed_write od events ctx
          (download_segment dict capacity s t request od events ctx)
  unfolding download_segment
  download_segment-Effect s t request od events ctx =
      let seg_len = 7 - bit_and (request.b0 >>> 1) 0x07 in
      let received = t.offset + seg_len in
      let last = has_bits request.b0 0x01 in
      let filled = write_at t.buf t.offset (segment_payload request seg_len) in
      let bytes = take received filled in
      let ended : SdoServer = record s { transfer = none } in
      let accepted = encode_download_segment_response (has_bits request.b0 0x10) in
      let committed = commit dict capacity ended od events ctx t.index t.subindex bytes accepted in
      let more : Outcome O = only od events (
        record s {
          transfer = some (
              segmented (record t {
                buf = filled;
                offset = received;
                toggle = not t.toggle;
                last_activity_us = ctx.now_us;
              }));
        },
        respond accepted,
      ) in
      option-Effect s.committed_write od events ctx
        (segment_refusal t (has_bits request.b0 0x10) received last)
        (λ c. only od events (ended, respond (encode_abort t.index t.subindex c)))
        (if last then committed else more) (λ c. kept refl refl refl)
        (if-Effect dict capacity s.committed_write od events ctx last committed more
          (commit-Effect dict capacity ended od events ctx t.index t.subindex bytes accepted refl)
          (kept refl refl refl))

  pub finish_block_download-Effect :
      (s : SdoServer) (t : BlockDownloadState) (request : Bytes8) (od : O) (events : List OdEvent)
      (ctx : SdoContext)
      → Effect dict capacity s.committed_write od events ctx
          (finish_block_download dict capacity s t request od events ctx)
  unfolding finish_block_download
  finish_block_download-Effect s t request od events ctx =
      let w = s.committed_write in
      let ended : SdoServer = record s { transfer = none } in
      let n_unused = bit_and (request.b0 >>> 2) 0x07 in
      let data_len = t.offset - n_unused in
      let bytes = take data_len t.buf in
      let refuse : AbortCode → Outcome O =
        λ code. only od events (ended, respond (encode_abort t.index t.subindex code)) in
      let committed =
        commit dict capacity ended od events ctx t.index t.subindex bytes
          (short_frame (bit_or (u8 (5 <<< 5)) 0x01) 0 0) in
      let crc =
        if t.crc_enabled && not (crc16_ccitt_update 0 bytes == join_bytes request.b1 request.b2)
        then refuse crc_error
        else committed in
      let sized =
        if t.size_indicated && not (data_len == t.total_len)
        then refuse (if ltb t.total_len data_len then length_too_high else length_too_low)
        else crc in
      let fits = if ltb buf_size data_len then only od events (s, panicked) else sized in
      if-Effect dict capacity w od events ctx (ltb 6 n_unused || ltb t.offset n_unused)
        (refuse data_transfer_error) fits (kept refl refl refl)
        (if-Effect dict capacity w od events ctx (ltb buf_size data_len)
          (only od events (s, panicked)) sized (kept refl refl refl)
          (if-Effect dict capacity w od events ctx
            (t.size_indicated && not (data_len == t.total_len))
            (refuse (if ltb t.total_len data_len then length_too_high else length_too_low)) crc
            (kept refl refl refl)
            (if-Effect dict capacity w od events ctx
              (t.crc_enabled
                && not (crc16_ccitt_update 0 bytes == join_bytes request.b1 request.b2))
              (refuse crc_error) committed (kept refl refl refl)
              (commit-Effect dict capacity ended od events ctx t.index t.subindex bytes
                (short_frame (bit_or (u8 (5 <<< 5)) 0x01) 0 0) refl))))

  pub handle_initiate_download-Effect :
      (s : SdoServer) (request : Bytes8) (od : O) (events : List OdEvent) (ctx : SdoContext)
      → Effect dict capacity s.committed_write od events ctx
          (handle_initiate_download dict capacity s request od events ctx)
  unfolding handle_initiate_download
  handle_initiate_download-Effect s request od events ctx =
      let w = s.committed_write in
      let (index, subindex) = parse_index_sub request in
      let size_indicated = has_bits request.b0 0x01 in
      let bytes =
        take (expedited_len dict od index subindex request.b0) (drop 4 (to_list request)) in
      let total_len =
        if size_indicated then from_le32 request.b4 request.b5 request.b6 request.b7 else 0 in
      let ended : SdoServer = record s { transfer = none } in
      let accepted = encode_download_response index subindex in
      let refuse : AbortCode → Outcome O =
        λ code. only od events (s, respond (encode_abort index subindex code)) in
      let committed = commit dict capacity ended od events ctx index subindex bytes accepted in
      let begun : Outcome O = only od events (
        record s {
          transfer = some (
              segmented (record {
                index = index;
                subindex = subindex;
                toggle = false;
                direction = download;
                buf = empty_buf;
                offset = 0;
                total_len = total_len;
                size_indicated = size_indicated;
                last_activity_us = ctx.now_us;
              }));
        },
        respond accepted,
      ) in
      let plain = if ltb buf_size total_len then refuse out_of_memory else begun in
      let open_ = if has_bits request.b0 0x02 then committed else plain in
      if-Effect dict capacity w od events ctx
        (same_state ctx.nmt_state operational && is_pdo_config_index index)
        (refuse data_transfer_device_state) open_ (kept refl refl refl)
        (if-Effect dict capacity w od events ctx (has_bits request.b0 0x02) committed plain
          (commit-Effect dict capacity ended od events ctx index subindex bytes accepted refl)
          (if-Effect dict capacity w od events ctx (ltb buf_size total_len) (refuse out_of_memory)
            begun (kept refl refl refl) (kept refl refl refl)))

  pub handle_download_segment-Effect :
      (s : SdoServer) (request : Bytes8) (od : O) (events : List OdEvent) (ctx : SdoContext)
      → Effect dict capacity s.committed_write od events ctx
          (handle_download_segment dict capacity s request od events ctx)
  unfolding handle_download_segment
  handle_download_segment-Effect s request od events ctx = go s.transfer s.committed_write
    where
      go :
          (o : Option TransferState) (c : Option (ℕ × ℕ))
          → Effect dict capacity c od events ctx (
              handle_download_segment dict capacity
                (record { transfer = o; committed_write = c })
                request
                od
                events
                ctx)
      go none c = kept refl refl refl
      go (some (segmented t)) c =
          elim t.direction
            as (λ d. Effect dict capacity c od events ctx (elim d [
              | upload ↦
                  only od events
                    (record { transfer = some (segmented t); committed_write = c }, respond stray)
              | download ↦
                  download_segment dict capacity
                    (record { transfer = some (segmented t); committed_write = c }) t request od
                    events ctx
            ])) [
              | upload ↦ kept refl refl refl
              | download ↦
                  download_segment-Effect
                    (record { transfer = some (segmented t); committed_write = c }) t request od
                    events ctx
            ]
      go (some (block_upload t)) c = kept refl refl refl
      go (some (block_download t)) c = kept refl refl refl

  initiate_block_download-kept :
      (s : SdoServer) (request : Bytes8) (ctx : SdoContext)
      → (initiate_block_download dict s request ctx).0.committed_write ≡ s.committed_write
  unfolding initiate_block_download
  initiate_block_download-kept s request ctx = ground arith

  pub handle_block_download-Effect :
      (s : SdoServer) (request : Bytes8) (od : O) (events : List OdEvent) (ctx : SdoContext)
      → Effect dict capacity s.committed_write od events ctx
          (handle_block_download dict capacity s request od events ctx)
  unfolding handle_block_download
  handle_block_download-Effect s request od events ctx =
      if-Effect dict capacity s.committed_write od events ctx (bit_and request.b0 0x01 == 0) _ _
        (only-Effect dict capacity s.committed_write od events ctx
          (initiate_block_download dict s request ctx) (initiate_block_download-kept s request ctx))
        (go s.transfer s.committed_write)
    where
      go :
          (o : Option TransferState) (c : Option (ℕ × ℕ))
          → let s' : SdoServer = record { transfer = o; committed_write = c } in
            Effect dict capacity c od events ctx (elim o [
              | some (block_download t) ↦
                  finish_block_download dict capacity s' t request od events ctx
              | some (segmented t) ↦ only od events (s', respond stray)
              | some (block_upload t) ↦ only od events (s', respond stray)
              | none ↦ only od events (s', respond stray)
            ])
      go none c = kept refl refl refl
      go (some (segmented t)) c = kept refl refl refl
      go (some (block_upload t)) c = kept refl refl refl
      go (some (block_download t)) c =
          finish_block_download-Effect
            (record { transfer = some (block_download t); committed_write = c }) t request od events
            ctx
