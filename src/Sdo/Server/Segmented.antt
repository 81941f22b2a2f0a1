-- ===== src/Sdo/Server/Segmented.antt =====
-- canopen-core/src/sdo/server.rs: expedited and segmented transfers.
use yacob.Base.{
  Option, Bool, ℕ, ◌+◌, ◌-◌, true, false, not, ◌&&◌, ◌||◌, if◌then◌else◌, same, ltb, leb, ◌==◌,
  bit_and, min, List, length, take, drop, write_at, some, none,
}
use yacob.Base.Bytes.{Bytes8, to_list, has_bits, from_le32, ◌>>>◌}
use yacob.Base.Results.{Result, ok, err}
use yacob.Nmt.{operational, same_state}
use yacob.Sdo.Abort.{
  AbortCode, toggle_bit_not_alternated, length_too_high, length_too_low, out_of_memory,
  data_transfer_device_state,
}
use yacob.Sdo.Protocol.{
  parse_index_sub, encode_abort, encode_sdo_abort, encode_upload_response_expedited,
  encode_upload_response_segmented, encode_upload_segment_response, encode_download_response,
  encode_download_segment_response,
}
use yacob.Sdo.Od.{ObjectDictionary, OdEvent, sdo, OdError}
use yacob.Sdo.Validate.{
  SdoContext, is_pdo_config_index, known_size, od_read_abort, od_write_abort, validate_download,
}
use yacob.Sdo.Server.State.{
  SdoServer, SegmentedTransfer, upload, download, segmented, block_upload, block_download, Reply,
  respond, panicked, expect, Outcome, push_event, stray, buf_size, empty_buf,
}

-- Seven bytes a segment: `remaining.min(7)`.
abbrev pub segment_len : ℕ → ℕ → ℕ
segment_len total_len offset = min (total_len - offset) 7

-- The part of `handle_upload_segment` behind the match on the transfer.
unfoldable pub upload_segment : SdoServer → SegmentedTransfer → Bytes8 → ℕ → SdoServer × Reply
upload_segment s t request now_us =
    let client_toggle = has_bits request.b0 0x10 in
    let seg_len = segment_len t.total_len t.offset in
    let last = leb (t.total_len - t.offset) 7 in
    let t' = record t {
      offset = t.offset + seg_len;
      toggle = not t.toggle;
      last_activity_us = now_us;
    } in
    if not (same client_toggle t.toggle)
    then (
      record s { transfer = none },
      respond (encode_abort t.index t.subindex toggle_bit_not_alternated),
    )
    else if ltb t.total_len t.offset || ltb buf_size (t.offset + seg_len)
    then (s, panicked)
    else (
      record s { transfer = if last then none else some (segmented t') },
      expect (encode_upload_segment_response t.toggle (take seg_len (drop t.offset t.buf)) last),
    )

-- `handle_upload_segment`.
unfoldable pub handle_upload_segment : SdoServer → Bytes8 → ℕ → SdoServer × Reply
handle_upload_segment s request now_us = elim s.transfer [
  | some (segmented t) ↦ elim t.direction [
    | upload ↦ upload_segment s t request now_us
    | download ↦ (s, respond stray)
  ]
  | some (block_upload t) ↦ (s, respond stray)
  | some (block_download t) ↦ (s, respond stray)
  | none ↦ (s, respond stray)
]

-- `request[1..1 + len]`.
unfoldable pub segment_payload : Bytes8 → ℕ → List ℕ
segment_payload request len = take len (drop 1 (to_list request))

-- An outcome that leaves the dictionary and the queue alone.
abbrev pub only : {O : Type 0} → O → List OdEvent → SdoServer × Reply → Outcome O
only od events (s, r) = record { server = s; od = od; events = events; reply = r }

-- The abort that a segment which brings the total to `received` bytes is refused with, if any.
unfoldable pub segment_refusal : SegmentedTransfer → Bool → ℕ → Bool → Option AbortCode
segment_refusal t client_toggle received last =
    if not (same client_toggle t.toggle)
    then some toggle_bit_not_alternated
    else if t.size_indicated
        && (ltb t.total_len received || (last && not (received == t.total_len)))
    then some (if ltb t.total_len received then length_too_high else length_too_low)
    else if ltb buf_size received
    then some out_of_memory
    else none

module _ {O : Type 0} (dict : ObjectDictionary O) where
  open dict use {read, write}

  -- The answer to a read of `len` bytes into `buf`.
  unfoldable pub begin_upload : SdoServer → ℕ → ℕ → List ℕ → ℕ → ℕ → SdoServer × Reply
  begin_upload s index subindex buf len now_us =
      if ltb 0 len && leb len 4
      then (
        record s { transfer = none },
        expect (encode_upload_response_expedited index subindex (take len buf)),
      )
      else (
        record s {
          transfer = some (
              segmented (record {
                index = index;
                subindex = subindex;
                toggle = false;
                direction = upload;
                buf = buf;
                offset = 0;
                total_len = len;
                size_indicated = true;
                last_activity_us = now_us;
              }));
        },
        respond (encode_upload_response_segmented index subindex len),
      )

  -- The answer to the result of a read into `buf`.
  unfoldable pub answer_read :
      SdoServer → O → ℕ → ℕ → ℕ → List ℕ → Result ℕ OdError → SdoServer × Reply
  answer_read s od index subindex now_us buf (ok len) = begin_upload s index subindex buf len now_us
  answer_read s od index subindex now_us buf (err e) =
      (s, respond (encode_sdo_abort index subindex (od_read_abort dict od index e)))

  -- `handle_initiate_upload`.
  unfoldable pub handle_initiate_upload : SdoServer → Bytes8 → O → ℕ → SdoServer × Reply
  handle_initiate_upload s request od now_us =
      let (index, subindex) = parse_index_sub request in
      let (result, buf) = read od index subindex empty_buf in
      answer_read s od index subindex now_us buf result

  -- The end of every download: check the value, write it, and tell the node. `accepted` is the
  -- response to a value that is written.
  unfoldable pub commit :
      ℕ → SdoServer → O → List OdEvent → SdoContext → ℕ → ℕ → List ℕ → Bytes8 → Outcome O
  commit capacity s od events ctx index subindex bytes accepted =
      let (written, od') = write od index subindex bytes in
      elim (validate_download dict od ctx index subindex bytes) [
        | err code ↦ record {
          server = s;
          od = od;
          events = events;
          reply = respond (encode_sdo_abort index subindex code);
        }
        | ok u ↦ elim written [
          | ok v ↦ record {
            server = record s { committed_write = some (index, subindex) };
            od = od';
            events =
                push_event capacity events
                  (record { index = index; subindex = subindex; source = sdo });
            reply = respond accepted;
          }
          | err e ↦ record {
            server = s;
            od = od';
            events = events;
            reply = respond (
                encode_sdo_abort index subindex
                  (od_write_abort dict od' index subindex (length bytes) e));
          }
        ]
      ]

  -- How many bytes an expedited download carries.
  abbrev pub expedited_len : O → ℕ → ℕ → ℕ → ℕ
  expedited_len od index subindex b0 =
      if has_bits b0 0x01
      then 4 - bit_and (b0 >>> 2) 0x03
      else elim (known_size dict od index subindex) [ some n ↦ min n 4 | none ↦ 4 ]

  -- `handle_initiate_download`.
  unfoldable pub handle_initiate_download :
      ℕ → SdoServer → Bytes8 → O → List OdEvent → SdoContext → Outcome O
  handle_initiate_download capacity s request od events ctx =
      let (index, subindex) = parse_index_sub request in
      let expedited = has_bits request.b0 0x02 in
      let size_indicated = has_bits request.b0 0x01 in
      let bytes = take (expedited_len od index subindex request.b0) (drop 4 (to_list request)) in
      let total_len =
        if size_indicated then from_le32 request.b4 request.b5 request.b6 request.b7 else 0 in
      if same_state ctx.nmt_state operational && is_pdo_config_index index
      then only od events (s, respond (encode_abort index subindex data_transfer_device_state))
      else if expedited
      then commit capacity (record s { transfer = none }) od events ctx index subindex bytes
          (encode_download_response index subindex)
      else if ltb buf_size total_len
      then only od events (s, respond (encode_abort index subindex out_of_memory))
      else only od events (
        record s {
          transfer = some (
              segmented (record {
                index = index;
                subindex = subindex;
                toggle = false;
                direction = download;
                buf = empty_buf;
                offset = 0;
                total_len = total_len;
                size_indicated = size_indicated;
                last_activity_us = ctx.now_us;
              }));
        },
        respond (encode_download_response index subindex),
      )

  -- The part of `handle_download_segment` behind the match on the transfer.
  unfoldable pub download_segment :
      ℕ → SdoServer → SegmentedTransfer → Bytes8 → O → List OdEvent → SdoContext → Outcome O
  download_segment capacity s t request od events ctx =
      let client_toggle = has_bits request.b0 0x10 in
      let last = has_bits request.b0 0x01 in
      let seg_len = 7 - bit_and (request.b0 >>> 1) 0x07 in
      let received = t.offset + seg_len in
      let ended = record s { transfer = none } in
      let filled = write_at t.buf t.offset (segment_payload request seg_len) in
      let t' = record t {
        buf = filled;
        offset = received;
        toggle = not t.toggle;
        last_activity_us = ctx.now_us;
      } in
      let accepted = encode_download_segment_response client_toggle in
      elim (segment_refusal t client_toggle received last) [
        | some code ↦ only od events (ended, respond (encode_abort t.index t.subindex code))
        | none ↦
            if last
            then commit capacity ended od events ctx t.index t.subindex (take received filled)
                accepted
            else only od events (record s { transfer = some (segmented t') }, respond accepted)
      ]

  -- `handle_download_segment`.
  unfoldable pub handle_download_segment :
      ℕ → SdoServer → Bytes8 → O → List OdEvent → SdoContext → Outcome O
  handle_download_segment capacity s request od events ctx = elim s.transfer [
    | some (segmented t) ↦ elim t.direction [
      | upload ↦ only od events (s, respond stray)
      | download ↦ download_segment capacity s t request od events ctx
    ]
    | some (block_upload t) ↦ only od events (s, respond stray)
    | some (block_download t) ↦ only od events (s, respond stray)
    | none ↦ only od events (s, respond stray)
  ]
