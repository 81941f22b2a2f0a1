-- ===== src/Sdo/Exchange/DownloadSteps.antt =====
-- One round of a segmented download, on either side (canopen-core/src/sdo/server.rs, client.rs).
use yacob.Base.{
  ◌==◌, ℕ, ◌+◌, ◌-◌, ◌≤◌, ◌≡◌, refl, arith, Bool, true, false, not, leb, List, length, take, drop,
  Option, some, none, if◌then◌else◌, write_at, length-take, length-drop,
}
use yacob.Base.Bytes.{Bytes8, has_bits}
use yacob.Base.Results.{ok}
use yacob.Sdo.Od.{ObjectDictionary, OdEvent, sdo}
use yacob.Sdo.Frames.{HasFields, segment_head-HasFields, segment_frame_payload}
use yacob.Sdo.Protocol.{
  command_specifier, segment_head, segment_frame, encode_download_segment_response,
}
use yacob.Sdo.Validate.{SdoContext, validate_download}
use yacob.Sdo.Server.State.{
  SdoServer, SegmentedTransfer, download, segmented, respond, buf_size, Outcome, push_event,
}
use yacob.Sdo.Server.Segmented.{
  segment_len, segment_refusal, segment_payload, download_segment, handle_download_segment, commit,
  only,
}
use yacob.Sdo.Server.Process.{is_block_segment, dispatch, end_on_abort, process_with_context}
use yacob.Sdo.Client.{
  SdoClient, download_segmented, idle, download_complete, send_next, process_response, receive,
  handle_download_segment_response, send_download_segment, send,
}
use yacob.Sdo.Exchange.UploadSteps.{request_frame_lem}

-- The segment of a value of `len` bytes at `offset`, and whether it is the last.
abbrev pub piece : List ℕ → ℕ → ℕ → List ℕ
piece buf len offset = take (segment_len len offset) (drop offset buf)

abbrev pub ends : ℕ → ℕ → Bool
ends len offset = leb (len - offset) 7

abbrev pub segment_request : List ℕ → ℕ → ℕ → Bool → Bytes8
segment_request buf len offset toggle =
    segment_frame (segment_head 0 toggle (7 - segment_len len offset) (ends len offset))
      (piece buf len offset)

pub length-piece :
    (buf : List ℕ) (len offset : ℕ)
    → offset ≤ len
    → len ≤ length buf
    → length (piece buf len offset) ≡ segment_len len offset
length-piece buf len offset p q =
    omega (arith, length-take (segment_len len offset) (drop offset buf), length-drop offset buf)

pub request_fields :
    (buf : List ℕ) (len offset : ℕ) (toggle : Bool)
    → HasFields
        (segment_request buf len offset toggle).b0
        0
        toggle
        (7 - segment_len len offset)
        (ends len offset)
request_fields buf len offset toggle =
    segment_head-HasFields toggle (ends len offset) _ (omega arith)

-- The client sends the next segment.
pub send_download_segment_lem :
    (cap : ℕ) (c : SdoClient) (toggle : Bool)
    → c.target_node ≤ 127
    → c.offset ≤ c.total_len
    → c.total_len ≤ cap
    → send_download_segment cap c toggle ≡ (
      record c { offset = c.offset + segment_len c.total_len c.offset },
      send_next (record {
        id = 0x600 + c.target_node;
        dlc = 8;
        bytes = segment_request c.buf c.total_len c.offset toggle;
      }),
    )
unfolding send_download_segment send
send_download_segment_lem cap c toggle n p q = ground (
  arith,
  request_frame_lem (record c { offset = c.offset + segment_len c.total_len c.offset })
      (segment_request c.buf c.total_len c.offset toggle) n,
)

-- The transfer with a segment stored.
abbrev pub stored : SegmentedTransfer → List ℕ → ℕ → SegmentedTransfer
stored t bytes now = record t {
  buf = write_at t.buf t.offset bytes;
  offset = t.offset + length bytes;
  toggle = not t.toggle;
  last_activity_us = now;
}

segment_refusal_lem :
    (t : SegmentedTransfer)
    → t.size_indicated ≡ true
    → t.offset ≤ t.total_len
    → t.total_len ≤ buf_size
    → segment_refusal t t.toggle
        (t.offset + segment_len t.total_len t.offset)
        (ends t.total_len t.offset)
      ≡ none
unfolding segment_refusal
segment_refusal_lem t s p q = ground arith

response_ne_abort : (toggle : Bool) → ((encode_download_segment_response toggle).b0 == 0x80) ≡ false
unfolding encode_download_segment_response
response_ne_abort true = refl
response_ne_abort false = refl

module _ {O : Type 0} (dict : ObjectDictionary O) (capacity : ℕ) where
  open dict use {write}

  -- A write that is validated and done.
  abbrev pub done : OdEvent → Option (ℕ × ℕ) → O → List OdEvent → Bytes8 → Outcome O
  done event written od' events accepted = record {
    server = record { transfer = none; committed_write = written };
    od = od';
    events = push_event capacity events event;
    reply = respond accepted;
  }

  pub commit_lem :
      (s : SdoServer) (od od' : O) (events : List OdEvent) (ctx : SdoContext) (index subindex : ℕ)
      (bytes : List ℕ) (accepted : Bytes8)
      → s.transfer ≡ none
      → validate_download dict od ctx index subindex bytes ≡ ok tt
      → write od index subindex bytes ≡ (ok tt, od')
      → commit dict capacity s od events ctx index subindex bytes accepted
        ≡ done
            (record { index = index; subindex = subindex; source = sdo })
            (some (index, subindex))
            od'
            events
            accepted
  unfolding commit
  commit_lem s od od' events ctx index subindex bytes accepted e v w = ground arith

  download_segment_lem :
      (s : SdoServer) (t : SegmentedTransfer) (buf : List ℕ) (od : O) (events : List OdEvent)
      (ctx : SdoContext)
      → t.size_indicated ≡ true
      → t.offset ≤ t.total_len
      → t.total_len ≤ buf_size
      → t.total_len ≤ length buf
      → download_segment dict capacity s t
          (segment_request buf t.total_len t.offset t.toggle)
          od
          events
          ctx
        ≡ (if ends t.total_len t.offset
            then commit dict capacity
                (record s { transfer = none })
                od
                events
                ctx
                t.index
                t.subindex
                (take
                  (t.offset + segment_len t.total_len t.offset)
                  (write_at t.buf t.offset (piece buf t.total_len t.offset)))
                (encode_download_segment_response t.toggle)
            else only od events (
              record s {
                transfer = some (segmented (stored t (piece buf t.total_len t.offset) ctx.now_us));
              },
              respond (encode_download_segment_response t.toggle),
            ))
  unfolding download_segment segment_payload
  download_segment_lem s t buf od events ctx i p q r = ground (
    arith,
    request_fields buf t.total_len t.offset t.toggle,
    length-piece buf t.total_len t.offset p r,
    segment_frame_payload (segment_request buf t.total_len t.offset t.toggle).b0
        (piece buf t.total_len t.offset),
    segment_refusal_lem t i p q,
  )

  dispatch_segment :
      (s : SdoServer) (request : Bytes8) (od : O) (events : List OdEvent) (ctx : SdoContext)
      → command_specifier request.b0 ≡ 0
      → dispatch dict capacity s request od events ctx
        ≡ handle_download_segment dict capacity s request od events ctx
  unfolding dispatch
  dispatch_segment s request od events ctx e = rw e

  -- The server's round for a segment that is not the last.
  pub process_middle_segment :
      (written : Option (ℕ × ℕ)) (t : SegmentedTransfer) (buf : List ℕ) (od : O)
      (events : List OdEvent) (ctx : SdoContext)
      → t.direction ≡ download
      → t.size_indicated ≡ true
      → t.offset ≤ t.total_len
      → t.total_len ≤ buf_size
      → t.total_len ≤ length buf
      → ends t.total_len t.offset ≡ false
      → process_with_context dict capacity
          (record { transfer = some (segmented t); committed_write = written })
          (segment_request buf t.total_len t.offset t.toggle)
          od
          events
          ctx
        ≡ record {
          server = record {
            transfer = some (segmented (stored t (piece buf t.total_len t.offset) ctx.now_us));
            committed_write = written;
          };
          od = od;
          events = events;
          reply = respond (encode_download_segment_response t.toggle);
        }
  unfolding process_with_context is_block_segment end_on_abort handle_download_segment
  process_middle_segment written t buf od events ctx d i p q r more =
      let s : SdoServer = record { transfer = some (segmented t); committed_write = written } in
      let request = segment_request buf t.total_len t.offset t.toggle in
      ground (
        arith,
        dispatch_segment s request od events ctx
            (request_fields buf t.total_len t.offset t.toggle).0,
        download_segment_lem s t buf od events ctx i p q r,
        response_ne_abort t.toggle,
      )

  -- The server's round for the last segment of a value that is accepted.
  pub process_last_segment :
      (written : Option (ℕ × ℕ)) (t : SegmentedTransfer) (buf value : List ℕ) (od od' : O)
      (events : List OdEvent) (ctx : SdoContext)
      → t.direction ≡ download
      → t.size_indicated ≡ true
      → t.offset ≤ t.total_len
      → t.total_len ≤ buf_size
      → t.total_len ≤ length buf
      → ends t.total_len t.offset ≡ true
      → take
          (t.offset + segment_len t.total_len t.offset)
          (write_at t.buf t.offset (piece buf t.total_len t.offset))
        ≡ value
      → validate_download dict od ctx t.index t.subindex value ≡ ok tt
      → write od t.index t.subindex value ≡ (ok tt, od')
      → process_with_context dict capacity
          (record { transfer = some (segmented t); committed_write = written })
          (segment_request buf t.total_len t.offset t.toggle)
          od
          events
          ctx
        ≡ done
            (record { index = t.index; subindex = t.subindex; source = sdo })
            (some (t.index, t.subindex))
            od'
            events
            (encode_download_segment_response t.toggle)
  unfolding process_with_context is_block_segment end_on_abort handle_download_segment
  process_last_segment written t buf value od od' events ctx d i p q r last whole v w =
      let s : SdoServer = record { transfer = some (segmented t); committed_write = written } in
      let request = segment_request buf t.total_len t.offset t.toggle in
      rw
        (
          dispatch_segment s request od events ctx
              (request_fields buf t.total_len t.offset t.toggle).0,
          d,
          download_segment_lem s t buf od events ctx i p q r,
          last,
          whole,
          commit_lem (record s { transfer = none }) od od' events ctx t.index t.subindex value
              (encode_download_segment_response t.toggle) refl v w,
        )
        (rw (response_ne_abort t.toggle))

accepted_fields :
    (toggle : Bool)
    → (command_specifier (encode_download_segment_response toggle).b0 ≡ 1)
      × (has_bits (encode_download_segment_response toggle).b0 0x10 ≡ toggle)
unfolding encode_download_segment_response command_specifier
accepted_fields true = (refl, refl)
accepted_fields false = (refl, refl)

-- The client's round: it is done, or sends the next segment.
pub process_accepted :
    (cap : ℕ) (c : SdoClient) (index subindex : ℕ) (toggle : Bool)
    → c.target_node ≤ 127
    → c.state ≡ download_segmented index subindex toggle
    → c.offset ≤ c.total_len
    → c.total_len ≤ cap
    → process_response cap c (encode_download_segment_response toggle) ≡ (
        if leb c.total_len c.offset then (record c { state = idle }, download_complete) else (
          record c {
            state = download_segmented index subindex (not toggle);
            offset = c.offset + segment_len c.total_len c.offset;
          },
          send_next (record {
            id = 0x600 + c.target_node;
            dlc = 8;
            bytes = segment_request c.buf c.total_len c.offset (not toggle);
          }),
        ))
unfolding process_response receive handle_download_segment_response
process_accepted cap c index subindex toggle n s p q = ground (
  arith,
  accepted_fields toggle,
  send_download_segment_lem cap
      (record c { state = download_segmented index subindex (not toggle) }) (not toggle) n p q,
)
