-- ===== src/Sdo/Exchange/UploadSteps.antt =====
-- One round of a segmented upload, on either side (canopen-core/src/sdo/server.rs, client.rs).
use yacob.Base.{
  ◌==◌, ℕ, ◌+◌, ◌-◌, ◌≤◌, ◌≡◌, refl, arith, Bool, true, false, not, leb, List, length, take, drop,
  Option, some, none, if◌then◌else◌, write_at, length-take, length-drop,
}
use yacob.Base.Bytes.{Bytes8, has_bits}
use yacob.CobId.{sdo_rx_cob}
use yacob.Sdo.Od.{ObjectDictionary, OdEvent}
use yacob.Sdo.Frames.{HasFields, segment_head-HasFields, segment_frame_payload}
use yacob.Sdo.Protocol.{
  command_specifier, segment_head, segment_frame, encode_upload_segment_response,
}
use yacob.Sdo.Validate.{SdoContext}
use yacob.Sdo.Server.State.{SdoServer, SegmentedTransfer, upload, segmented, respond, buf_size}
use yacob.Sdo.Server.Segmented.{segment_len, upload_segment, handle_upload_segment}
use yacob.Sdo.Server.Process.{is_block_segment, dispatch, end_on_abort, process_with_context}
use yacob.Sdo.Client.{
  SdoClient, upload_segmented, idle, upload_complete, send_next, process_response, receive,
  handle_upload_segment_response, make_upload_segment_request, send, request_frame,
}

-- The segment that a transfer sends next.
abbrev pub next_segment : SegmentedTransfer → List ℕ
next_segment t = take (segment_len t.total_len t.offset) (drop t.offset t.buf)

abbrev pub is_last : SegmentedTransfer → Bool
is_last t = leb (t.total_len - t.offset) 7

abbrev pub advanced : SegmentedTransfer → ℕ → SegmentedTransfer
advanced t now = record t {
  offset = t.offset + segment_len t.total_len t.offset;
  toggle = not t.toggle;
  last_activity_us = now;
}

abbrev pub segment_response : SegmentedTransfer → Bytes8
segment_response t =
    segment_frame (segment_head 0 t.toggle (7 - segment_len t.total_len t.offset) (is_last t))
      (next_segment t)

-- The request carries the specifier 3 and its toggle bit.
request_fields :
    (toggle : Bool)
    → (command_specifier (make_upload_segment_request toggle).b0 ≡ 3)
      × (has_bits (make_upload_segment_request toggle).b0 0x10 ≡ toggle)
unfolding make_upload_segment_request command_specifier
request_fields true = (refl, refl)
request_fields false = (refl, refl)

pub length-next_segment :
    (t : SegmentedTransfer)
    → length t.buf ≡ buf_size
    → t.offset ≤ t.total_len
    → t.total_len ≤ buf_size
    → length (next_segment t) ≡ segment_len t.total_len t.offset
length-next_segment t b h k = omega (
  arith,
  length-take (segment_len t.total_len t.offset) (drop t.offset t.buf),
  length-drop t.offset t.buf,
)

upload_segment_lem :
    (s : SdoServer) (t : SegmentedTransfer) (now : ℕ)
    → length t.buf ≡ buf_size
    → t.offset ≤ t.total_len
    → t.total_len ≤ buf_size
    → upload_segment s t (make_upload_segment_request t.toggle) now ≡ (
      record s { transfer = if is_last t then none else some (segmented (advanced t now)) },
      respond (segment_response t),
    )
unfolding upload_segment encode_upload_segment_response
upload_segment_lem s t now b h k =
    ground (arith, length-next_segment t b h k, request_fields t.toggle)

response_ne_abort : (head : ℕ) → command_specifier head ≡ 0 → (head == 0x80) ≡ false
unfolding command_specifier
response_ne_abort head e = ground arith

segment_len-le : (t : SegmentedTransfer) → segment_len t.total_len t.offset ≤ 7
segment_len-le t = omega arith

response_fields :
    (t : SegmentedTransfer)
    → HasFields
        (segment_response t).b0
        0
        t.toggle
        (7 - segment_len t.total_len t.offset)
        (is_last t)
response_fields t = segment_head-HasFields t.toggle (is_last t) _ (omega arith)

module _ {O : Type 0} (dict : ObjectDictionary O) (capacity : ℕ) where
  -- The server's round: it sends the next segment, and its transfer advances or ends.
  pub process_upload_segment :
      (written : Option (ℕ × ℕ)) (t : SegmentedTransfer) (od : O) (events : List OdEvent)
      (ctx : SdoContext)
      → t.direction ≡ upload
      → length t.buf ≡ buf_size
      → t.offset ≤ t.total_len
      → t.total_len ≤ buf_size
      → process_with_context dict capacity
          (record { transfer = some (segmented t); committed_write = written })
          (make_upload_segment_request t.toggle)
          od
          events
          ctx
        ≡ record {
          server = record {
            transfer = if is_last t then none else some (segmented (advanced t ctx.now_us));
            committed_write = written;
          };
          od = od;
          events = events;
          reply = respond (segment_response t);
        }
  unfolding process_with_context is_block_segment dispatch end_on_abort handle_upload_segment
  process_upload_segment written t od events ctx d b h k = ground (
    arith,
    request_fields t.toggle,
    response_ne_abort (segment_response t).b0 (response_fields t).0,
    upload_segment_lem (record { transfer = some (segmented t); committed_write = written }) t
        ctx.now_us b h k,
  )

-- The client after a segment.
abbrev pub received : SdoClient → SegmentedTransfer → SdoClient
received c t = record c {
  buf = write_at c.buf c.offset (next_segment t);
  offset = c.offset + segment_len t.total_len t.offset;
}

-- A request of a client whose node id is valid is a frame.
pub request_frame_lem :
    (c : SdoClient) (d : Bytes8)
    → c.target_node ≤ 127
    → request_frame c d ≡ some (record { id = 0x600 + c.target_node; dlc = 8; bytes = d })
unfolding request_frame sdo_rx_cob
request_frame_lem c d h = ground arith

-- The client's round: it stores the segment, and asks for the next one or is done.
pub process_segment_response :
    (cap : ℕ) (c : SdoClient) (index subindex : ℕ) (t : SegmentedTransfer)
    → c.target_node ≤ 127
    → c.state ≡ upload_segmented index subindex t.toggle
    → c.offset ≡ t.offset
    → c.upload_len ≡ some t.total_len
    → length t.buf ≡ buf_size
    → t.offset ≤ t.total_len
    → t.total_len ≤ buf_size
    → t.total_len ≤ cap
    → process_response cap c (segment_response t) ≡ (
        if is_last t
        then (
          record (received c t) { state = idle },
          upload_complete (c.offset + segment_len t.total_len t.offset),
        )
        else (
          record (received c t) { state = upload_segmented index subindex (not t.toggle) },
          send_next (record {
            id = 0x600 + c.target_node;
            dlc = 8;
            bytes = make_upload_segment_request (not t.toggle);
          }),
        ))
unfolding process_response receive handle_upload_segment_response send
process_segment_response cap c index subindex t n s o u b h k l = ground (
  arith,
  response_fields t,
  length-next_segment t b h k,
  segment_frame_payload (segment_response t).b0 (next_segment t),
  request_frame_lem
      (record (received c t) { state = upload_segmented index subindex (not t.toggle) })
      (make_upload_segment_request (not t.toggle)) n,
)
