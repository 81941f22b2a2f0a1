-- ===== src/Sdo/Exchange/Initiate.antt =====
-- The first round of an upload, on either side (canopen-core/src/sdo/server.rs, client.rs).
use yacob.Base.{
  ◌^◌, ◌==◌, ℕ, zero, suc, ◌+◌, ◌-◌, ◌≤◌, ◌<◌, ◌≡◌, refl, arith, true, false, leb, ltb, List, [],
  length, take, Option, some, none, write_at, length-take, bit_and, bit_or, ◌&&◌,
}
use yacob.Base.Bytes.{Bytes8, has_bits, u8, ◌>>>◌, ◌<<<◌, from_le16_bytes, from_le32_bytes}
use yacob.Base.Results.{ok}
use yacob.Sdo.Od.{ObjectDictionary, OdEvent}
use yacob.Sdo.Validate.{SdoContext}
use yacob.Sdo.Protocol.{
  object_frame, command_specifier, encode_upload_response_expedited,
  encode_upload_response_segmented,
}
use yacob.Sdo.Frames.{parse-object_frame, object_frame_payload}
use yacob.Sdo.Server.State.{SegmentedTransfer, upload, segmented, respond, buf_size, empty_buf}
use yacob.Sdo.Server.Segmented.{begin_upload, answer_read, handle_initiate_upload, only}
use yacob.Sdo.Server.Process.{process_with_context, is_block_segment, dispatch, end_on_abort}
use yacob.Sdo.Client.{
  SdoClient, waiting_upload_init, upload_segmented, idle, upload_complete, send_next,
  process_response, receive, handle_upload_init_response, send, make_upload_segment_request,
}
use yacob.Sdo.Exchange.UploadSteps.{request_frame_lem}

abbrev pub expedited_head : ℕ → ℕ
expedited_head k = bit_or (bit_or (bit_or (2 <<< 5) (u8 (4 - k) <<< 2)) 0x02) 0x01

abbrev HasExpedited : ℕ → ℕ → Type 0
HasExpedited head k =
    (command_specifier head ≡ 2)
    × (has_bits head 0x02 ≡ true)
    × (has_bits head 0x01 ≡ true)
    × (bit_and (head >>> 2) 0x03 ≡ 4 - k)

expedited_head-HasExpedited : (k : ℕ) → 1 ≤ k → k ≤ 4 → HasExpedited (expedited_head k) k
unfolding command_specifier
expedited_head-HasExpedited zero p q = absurd (omega arith)
expedited_head-HasExpedited (suc zero) p q = (refl, refl, refl, refl)
expedited_head-HasExpedited (suc (suc zero)) p q = (refl, refl, refl, refl)
expedited_head-HasExpedited (suc (suc (suc zero))) p q = (refl, refl, refl, refl)
expedited_head-HasExpedited (suc (suc (suc (suc zero)))) p q = (refl, refl, refl, refl)
expedited_head-HasExpedited (suc (suc (suc (suc (suc k))))) p q = absurd (omega arith)

-- The request that `start_upload` builds.
abbrev pub upload_request : ℕ → ℕ → Bytes8
upload_request index subindex = object_frame (2 <<< 5) index subindex []

abbrev pub response_expedited : ℕ → ℕ → List ℕ → ℕ → Bytes8
response_expedited index subindex buf len =
    object_frame (expedited_head len) index subindex (take len buf)

expedited_ne_abort : (head k : ℕ) → HasExpedited head k → (head == 0x80) ≡ false
unfolding command_specifier
expedited_ne_abort head k h = ground arith

module _ {O : Type 0} (dict : ObjectDictionary O) (capacity : ℕ) where
  open dict use {read}

  -- The transfer that the server begins for an object that does not fit one frame.
  abbrev pub begun : ℕ → ℕ → List ℕ → ℕ → ℕ → SegmentedTransfer
  begun index subindex buf len now = record {
    index = index;
    subindex = subindex;
    toggle = false;
    direction = upload;
    buf = buf;
    offset = 0;
    total_len = len;
    size_indicated = true;
    last_activity_us = now;
  }

  dispatch_upload :
      (written : Option (ℕ × ℕ)) (index subindex : ℕ) (od : O) (events : List OdEvent)
      (ctx : SdoContext) (len : ℕ) (buf : List ℕ)
      → index < 2 ^ 16
      → read od index subindex empty_buf ≡ (ok len, buf)
      → dispatch dict capacity
          (record { transfer = none; committed_write = written })
          (upload_request index subindex)
          od
          events
          ctx
        ≡ only od events (
            begin_upload dict
              (record { transfer = none; committed_write = written })
              index
              subindex
              buf
              len
              ctx.now_us)
  unfolding dispatch handle_initiate_upload command_specifier answer_read
  dispatch_upload written index subindex od events ctx len buf i e =
      rw (parse-object_frame (2 <<< 5) index subindex [] i, e)

  -- The answer to the request: one frame with the whole value, or the size.
  pub upload_small :
      (written : Option (ℕ × ℕ)) (index subindex : ℕ) (od : O) (events : List OdEvent)
      (ctx : SdoContext) (len : ℕ) (buf : List ℕ)
      → index < 2 ^ 16
      → read od index subindex empty_buf ≡ (ok len, buf)
      → length buf ≡ buf_size
      → 1 ≤ len
      → len ≤ 4
      → process_with_context dict capacity
          (record { transfer = none; committed_write = written })
          (upload_request index subindex)
          od
          events
          ctx
        ≡ record {
          server = record { transfer = none; committed_write = written };
          od = od;
          events = events;
          reply = respond (response_expedited index subindex buf len);
        }
  unfolding process_with_context is_block_segment end_on_abort begin_upload
      encode_upload_response_expedited
  upload_small written index subindex od events ctx len buf i e b p q =
      let size : length (take len buf) ≡ len = omega (arith, length-take len buf) in
      let head = expedited_head-HasExpedited len p q in
      rw (dispatch_upload written index subindex od events ctx len buf i e)
        (ground (arith, size, head, expedited_ne_abort (expedited_head len) len head))

  pub upload_large :
      (written : Option (ℕ × ℕ)) (index subindex : ℕ) (od : O) (events : List OdEvent)
      (ctx : SdoContext) (len : ℕ) (buf : List ℕ)
      → index < 2 ^ 16
      → read od index subindex empty_buf ≡ (ok len, buf)
      → (ltb 0 len && leb len 4) ≡ false
      → process_with_context dict capacity
          (record { transfer = none; committed_write = written })
          (upload_request index subindex)
          od
          events
          ctx
        ≡ record {
          server = record {
            transfer = some (segmented (begun index subindex buf len ctx.now_us));
            committed_write = written;
          };
          od = od;
          events = events;
          reply = respond (encode_upload_response_segmented index subindex len);
        }
  unfolding process_with_context is_block_segment end_on_abort begin_upload
      encode_upload_response_segmented
  upload_large written index subindex od events ctx len buf i e z =
      rw (dispatch_upload written index subindex od events ctx len buf i e) (rw z)

-- The client's side of the two answers.
abbrev pub waiting : SdoClient → ℕ → ℕ → SdoClient
waiting c index subindex = record c {
  state = waiting_upload_init index subindex;
  offset = 0;
  total_len = 0;
  upload_len = none;
  upload_size_indicated = false;
}

pub client_small :
    (cap : ℕ) (c : SdoClient) (index subindex len : ℕ) (buf : List ℕ)
    → index < 2 ^ 16
    → length buf ≡ buf_size
    → 1 ≤ len
    → len ≤ 4
    → len ≤ cap
    → process_response cap (waiting c index subindex) (response_expedited index subindex buf len)
      ≡ (
        record (waiting c index subindex) {
          buf = write_at c.buf 0 (take len buf);
          offset = len;
          upload_size_indicated = true;
          state = idle;
        },
        upload_complete len,
      )
unfolding process_response receive handle_upload_init_response
client_small cap c index subindex len buf i b p q l =
    let size : length (take len buf) ≡ len = omega (arith, length-take len buf) in
    ground (
      arith,
      size,
      expedited_head-HasExpedited len p q,
      from_le16_bytes index i,
      object_frame_payload (expedited_head len) index subindex (take len buf),
    )

pub client_large :
    (cap : ℕ) (c : SdoClient) (index subindex len : ℕ)
    → index < 2 ^ 16
    → len < 2 ^ 32
    → len ≤ cap
    → c.target_node ≤ 127
    → process_response cap
        (waiting c index subindex)
        (encode_upload_response_segmented index subindex len)
      ≡ (
        record (waiting c index subindex) {
          upload_len = some len;
          upload_size_indicated = true;
          state = upload_segmented index subindex false;
        },
        send_next (record {
          id = 0x600 + c.target_node;
          dlc = 8;
          bytes = make_upload_segment_request false;
        }),
      )
unfolding process_response receive handle_upload_init_response send encode_upload_response_segmented
    command_specifier
client_large cap c index subindex len i z l n = ground (
  arith,
  from_le16_bytes index i,
  from_le32_bytes len z,
  request_frame_lem
      (record (waiting c index subindex) {
        upload_len = some len;
        upload_size_indicated = true;
        state = upload_segmented index subindex false;
      })
      (make_upload_segment_request false) n,
)
