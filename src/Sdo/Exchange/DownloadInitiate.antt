-- ===== src/Sdo/Exchange/DownloadInitiate.antt =====
-- The first round of a download, on either side (canopen-core/src/sdo/server.rs, client.rs).
use yacob.Base.{
  ◌^◌, ◌==◌, ℕ, zero, suc, ◌+◌, ◌-◌, ◌≤◌, ◌<◌, ◌≡◌, refl, arith, Bool, true, false, leb, ltb, List,
  length, Option, some, none, write_at, bit_and, bit_or, ◌&&◌,
}
use yacob.Base.Bytes.{
  Bytes8, has_bits, u8, ◌>>>◌, ◌<<<◌, from_le16_bytes, from_le32_bytes, le_bytes32,
}
use yacob.Base.Results.{ok}
use yacob.Can.{CanFrame}
use yacob.Nmt.{same_state, operational}
use yacob.Sdo.Od.{ObjectDictionary, OdEvent, sdo}
use yacob.Sdo.Validate.{SdoContext, validate_download, is_pdo_config_index}
use yacob.Sdo.Protocol.{object_frame, command_specifier, encode_download_response}
use yacob.Sdo.Frames.{parse-object_frame, object_frame_payload}
use yacob.Sdo.Server.State.{
  SdoServer, SegmentedTransfer, download, segmented, respond, buf_size, empty_buf,
}
use yacob.Sdo.Server.Segmented.{handle_initiate_download, only, segment_len}
use yacob.Sdo.Server.Process.{process_with_context, is_block_segment, dispatch, end_on_abort}
use yacob.Sdo.Client.{
  SdoClient, waiting_download_init, download_segmented, idle, download_complete, send_next,
  process_response, receive, handle_download_init_response, start_download,
}
use yacob.Sdo.Exchange.UploadSteps.{request_frame_lem}
use yacob.Sdo.Exchange.DownloadSteps.{segment_request, done, commit_lem, send_download_segment_lem}

abbrev pub expedited_head : ℕ → ℕ
expedited_head k = bit_or (bit_or (bit_or (1 <<< 5) (u8 (4 - k) <<< 2)) 0x02) 0x01

abbrev IsExpedited : ℕ → ℕ → Type 0
IsExpedited head k =
    (command_specifier head ≡ 1)
    × (has_bits head 0x02 ≡ true)
    × (has_bits head 0x01 ≡ true)
    × (bit_and (head >>> 2) 0x03 ≡ 4 - k)

expedited_head-IsExpedited : (k : ℕ) → 1 ≤ k → k ≤ 4 → IsExpedited (expedited_head k) k
unfolding command_specifier
expedited_head-IsExpedited zero p q = absurd (omega arith)
expedited_head-IsExpedited (suc zero) p q = (refl, refl, refl, refl)
expedited_head-IsExpedited (suc (suc zero)) p q = (refl, refl, refl, refl)
expedited_head-IsExpedited (suc (suc (suc zero))) p q = (refl, refl, refl, refl)
expedited_head-IsExpedited (suc (suc (suc (suc zero)))) p q = (refl, refl, refl, refl)
expedited_head-IsExpedited (suc (suc (suc (suc (suc k))))) p q = absurd (omega arith)

-- The two requests that `start_download` builds.
abbrev pub small_request : ℕ → ℕ → List ℕ → Bytes8
small_request index subindex value =
    object_frame (expedited_head (length value)) index subindex value

abbrev pub large_request : ℕ → ℕ → ℕ → Bytes8
large_request index subindex len =
    object_frame (bit_or (1 <<< 5) 0x01) index subindex (le_bytes32 len)

-- Is the object locked?
abbrev pub locked : SdoContext → ℕ → Bool
locked ctx index = same_state ctx.nmt_state operational && is_pdo_config_index index

response_ne_abort :
    (index subindex : ℕ) → ((encode_download_response index subindex).b0 == 0x80) ≡ false
unfolding encode_download_response
response_ne_abort index subindex = refl

module _ {O : Type 0} (dict : ObjectDictionary O) (capacity : ℕ) where
  open dict use {write}

  -- The transfer that the server begins for a value that does not fit one frame.
  abbrev pub begun : ℕ → ℕ → ℕ → ℕ → SegmentedTransfer
  begun index subindex len now = record {
    index = index;
    subindex = subindex;
    toggle = false;
    direction = download;
    buf = empty_buf;
    offset = 0;
    total_len = len;
    size_indicated = true;
    last_activity_us = now;
  }

  initiate_small :
      (s : SdoServer) (index subindex : ℕ) (value : List ℕ) (od od' : O) (events : List OdEvent)
      (ctx : SdoContext)
      → index < 2 ^ 16
      → 1 ≤ length value
      → length value ≤ 4
      → locked ctx index ≡ false
      → validate_download dict od ctx index subindex value ≡ ok tt
      → write od index subindex value ≡ (ok tt, od')
      → handle_initiate_download dict capacity s (small_request index subindex value) od events ctx
        ≡ done dict capacity
            (record { index = index; subindex = subindex; source = sdo })
            (some (index, subindex))
            od'
            events
            (encode_download_response index subindex)
  unfolding handle_initiate_download
  initiate_small s index subindex value od od' events ctx i p q u v w = ground (
    arith,
    parse-object_frame (expedited_head (length value)) index subindex value i,
    expedited_head-IsExpedited (length value) p q,
    object_frame_payload (expedited_head (length value)) index subindex value q,
    commit_lem dict capacity (record s { transfer = none }) od od' events ctx index subindex value
        (encode_download_response index subindex) refl v w,
  )

  initiate_large :
      (s : SdoServer) (index subindex len : ℕ) (od : O) (events : List OdEvent) (ctx : SdoContext)
      → index < 2 ^ 16
      → len ≤ buf_size
      → locked ctx index ≡ false
      → handle_initiate_download dict capacity s (large_request index subindex len) od events ctx
        ≡ only od events (
          record s { transfer = some (segmented (begun index subindex len ctx.now_us)) },
          respond (encode_download_response index subindex),
        )
  unfolding handle_initiate_download
  initiate_large s index subindex len od events ctx i f u = ground (
    arith,
    parse-object_frame (bit_or (1 <<< 5) 0x01) index subindex (le_bytes32 len) i,
    from_le32_bytes len (omega arith),
  )

  dispatch_download :
      (s : SdoServer) (request : Bytes8) (od : O) (events : List OdEvent) (ctx : SdoContext)
      → command_specifier request.b0 ≡ 1
      → dispatch dict capacity s request od events ctx
        ≡ handle_initiate_download dict capacity s request od events ctx
  unfolding dispatch
  dispatch_download s request od events ctx e = rw e

  pub process_small :
      (written : Option (ℕ × ℕ)) (index subindex : ℕ) (value : List ℕ) (od od' : O)
      (events : List OdEvent) (ctx : SdoContext)
      → index < 2 ^ 16
      → 1 ≤ length value
      → length value ≤ 4
      → locked ctx index ≡ false
      → validate_download dict od ctx index subindex value ≡ ok tt
      → write od index subindex value ≡ (ok tt, od')
      → process_with_context dict capacity
          (record { transfer = none; committed_write = written })
          (small_request index subindex value)
          od
          events
          ctx
        ≡ done dict capacity
            (record { index = index; subindex = subindex; source = sdo })
            (some (index, subindex))
            od'
            events
            (encode_download_response index subindex)
  unfolding process_with_context is_block_segment end_on_abort
  process_small written index subindex value od od' events ctx i p q u v w =
      let s : SdoServer = record { transfer = none; committed_write = written } in
      rw
        (
          dispatch_download s (small_request index subindex value) od events ctx
              (expedited_head-IsExpedited (length value) p q).0,
          initiate_small s index subindex value od od' events ctx i p q u v w,
        )
        (rw (response_ne_abort index subindex))

  pub process_large :
      (written : Option (ℕ × ℕ)) (index subindex len : ℕ) (od : O) (events : List OdEvent)
      (ctx : SdoContext)
      → index < 2 ^ 16
      → len ≤ buf_size
      → locked ctx index ≡ false
      → process_with_context dict capacity
          (record { transfer = none; committed_write = written })
          (large_request index subindex len)
          od
          events
          ctx
        ≡ record {
          server = record {
            transfer = some (segmented (begun index subindex len ctx.now_us));
            committed_write = written;
          };
          od = od;
          events = events;
          reply = respond (encode_download_response index subindex);
        }
  unfolding process_with_context is_block_segment end_on_abort command_specifier
  process_large written index subindex len od events ctx i f u =
      let s : SdoServer = record { transfer = none; committed_write = written } in
      rw
        (
          dispatch_download s (large_request index subindex len) od events ctx refl,
          initiate_large s index subindex len od events ctx i f u,
        )
        (rw (response_ne_abort index subindex))

-- The client's side of the answer.
pub answered_small :
    (cap : ℕ) (c : SdoClient) (index subindex : ℕ)
    → index < 2 ^ 16
    → c.state ≡ waiting_download_init index subindex
    → 1 ≤ c.total_len
    → c.total_len ≤ 4
    → process_response cap c (encode_download_response index subindex)
      ≡ (record c { state = idle }, download_complete)
unfolding process_response receive handle_download_init_response encode_download_response
    command_specifier
answered_small cap c index subindex i s p q = ground (arith, from_le16_bytes index i)

pub answered_large :
    (cap : ℕ) (c : SdoClient) (index subindex : ℕ)
    → index < 2 ^ 16
    → c.state ≡ waiting_download_init index subindex
    → c.offset ≡ 0
    → (ltb 0 c.total_len && leb c.total_len 4) ≡ false
    → c.target_node ≤ 127
    → c.total_len ≤ cap
    → process_response cap c (encode_download_response index subindex) ≡ (
      record c {
        state = download_segmented index subindex false;
        offset = c.offset + segment_len c.total_len c.offset;
      },
      send_next (record {
        id = 0x600 + c.target_node;
        dlc = 8;
        bytes = segment_request c.buf c.total_len c.offset false;
      }),
    )
unfolding process_response receive handle_download_init_response encode_download_response
    command_specifier
answered_large cap c index subindex i s o z n l = ground (
  arith,
  from_le16_bytes index i,
  send_download_segment_lem cap (record c { state = download_segmented index subindex false }) false
      n (omega arith) l,
)

-- The client after `start_download`, and its frame.
abbrev pub waiting_small : SdoClient → ℕ → ℕ → List ℕ → SdoClient
waiting_small c index subindex value = record c {
  state = waiting_download_init index subindex;
  total_len = length value;
}

abbrev pub waiting_large : SdoClient → ℕ → ℕ → List ℕ → SdoClient
waiting_large c index subindex value = record c {
  state = waiting_download_init index subindex;
  total_len = length value;
  buf = write_at c.buf 0 value;
  offset = 0;
}

abbrev pub frame : SdoClient → Bytes8 → CanFrame
frame c bytes = record { id = 0x600 + c.target_node; dlc = 8; bytes = bytes }

pub start_small :
    (cap : ℕ) (c : SdoClient) (index subindex : ℕ) (value : List ℕ)
    → c.target_node ≤ 127
    → 1 ≤ length value
    → length value ≤ 4
    → start_download cap c index subindex value ≡ (
      waiting_small c index subindex value,
      ok (some (frame c (small_request index subindex value))),
    )
unfolding start_download
start_small cap c index subindex value n p q =
    ground (arith, request_frame_lem c (small_request index subindex value) n)

pub start_large :
    (cap : ℕ) (c : SdoClient) (index subindex : ℕ) (value : List ℕ)
    → c.target_node ≤ 127
    → (ltb 0 (length value) && leb (length value) 4) ≡ false
    → length value ≤ cap
    → start_download cap c index subindex value ≡ (
      waiting_large c index subindex value,
      ok (some (frame c (large_request index subindex (length value)))),
    )
unfolding start_download
start_large cap c index subindex value n z l =
    ground (arith, request_frame_lem c (large_request index subindex (length value)) n)
