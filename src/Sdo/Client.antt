-- ===== src/Sdo/Client.antt =====
-- canopen-core/src/sdo/client.rs: the SDO client. `cap` is the const generic `BUF`; `none` for a
-- frame is a failed `unwrap`, and the result `panicked` any panic.
use yacob.Base.{
  ℕ, ◌+◌, ◌-◌, Bool, true, false, not, ◌&&◌, ◌||◌, if◌then◌else◌, same, ltb, leb, ◌==◌, bit_and,
  bit_or, min, List, [], length, take, drop, replicate, write_at, Option, some, none,
}
use yacob.Base.Bytes.{Bytes8, to_list, has_bits, from_le32, from_le16, le_bytes32, u8, ◌>>>◌, ◌<<<◌}
use yacob.Base.Results.{Result, ok, err}
use yacob.Can.{CanFrame, new_frame}
use yacob.CobId.{NodeId, sdo_rx_cob}
use yacob.Sdo.Abort.{SdoAbort}
use yacob.Sdo.Protocol.{
  command_specifier, object_frame, segment_frame, segment_head, ccs_initiate_upload,
  ccs_initiate_download, ccs_upload_segment, ccs_download_segment, scs_abort_transfer,
  scs_initiate_upload_response, scs_upload_segment_response, scs_initiate_download_response,
  scs_download_segment_response,
}

pub data ClientState : Type 0 where
  idle : ClientState
  waiting_upload_init : ℕ → ℕ → ClientState
  upload_segmented : ℕ → ℕ → Bool → ClientState
  waiting_download_init : ℕ → ℕ → ClientState
  download_segmented : ℕ → ℕ → Bool → ClientState

pub record SdoClient : Type 0 where
  pub target_node : NodeId
  pub state : ClientState
  pub buf : List ℕ
  pub offset : ℕ
  pub total_len : ℕ
  pub upload_len : Option ℕ
  pub upload_size_indicated : Bool

pub data SdoClientResult : Type 0 where
  upload_complete : ℕ → SdoClientResult
  download_complete : SdoClientResult
  send_next : CanFrame → SdoClientResult
  aborted : SdoAbort → SdoClientResult
  ignored_abort error panicked : SdoClientResult

-- `SdoClient::new` and `SdoClient::data`.
unfoldable pub new_client : ℕ → NodeId → SdoClient
new_client cap target = record {
  target_node = target;
  state = idle;
  buf = replicate cap 0;
  offset = 0;
  total_len = 0;
  upload_len = none;
  upload_size_indicated = false;
}

unfoldable pub client_data : SdoClient → List ℕ
client_data c = take c.offset c.buf

-- `CanFrame::new(self.tx_cobid(), &data)`.
unfoldable pub request_frame : SdoClient → Bytes8 → Option CanFrame
request_frame c d = new_frame (sdo_rx_cob c.target_node) (to_list d)

unfoldable pub send : SdoClient → Bytes8 → SdoClient × SdoClientResult
send c d = elim (request_frame c d) [ some f ↦ (c, send_next f) | none ↦ (c, panicked) ]

-- `start_upload`.
unfoldable pub start_upload : SdoClient → ℕ → ℕ → SdoClient × Option CanFrame
start_upload c index subindex =
    let c' = record c {
      state = waiting_upload_init index subindex;
      offset = 0;
      total_len = 0;
      upload_len = none;
      upload_size_indicated = false;
    } in
    (c', request_frame c' (object_frame (ccs_initiate_upload <<< 5) index subindex []))

-- `start_download`; `err` is its `Err(())`.
unfoldable pub start_download :
    ℕ → SdoClient → ℕ → ℕ → List ℕ → SdoClient × Result (Option CanFrame) (Unit {0})
start_download cap c index subindex value =
    let waiting = record c {
      state = waiting_download_init index subindex;
      total_len = length value;
    } in
    let head =
      bit_or (bit_or (bit_or (ccs_initiate_download <<< 5) (u8 (4 - length value) <<< 2)) 0x02)
        0x01 in
    if not (length value == 0) && leb (length value) 4
    then (waiting, ok (request_frame c (object_frame head index subindex value)))
    else if ltb cap (length value)
    then (record c { state = idle; total_len = 0; offset = 0 }, err tt)
    else (
      record waiting { buf = write_at c.buf 0 value; offset = 0 },
      ok (
          request_frame c (
            object_frame (bit_or (ccs_initiate_download <<< 5) 0x01) index subindex
              (le_bytes32 (length value)))),
    )

-- `make_upload_segment_request`.
unfoldable pub make_upload_segment_request : Bool → Bytes8
make_upload_segment_request toggle =
    segment_frame (bit_or (ccs_upload_segment <<< 5) (if toggle then 0x10 else 0)) []

-- `make_download_segment` and the `SendNext` that its callers return.
unfoldable pub send_download_segment : ℕ → SdoClient → Bool → SdoClient × SdoClientResult
send_download_segment cap c toggle =
    let remaining = c.total_len - c.offset in
    let seg_len = min remaining 7 in
    let head = segment_head ccs_download_segment toggle (7 - seg_len) (leb remaining 7) in
    if ltb c.total_len c.offset || ltb cap (c.offset + seg_len)
    then (c, panicked)
    else send (record c { offset = c.offset + seg_len })
        (segment_frame head (take seg_len (drop c.offset c.buf)))

-- `handle_upload_init_response` for the object that the client asked for.
unfoldable pub handle_upload_init_response :
    ℕ → SdoClient → ℕ → ℕ → Bytes8 → SdoClient × SdoClientResult
handle_upload_init_response cap c index subindex response =
    let expedited = has_bits response.b0 0x02 in
    let size_indicated = has_bits response.b0 0x01 in
    let data_len = 4 - (if size_indicated then bit_and (response.b0 >>> 2) 0x03 else 0) in
    let stated = from_le32 response.b4 response.b5 response.b6 response.b7 in
    let c' = record c {
      upload_len = if size_indicated then some stated else none;
      upload_size_indicated = size_indicated;
    } in
    if expedited
    then (if ltb cap data_len then (record c { state = idle }, error) else (
      record c {
        buf = write_at c.buf 0 (take data_len (drop 4 (to_list response)));
        offset = data_len;
        upload_size_indicated = size_indicated;
        state = idle;
      },
      upload_complete data_len,
    ))
    else if size_indicated && ltb cap stated
    then (record c' { state = idle }, error)
    else send (record c' { state = upload_segmented index subindex false; offset = 0 })
        (make_upload_segment_request false)

-- `self.upload_len.is_some_and(|len| received > len || (last && received != len))`.
abbrev pub exceeds_stated : Option ℕ → ℕ → Bool → Bool
exceeds_stated none received last = false
exceeds_stated (some len) received last = ltb len received || (last && not (received == len))

-- `handle_upload_segment_response` in the state `upload_segmented index subindex toggle`.
unfoldable pub handle_upload_segment_response :
    ℕ → SdoClient → ℕ → ℕ → Bool → Bytes8 → SdoClient × SdoClientResult
handle_upload_segment_response cap c index subindex toggle response =
    let server_toggle = has_bits response.b0 0x10 in
    let last = has_bits response.b0 0x01 in
    let seg_len = 7 - bit_and (response.b0 >>> 1) 0x07 in
    let received = c.offset + seg_len in
    let failed = record c { state = idle } in
    let c' = record c {
      buf = write_at c.buf c.offset (take seg_len (drop 1 (to_list response)));
      offset = received;
    } in
    if not (same server_toggle toggle)
    then (failed, error)
    else if ltb cap received || exceeds_stated c.upload_len received last
    then (failed, error)
    else if last
    then (record c' { state = idle }, upload_complete received)
    else send (record c' { state = upload_segmented index subindex (not toggle) })
        (make_upload_segment_request (not toggle))

-- `handle_download_init_response`.
unfoldable pub handle_download_init_response : ℕ → SdoClient → ℕ → ℕ → SdoClient × SdoClientResult
handle_download_init_response cap c index subindex =
    if ltb 0 c.total_len && leb c.total_len 4
    then (record c { state = idle }, download_complete)
    else send_download_segment cap (record c { state = download_segmented index subindex false })
        false

-- `handle_download_segment_response` in the state `download_segmented index subindex toggle`.
unfoldable pub handle_download_segment_response :
    ℕ → SdoClient → ℕ → ℕ → Bool → Bytes8 → SdoClient × SdoClientResult
handle_download_segment_response cap c index subindex toggle response =
    if not (same (has_bits response.b0 0x10) toggle)
    then (record c { state = idle }, error)
    else if leb c.total_len c.offset
    then (record c { state = idle }, download_complete)
    else send_download_segment cap
        (record c { state = download_segmented index subindex (not toggle) }) (not toggle)

-- The object of the transfer that is active.
unfoldable pub active_object : ClientState → Option (ℕ × ℕ)
active_object idle = none
active_object (waiting_upload_init index subindex) = some (index, subindex)
active_object (upload_segmented index subindex toggle) = some (index, subindex)
active_object (waiting_download_init index subindex) = some (index, subindex)
active_object (download_segmented index subindex toggle) = some (index, subindex)

-- Does an abort of this object cancel the transfer that is active?
abbrev pub cancels : Option (ℕ × ℕ) → ℕ → ℕ → Bool
cancels none abort_index abort_sub = true
cancels (some (index, subindex)) abort_index abort_sub =
    (abort_index == 0 && abort_sub == 0) || (abort_index == index && abort_sub == subindex)

-- The part of `process_response` for an abort.
unfoldable pub receive_abort : SdoClient → Bytes8 → SdoClient × SdoClientResult
receive_abort c r =
    if cancels (active_object c.state) (from_le16 r.b1 r.b2) r.b3
    then (record c { state = idle }, aborted (from_le32 r.b4 r.b5 r.b6 r.b7))
    else (c, ignored_abort)

-- Is this the answer `specifier` about the object?
abbrev pub answers : ℕ → ℕ → ℕ → Bytes8 → Bool
answers specifier index subindex r =
    command_specifier r.b0 == specifier && (from_le16 r.b1 r.b2 == index && r.b3 == subindex)

-- The `match &self.state` of `process_response`.
unfoldable pub receive : ℕ → SdoClient → ClientState → Bytes8 → SdoClient × SdoClientResult
receive cap c idle r = (c, error)
receive cap c (waiting_upload_init index subindex) r =
    if answers scs_initiate_upload_response index subindex r
    then handle_upload_init_response cap c index subindex r
    else (record c { state = idle }, error)
receive cap c (upload_segmented index subindex toggle) r =
    if command_specifier r.b0 == scs_upload_segment_response
    then handle_upload_segment_response cap c index subindex toggle r
    else (record c { state = idle }, error)
receive cap c (waiting_download_init index subindex) r =
    if answers scs_initiate_download_response index subindex r
    then handle_download_init_response cap c index subindex
    else (record c { state = idle }, error)
receive cap c (download_segmented index subindex toggle) r =
    if command_specifier r.b0 == scs_download_segment_response
    then handle_download_segment_response cap c index subindex toggle r
    else (record c { state = idle }, error)

-- `process_response`.
unfoldable pub process_response : ℕ → SdoClient → Bytes8 → SdoClient × SdoClientResult
process_response cap c r =
    if command_specifier r.b0 == scs_abort_transfer
    then receive_abort c r
    else receive cap c c.state r
