-- ===== src/Sdo/Server/Invariant/Segmented.antt =====
-- Expedited and segmented transfers keep the invariant and do not panic
-- (canopen-core/src/sdo/server.rs).
use yacob.Base.{
  ℕ, ◌+◌, ◌-◌, ◌≤◌, ◌≡◌, ◌≢◌, arith, Bool, true, min, List, length, take, drop, length-take,
  length-write_at, Option, some, none, leb, write_at, bit_and,
}
use mathlib.Core.Path.{subst, ◌∙◌}
use yacob.Base.Bytes.{Bytes8, to_list, ◌>>>◌, has_bits}
use yacob.Base.Results.{Result, ok, err}
use yacob.Sdo.Od.{ObjectDictionary, OdEvent, ReadFits, ReadWithin, OdError}
use yacob.Sdo.Protocol.{
  encode_upload_segment_response, encode_upload_response_expedited, parse_index_sub,
  encode_download_response, encode_download_segment_response,
}
use yacob.Sdo.Validate.{SdoContext}
use yacob.Sdo.Server.State.{
  SdoServer, SegmentedTransfer, upload, download, TransferState, segmented, block_upload,
  block_download, panicked, expect, buf_size, empty_buf, length-empty_buf,
}
use yacob.Sdo.Server.Segmented.{
  upload_segment, handle_upload_segment, begin_upload, handle_initiate_upload, commit,
  handle_initiate_download, download_segment, handle_download_segment, expedited_len,
  segment_payload, segment_refusal, answer_read,
}
use yacob.Sdo.Server.Invariant.{IsWfSegmented, IsWfTransfer, IsWf, IsSafe, IsSafeOutcome}

expect-segment :
    (toggle last : Bool) (segment : List ℕ)
    → length segment ≤ 7
    → expect (encode_upload_segment_response toggle segment last) ≢ panicked
unfolding encode_upload_segment_response
expect-segment toggle last segment h = ground arith

upload_segment-IsSafe :
    (s : SdoServer) (t : SegmentedTransfer) (request : Bytes8) (now : ℕ)
    → IsWf s
    → IsWfSegmented t
    → t.direction ≡ upload
    → IsSafe (upload_segment s t request now)
unfolding upload_segment
upload_segment-IsSafe s t request now w h d = ground (
  arith,
  expect-segment t.toggle (leb (t.total_len - t.offset) 7)
      (take (min (t.total_len - t.offset) 7) (drop t.offset t.buf)),
  length-take (min (t.total_len - t.offset) 7) (drop t.offset t.buf),
)

pub handle_upload_segment-IsSafe :
    (s : SdoServer) (request : Bytes8) (now : ℕ)
    → IsWf s
    → IsSafe (handle_upload_segment s request now)
unfolding handle_upload_segment
handle_upload_segment-IsSafe s request now w = go s.transfer s.committed_write w.transfer_wf
  where
    go :
        (o : Option TransferState) (c : Option (ℕ × ℕ))
        → IsWfTransfer o
        → IsSafe (handle_upload_segment (record { transfer = o; committed_write = c }) request now)
    go none c h = ground arith
    go (some (segmented t)) c h = ground (
      arith,
      upload_segment-IsSafe (record { transfer = some (segmented t); committed_write = c }) t
          request now (record { transfer_wf = h }) h,
    )
    go (some (block_upload t)) c h = ground arith
    go (some (block_download t)) c h = ground arith

segment_accepted :
    (t : SegmentedTransfer) (client_toggle : Bool) (received : ℕ) (last : Bool)
    → segment_refusal t client_toggle received last ≡ none
    → (received ≤ buf_size) × (t.size_indicated ≡ true → received ≤ t.total_len)
unfolding segment_refusal
segment_accepted t client_toggle received last e = ground arith

module _ {O : Type 0} (dict : ObjectDictionary O) where
  open dict use {read}

  begin_upload-IsSafe :
      (s : SdoServer) (index subindex : ℕ) (buf : List ℕ) (len now : ℕ)
      → length buf ≡ buf_size
      → len ≤ buf_size
      → IsSafe (begin_upload dict s index subindex buf len now)
  unfolding begin_upload encode_upload_response_expedited
  begin_upload-IsSafe s index subindex buf len now b l = ground (arith, length-take len buf)

  answer_read-IsSafe :
      (s : SdoServer) (od : O) (index subindex now : ℕ) (buf : List ℕ) (result : Result ℕ OdError)
      → IsWf s
      → length buf ≡ buf_size
      → ReadWithin buf_size result
      → IsSafe (answer_read dict s od index subindex now buf result)
  unfolding answer_read
  answer_read-IsSafe s od index subindex now buf (ok len) w b l =
      begin_upload-IsSafe s index subindex buf len now b l
  answer_read-IsSafe s od index subindex now buf (err e) w b l = (w, λ p. cc)

  pub handle_initiate_upload-IsSafe :
      (s : SdoServer) (request : Bytes8) (od : O) (now : ℕ)
      → ReadFits dict
      → IsWf s
      → IsSafe (handle_initiate_upload dict s request od now)
  unfolding handle_initiate_upload
  handle_initiate_upload-IsSafe s request od now fits w =
      let (index, subindex) = parse_index_sub request in
      let (result, buf) = read od index subindex empty_buf in
      answer_read-IsSafe s od index subindex now buf result w
        (fits.keeps_length od index subindex empty_buf ∙ length-empty_buf)
        (subst (λ n. ReadWithin n result) length-empty_buf
          (fits.within od index subindex empty_buf))

  pub commit-IsSafe :
      (capacity : ℕ) (s : SdoServer) (od : O) (events : List OdEvent) (ctx : SdoContext)
      (index subindex : ℕ) (bytes : List ℕ) (accepted : Bytes8)
      → IsWf s
      → IsSafeOutcome (commit dict capacity s od events ctx index subindex bytes accepted)
  unfolding commit
  commit-IsSafe capacity s od events ctx index subindex bytes accepted w = ground arith

  pub handle_initiate_download-IsSafe :
      (capacity : ℕ) (s : SdoServer) (request : Bytes8) (od : O) (events : List OdEvent)
      (ctx : SdoContext)
      → IsWf s
      → IsSafeOutcome (handle_initiate_download dict capacity s request od events ctx)
  unfolding handle_initiate_download
  handle_initiate_download-IsSafe capacity s request od events ctx w =
      let (index, subindex) = parse_index_sub request in
      ground (
        arith,
        length-empty_buf,
        commit-IsSafe capacity (record s { transfer = none }) od events ctx index subindex
            (take (expedited_len dict od index subindex request.b0) (drop 4 (to_list request)))
            (encode_download_response index subindex),
      )

  download_segment-IsSafe :
      (capacity : ℕ) (s : SdoServer) (t : SegmentedTransfer) (request : Bytes8) (od : O)
      (events : List OdEvent) (ctx : SdoContext)
      → IsWfSegmented t
      → t.direction ≡ download
      → IsSafeOutcome (download_segment dict capacity s t request od events ctx)
  unfolding download_segment
  download_segment-IsSafe capacity s t request od events ctx h d =
      let seg_len = 7 - bit_and (request.b0 >>> 1) 0x07 in
      let filled = write_at t.buf t.offset (segment_payload request seg_len) in
      ground (
        arith,
        segment_accepted t (has_bits request.b0 0x10) (t.offset + seg_len)
            (has_bits request.b0 0x01),
        length-write_at t.buf t.offset (segment_payload request seg_len),
        commit-IsSafe capacity (record s { transfer = none }) od events ctx t.index t.subindex
            (take (t.offset + seg_len) filled)
            (encode_download_segment_response (has_bits request.b0 0x10)),
      )

  pub handle_download_segment-IsSafe :
      (capacity : ℕ) (s : SdoServer) (request : Bytes8) (od : O) (events : List OdEvent)
      (ctx : SdoContext)
      → IsWf s
      → IsSafeOutcome (handle_download_segment dict capacity s request od events ctx)
  unfolding handle_download_segment
  handle_download_segment-IsSafe capacity s request od events ctx w =
      go s.transfer s.committed_write w.transfer_wf
    where
      go :
          (o : Option TransferState) (c : Option (ℕ × ℕ))
          → IsWfTransfer o
          → IsSafeOutcome (
              handle_download_segment dict capacity
                (record { transfer = o; committed_write = c })
                request
                od
                events
                ctx)
      go none c h = ground arith
      go (some (segmented t)) c h = ground (
        arith,
        download_segment-IsSafe capacity
            (record { transfer = some (segmented t); committed_write = c }) t request od events ctx
            h,
      )
      go (some (block_upload t)) c h = ground arith
      go (some (block_download t)) c h = ground arith
