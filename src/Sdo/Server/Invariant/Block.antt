-- ===== src/Sdo/Server/Invariant/Block.antt =====
-- Block transfers keep the invariant and do not panic (canopen-core/src/sdo/server.rs).
use yacob.Base.{
  inl, inr, Bool-cases, ==_iff, ℕ, ◌+◌, ◌-◌, ◌<◌, ◌≡◌, refl, ap, sym, ◌∙◌, arith, Bool, true, false,
  ◌&&◌, ◌||◌, List, length, take, drop, length-write_at, take_add, Option, some, none,
  if◌then◌else◌, leb, ◌==◌, bit_and, bit_or,
}
use mathlib.Core.Path.{subst}
use yacob.Base.Bits.{every, every_holds, bit_and_mask}
use yacob.Base.Bytes.{◌<<<◌, u8, Bytes8, ◌>>>◌}
use yacob.Base.Results.{Result, ok, err}
use yacob.Sdo.Crc.{crc16_ccitt_update, crc16-append}
use yacob.Sdo.Od.{ObjectDictionary, OdEvent, OdError, ReadFits, ReadWithin}
use yacob.Sdo.Protocol.{parse_index_sub}
use yacob.Sdo.Validate.{SdoContext}
use yacob.Sdo.Server.State.{
  SdoServer, BlockUploadState, BlockDownloadState, TransferState, segmented, block_upload,
  block_download, buf_size, empty_buf, length-empty_buf,
}
use yacob.Sdo.Server.Segmented.{segment_len, segment_payload}
use yacob.Sdo.Server.Block.{
  is_blksize, begin_block_upload, short_frame, poll_segment, poll_block_upload, start_block_upload,
  ack_block_upload, handle_block_ack, end_block_upload, block_segment,
  handle_block_download_segment, initiate_block_upload, handle_block_upload,
  initiate_block_download, finish_block_download, handle_block_download,
}
use yacob.Sdo.Server.Invariant.{
  IsWfBlockUpload, IsWfBlockDownload, IsWfTransfer, IsWf, IsSafe, IsSafeOutcome,
}
use yacob.Sdo.Server.Invariant.Segmented.{commit-IsSafe}

-- The sequence number without the end flag.
flag_table : every (λ n. bit_and (bit_or n 0x80) 0x7F == n) 128 ≡ true
unfolding every
flag_table = refl

pub seqno_of_head :
    (n : ℕ) (flag : Bool) → n < 128 → bit_and (if flag then bit_or n 0x80 else n) 0x7F ≡ n
seqno_of_head n true h = (==_iff _ n).0 (every_holds _ 128 flag_table n h)
seqno_of_head n false h = omega (arith, bit_and_mask 7 n 0x7F refl)

-- The CRC of the bytes sent, after one more segment.
crc-extend :
    (buf : List ℕ) (offset len k : ℕ)
    → k ≡ offset + len
    → crc16_ccitt_update (crc16_ccitt_update 0 (take offset buf)) (take len (drop offset buf))
      ≡ crc16_ccitt_update 0 (take k buf)
crc-extend buf offset len k e =
    sym (crc16-append 0 (take offset buf) (take len (drop offset buf)))
    ∙ ap (crc16_ccitt_update 0) (sym (take_add offset len k buf e))

poll_segment-IsSafe :
    (s : SdoServer) (t : BlockUploadState) (now : ℕ)
    → IsWf s
    → IsWfBlockUpload t
    → IsSafe (poll_segment s t now)
unfolding poll_segment
poll_segment-IsSafe s t now w h =
    let len = segment_len t.total_len t.offset in
    let last = leb (t.total_len - t.offset) 7 in
    ground (
      arith,
      seqno_of_head t.seqno (last && (leb t.blksize t.seqno || last)),
      crc-extend t.buf t.offset len (t.offset + len),
    )

pub poll_block_upload-IsSafe : (s : SdoServer) (now : ℕ) → IsWf s → IsSafe (poll_block_upload s now)
unfolding poll_block_upload
poll_block_upload-IsSafe s now w = go s.transfer s.committed_write w.transfer_wf
  where
    go :
        (o : Option TransferState) (c : Option (ℕ × ℕ))
        → IsWfTransfer o
        → IsSafe (poll_block_upload (record { transfer = o; committed_write = c }) now)
    go none c h = ground arith
    go (some (segmented t)) c h = ground arith
    go (some (block_upload t)) c h =
        poll_segment-IsSafe (record { transfer = some (block_upload t); committed_write = c }) t now
          (record { transfer_wf = h }) h
    go (some (block_download t)) c h = ground arith

ack_block_upload-IsSafe :
    (s : SdoServer) (t : BlockUploadState) (request : Bytes8) (now : ℕ)
    → IsWfBlockUpload t
    → IsSafe (ack_block_upload s t request now)
unfolding ack_block_upload
ack_block_upload-IsSafe s t request now h = ground arith

start_block_upload-IsSafe : (s : SdoServer) (now : ℕ) → IsWf s → IsSafe (start_block_upload s now)
unfolding start_block_upload
start_block_upload-IsSafe s now w = go s.transfer s.committed_write w.transfer_wf
  where
    go :
        (o : Option TransferState) (c : Option (ℕ × ℕ))
        → IsWfTransfer o
        → IsSafe (start_block_upload (record { transfer = o; committed_write = c }) now)
    go none c h = ground arith
    go (some (segmented t)) c h = ground arith
    go (some (block_upload t)) c h = ground arith
    go (some (block_download t)) c h = ground arith

handle_block_ack-IsSafe :
    (s : SdoServer) (request : Bytes8) (now : ℕ) → IsWf s → IsSafe (handle_block_ack s request now)
unfolding handle_block_ack
handle_block_ack-IsSafe s request now w = go s.transfer s.committed_write w.transfer_wf
  where
    go :
        (o : Option TransferState) (c : Option (ℕ × ℕ))
        → IsWfTransfer o
        → IsSafe (handle_block_ack (record { transfer = o; committed_write = c }) request now)
    go none c h = ground arith
    go (some (segmented t)) c h = ground arith
    go (some (block_upload t)) c h = ground (
      arith,
      ack_block_upload-IsSafe (record { transfer = some (block_upload t); committed_write = c }) t
          request now h,
    )
    go (some (block_download t)) c h = ground arith

end_block_upload-IsSafe : (s : SdoServer) → IsWf s → IsSafe (end_block_upload s)
unfolding end_block_upload
end_block_upload-IsSafe s w = go s.transfer s.committed_write w.transfer_wf
  where
    go :
        (o : Option TransferState) (c : Option (ℕ × ℕ))
        → IsWfTransfer o
        → IsSafe (end_block_upload (record { transfer = o; committed_write = c }))
    go none c h = ground arith
    go (some (segmented t)) c h = ground arith
    go (some (block_upload t)) c h = ground arith
    go (some (block_download t)) c h = ground arith

block_segment-IsSafe :
    (s : SdoServer) (t : BlockDownloadState) (request : Bytes8) (now : ℕ)
    → IsWfBlockDownload t
    → IsSafe (block_segment s t request now)
unfolding block_segment
block_segment-IsSafe s t request now h = ground (
  arith,
  length-write_at t.buf t.offset (segment_payload request 7),
  bit_and_mask 7 request.b0 0x7F refl,
)

pub handle_block_download_segment-IsSafe :
    (s : SdoServer) (request : Bytes8) (now : ℕ)
    → IsWf s
    → IsSafe (handle_block_download_segment s request now)
unfolding handle_block_download_segment
handle_block_download_segment-IsSafe s request now w = go s.transfer s.committed_write w.transfer_wf
  where
    go :
        (o : Option TransferState) (c : Option (ℕ × ℕ))
        → IsWfTransfer o
        → IsSafe (
            handle_block_download_segment
              (record { transfer = o; committed_write = c })
              request
              now)
    go none c h = ground arith
    go (some (segmented t)) c h = ground arith
    go (some (block_upload t)) c h = ground arith
    go (some (block_download t)) c h =
        block_segment-IsSafe (record { transfer = some (block_download t); committed_write = c }) t
          request now h

module _ {O : Type 0} (dict : ObjectDictionary O) where
  open dict use {read}

  begin_block_upload-IsSafe :
      (s : SdoServer) (request : Bytes8) (od : O) (now : ℕ) (buf : List ℕ)
      (result : Result ℕ OdError)
      → IsWf s
      → is_blksize request.b4 ≡ true
      → length buf ≡ buf_size
      → ReadWithin buf_size result
      → IsSafe (begin_block_upload dict s request od now buf result)
  unfolding begin_block_upload crc16_ccitt_update
  begin_block_upload-IsSafe s request od now buf (ok len) w z b l = ground arith
  begin_block_upload-IsSafe s request od now buf (err e) w z b l = (w, λ p. cc)

  initiate_block_upload-IsSafe :
      (s : SdoServer) (request : Bytes8) (od : O) (now : ℕ)
      → ReadFits dict
      → IsWf s
      → IsSafe (initiate_block_upload dict s request od now)
  unfolding initiate_block_upload
  initiate_block_upload-IsSafe s request od now fits w =
      let (index, subindex) = parse_index_sub request in
      let (result, buf) = read od index subindex empty_buf in
      let safe = begin_block_upload-IsSafe s request od now buf result w in
      elim (Bool-cases (is_blksize request.b4)) [
        | inl z ↦ rw z (
            safe z (fits.keeps_length od index subindex empty_buf ∙ length-empty_buf) (
              subst (λ n. ReadWithin n result) length-empty_buf
                (fits.within od index subindex empty_buf)))
        | inr z ↦ rw z (w, λ p. cc)
      ]

  pub handle_block_upload-IsSafe :
      (s : SdoServer) (request : Bytes8) (od : O) (now : ℕ)
      → ReadFits dict
      → IsWf s
      → IsSafe (handle_block_upload dict s request od now)
  unfolding handle_block_upload
  handle_block_upload-IsSafe s request od now fits w = ground (
    arith,
    initiate_block_upload-IsSafe s request od now fits w,
    start_block_upload-IsSafe s now w,
    handle_block_ack-IsSafe s request now w,
    end_block_upload-IsSafe s w,
  )

  initiate_block_download-IsSafe :
      (s : SdoServer) (request : Bytes8) (ctx : SdoContext)
      → IsWf s
      → IsSafe (initiate_block_download dict s request ctx)
  unfolding initiate_block_download
  initiate_block_download-IsSafe s request ctx w = ground (arith, length-empty_buf)

  finish_block_download-IsSafe :
      (capacity : ℕ) (s : SdoServer) (t : BlockDownloadState) (request : Bytes8) (od : O)
      (events : List OdEvent) (ctx : SdoContext)
      → IsWfBlockDownload t
      → IsSafeOutcome (finish_block_download dict capacity s t request od events ctx)
  unfolding finish_block_download
  finish_block_download-IsSafe capacity s t request od events ctx h = ground (
    arith,
    commit-IsSafe dict capacity (record s { transfer = none }) od events ctx t.index t.subindex
        (take (t.offset - bit_and (request.b0 >>> 2) 0x07) t.buf)
        (short_frame (bit_or (u8 (5 <<< 5)) 0x01) 0 0),
  )

  pub handle_block_download-IsSafe :
      (capacity : ℕ) (s : SdoServer) (request : Bytes8) (od : O) (events : List OdEvent)
      (ctx : SdoContext)
      → IsWf s
      → IsSafeOutcome (handle_block_download dict capacity s request od events ctx)
  unfolding handle_block_download
  handle_block_download-IsSafe capacity s request od events ctx w =
      go s.transfer s.committed_write w.transfer_wf
    where
      go :
          (o : Option TransferState) (c : Option (ℕ × ℕ))
          → IsWfTransfer o
          → IsSafeOutcome (
              handle_block_download dict capacity
                (record { transfer = o; committed_write = c })
                request
                od
                events
                ctx)
      go none c h = ground (
        arith,
        initiate_block_download-IsSafe (record { transfer = none; committed_write = c }) request ctx
            (record { transfer_wf = h }),
      )
      go (some (segmented t)) c h = ground (
        arith,
        initiate_block_download-IsSafe
            (record { transfer = some (segmented t); committed_write = c }) request ctx
            (record { transfer_wf = h }),
      )
      go (some (block_upload t)) c h = ground (
        arith,
        initiate_block_download-IsSafe
            (record { transfer = some (block_upload t); committed_write = c }) request ctx
            (record { transfer_wf = h }),
      )
      go (some (block_download t)) c h = ground (
        arith,
        initiate_block_download-IsSafe
            (record { transfer = some (block_download t); committed_write = c }) request ctx
            (record { transfer_wf = h }),
        finish_block_download-IsSafe capacity
            (record { transfer = some (block_download t); committed_write = c }) t request od events
            ctx h,
      )
