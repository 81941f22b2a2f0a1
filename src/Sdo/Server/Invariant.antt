-- ===== src/Sdo/Server/Invariant.antt =====
-- The server's transfers stay within their buffers (canopen-core/src/sdo/server.rs).
pub mod Segmented
pub mod Block
use yacob.Base.{
  ◌==◌, if◌then◌else◌, ℕ, zero, suc, ◌+◌, ◌-◌, ◌*◌, ◌≤◌, ◌<◌, ◌≡◌, ◌≢◌, Bool, true, false, List,
  length, take, min, Option, some, none,
}
use yacob.Sdo.Crc.{crc16_ccitt_update}
use yacob.Sdo.Server.State.{
  SdoServer, SegmentedTransfer, BlockUploadState, BlockDownloadState, Direction, upload, download,
  TransferState, segmented, block_upload, block_download, Reply, panicked, Outcome, buf_size,
  max_blksize,
}

-- An upload never reads past the object, nor a download past the buffer; a download whose size
-- was announced has received no more than that.
pub record IsWfSegmented (t : SegmentedTransfer) : Type 0 where
  pub buf_len : length t.buf ≡ buf_size
  pub total_fits : t.total_len ≤ buf_size
  pub offset_fits : t.offset ≤ buf_size
  pub sent_within : t.direction ≡ upload → t.offset ≤ t.total_len
  pub received_within : t.direction ≡ download → t.size_indicated ≡ true → t.offset ≤ t.total_len

-- How many segments of the current sub-block have been sent.
abbrev pub sent_in_subblock : ℕ → ℕ → ℕ
sent_in_subblock seqno last_seqno = if seqno == 0 then last_seqno else seqno - 1

-- The position in the object is that of the segments sent, and the running CRC is that of the
-- bytes sent.
pub record IsWfBlockUpload (t : BlockUploadState) : Type 0 where
  pub buf_len : length t.buf ≡ buf_size
  pub total_fits : t.total_len ≤ buf_size
  pub offset_within : t.offset ≤ t.total_len
  pub start_within : t.subblock_start_offset ≤ t.total_len
  pub blksize_positive : 1 ≤ t.blksize
  pub blksize_fits : t.blksize ≤ max_blksize
  pub seqno_fits : t.seqno ≤ t.blksize
  pub last_seqno_fits : t.last_seqno ≤ max_blksize
  pub position :
      t.offset
      ≡ min (t.subblock_start_offset + sent_in_subblock t.seqno t.last_seqno * 7) t.total_len
  pub crc_of_sent : t.crc ≡ crc16_ccitt_update 0 (take t.offset t.buf)

pub record IsWfBlockDownload (t : BlockDownloadState) : Type 0 where
  pub buf_len : length t.buf ≡ buf_size
  pub total_fits : t.total_len ≤ buf_size
  pub offset_fits : t.offset ≤ buf_size
  pub blksize_fixed : t.blksize ≡ max_blksize
  pub seqno_fits : t.seqno ≤ max_blksize
  pub seqno_below : t.awaiting_end ≡ false → t.seqno < max_blksize

abbrev pub IsWfTransfer : Option TransferState → Type 0
IsWfTransfer none = Unit
IsWfTransfer (some (segmented t)) = IsWfSegmented t
IsWfTransfer (some (block_upload t)) = IsWfBlockUpload t
IsWfTransfer (some (block_download t)) = IsWfBlockDownload t

pub record IsWf (s : SdoServer) : Type 0 where
  pub transfer_wf : IsWfTransfer s.transfer

-- A step that stays well formed and does not panic.
abbrev pub IsSafe : SdoServer × Reply → Type 0
IsSafe (s, r) = IsWf s × (r ≢ panicked)

abbrev pub IsSafeOutcome : {O : Type 0} → Outcome O → Type 0
IsSafeOutcome o = IsWf o.server × (o.reply ≢ panicked)
