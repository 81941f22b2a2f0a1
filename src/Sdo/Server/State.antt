-- ===== src/Sdo/Server/State.antt =====
-- canopen-core/src/sdo/server.rs: the server's state, its timeout and its event queue.
use yacob.Base.{
  replicate, ◌≡◌, refl, ℕ, Bool, if◌then◌else◌, ltb, leb, ◌==◌, List, [], ◌∷◌, ◌++◌, length, drop,
  Option, some, none,
}
use yacob.Base.Bytes.{Bytes8, wrapping_sub}
use yacob.Sdo.Abort.{invalid_command_specifier, sdo_protocol_timeout}
use yacob.Sdo.Protocol.{encode_abort}
use yacob.Sdo.Od.{OdEvent}

-- `SDO_TIMEOUT_US`, the size of a transfer buffer and `MAX_BLKSIZE`.
abbrev pub sdo_timeout_us : ℕ
sdo_timeout_us = 5000000

abbrev pub buf_size : ℕ
buf_size = 889

abbrev pub max_blksize : ℕ
max_blksize = 127

-- `[0u8; 889]`.
unfoldable pub empty_buf : List ℕ
empty_buf = replicate buf_size 0

pub length-empty_buf : length empty_buf ≡ buf_size
unfolding empty_buf
length-empty_buf = refl

pub data Direction : Type 0 where
  upload download : Direction

pub record SegmentedTransfer : Type 0 where
  pub index : ℕ
  pub subindex : ℕ
  pub toggle : Bool
  pub direction : Direction
  pub buf : List ℕ
  pub offset : ℕ
  pub total_len : ℕ
  pub size_indicated : Bool
  pub last_activity_us : ℕ

pub record BlockUploadState : Type 0 where
  pub index : ℕ
  pub subindex : ℕ
  pub buf : List ℕ
  pub total_len : ℕ
  pub offset : ℕ
  pub subblock_start_offset : ℕ
  pub blksize : ℕ
  pub seqno : ℕ
  pub last_seqno : ℕ
  pub crc : ℕ
  pub last_activity_us : ℕ

pub record BlockDownloadState : Type 0 where
  pub index : ℕ
  pub subindex : ℕ
  pub buf : List ℕ
  pub offset : ℕ
  pub total_len : ℕ
  pub size_indicated : Bool
  pub blksize : ℕ
  pub seqno : ℕ
  pub awaiting_end : Bool
  pub crc_enabled : Bool
  pub last_activity_us : ℕ

pub data TransferState : Type 0 where
  segmented : SegmentedTransfer → TransferState
  block_upload : BlockUploadState → TransferState
  block_download : BlockDownloadState → TransferState

-- `TransferState::last_activity_us` and `TransferState::index_sub`.
unfoldable pub last_activity : TransferState → ℕ
last_activity (segmented t) = t.last_activity_us
last_activity (block_upload t) = t.last_activity_us
last_activity (block_download t) = t.last_activity_us

unfoldable pub index_sub : TransferState → ℕ × ℕ
index_sub (segmented t) = (t.index, t.subindex)
index_sub (block_upload t) = (t.index, t.subindex)
index_sub (block_download t) = (t.index, t.subindex)

pub record SdoServer : Type 0 where
  pub transfer : Option TransferState
  pub committed_write : Option (ℕ × ℕ)

-- `SdoServer::new`, `take_committed_write` and `abort_transfer`.
unfoldable pub new_server : SdoServer
new_server = record { transfer = none; committed_write = none }

unfoldable pub take_committed_write : SdoServer → Option (ℕ × ℕ) × SdoServer
take_committed_write s = (s.committed_write, record s { committed_write = none })

unfoldable pub abort_transfer : SdoServer → SdoServer
abort_transfer s = record s { transfer = none }

-- What a call hands back: `respond r` is `Ok(())` with the response `r` (for a poll, `Some(r)`),
-- `silent` is `Err(())` (or `None`) and `panicked` a subtraction below zero, a slice out of range
-- or a failed `unwrap`.
pub data Reply : Type 0 where
  respond : Bytes8 → Reply
  silent panicked : Reply

abbrev pub expect : Option Bytes8 → Reply
expect (some r) = respond r
expect none = panicked

-- The outcome of an operation that may touch the dictionary and the event queue.
pub record Outcome (O : Type 0) : Type 0 where
  pub server : SdoServer
  pub od : O
  pub events : List OdEvent
  pub reply : Reply

-- `check_timeout`.
unfoldable pub check_timeout : SdoServer → ℕ → SdoServer × Reply
check_timeout s now_us = elim s.transfer [
  | none ↦ (s, silent)
  | some t ↦
      if leb sdo_timeout_us (wrapping_sub now_us (last_activity t))
      then (
        record s { transfer = none },
        respond (encode_abort (index_sub t).0 (index_sub t).1 sdo_protocol_timeout),
      )
      else (s, silent)
]

-- `push_event` on a `Deque<_, capacity>`: the oldest entry makes room, and a queue without any
-- room stays empty.
unfoldable pub push_event : ℕ → List OdEvent → OdEvent → List OdEvent
push_event capacity events event =
    let events' = if length events == capacity then drop 1 events else events in
    if ltb (length events') capacity then events' ++ event ∷ [] else events'

-- The reply to a frame that no transfer waits for.
abbrev pub stray : Bytes8
stray = encode_abort 0 0 invalid_command_specifier
