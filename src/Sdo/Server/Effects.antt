-- ===== src/Sdo/Server/Effects.antt =====
-- What a request does to the dictionary, the event queue and the node
-- (canopen-core/src/sdo/server.rs).
pub mod Downloads
pub mod Requests
pub mod Guarantees
pub mod Lock
pub mod Locked
pub mod Queue
pub mod Written
use mathlib.Core.Path.{subst}
use yacob.Sdo.Protocol.{
  encode_sdo_abort, parse_index_sub, encode_download_response, encode_download_segment_response,
  encode_abort,
}
use yacob.Sdo.Validate.{od_write_abort, is_pdo_config_index, SdoContext, validate_download}
use yacob.Base.Bytes.{from_le32, has_bits, to_list, ◌>>>◌, ◌<<<◌, u8, join_bytes, Bytes8}
use yacob.Nmt.{same_state, NmtState, operational}
use yacob.Sdo.Abort.{
  out_of_memory, data_transfer_device_state, AbortCode, data_transfer_error, length_too_high,
  length_too_low, crc_error,
}
use yacob.Sdo.Server.State.{
  empty_buf, SegmentedTransfer, BlockDownloadState, buf_size, SdoServer, TransferState, segmented,
  block_upload, block_download, upload, download, Reply, respond, silent, panicked, Outcome,
  push_event,
}
use yacob.Base.{
  write_at, ◌||◌, not, ◌&&◌, bit_or, take, bit_and, ◌-◌, ℕ, ◌+◌, ◌≤◌, ◌≡◌, ◌≢◌, refl, sym, ap, ◌∙◌,
  arith, Bool, true, false, List, [], ◌∷◌, ◌++◌, length, length-append, length-drop, drop, Option,
  some, none, ◌==◌, ltb, if◌then◌else◌,
}
use yacob.Sdo.Server.Segmented.{
  segment_refusal, segment_payload, expedited_len, download_segment, upload_segment, answer_read,
  begin_upload, commit, only, handle_initiate_upload, handle_upload_segment,
  handle_initiate_download, handle_download_segment,
}
use yacob.Sdo.Crc.{crc16_ccitt_update}
use yacob.Sdo.Server.Block.{
  finish_block_download, short_frame, initiate_block_upload, begin_block_upload, start_block_upload,
  handle_block_ack, ack_block_upload, end_block_upload, block_segment, initiate_block_download,
  handle_block_upload, handle_block_download, handle_block_download_segment,
}
use yacob.Base.Results.{Result, ok, err}
use yacob.Sdo.Od.{ObjectDictionary, OdEvent, sdo, OdError}
use yacob.Sdo.Server.Process.{is_block_segment, end_on_abort, dispatch, process_with_context}

-- An abort frame, whatever its object and code.
abbrev pub IsAbort : Reply → Type 0
IsAbort (respond r) = r.b0 ≡ 0x80
IsAbort silent = ⊥
IsAbort panicked = ⊥

encode_sdo_abort_b0 : (index subindex code : ℕ) → (encode_sdo_abort index subindex code).b0 ≡ 0x80
unfolding encode_sdo_abort
encode_sdo_abort_b0 index subindex code = refl

module _ {O : Type 0} (dict : ObjectDictionary O) (capacity : ℕ) where
  open dict use {write}

  -- The three things that a request can do: touch nothing but the transfer; try a validated write
  -- that the dictionary refuses; or write a validated value, which ends the transfer, queues one
  -- event and names the object to the node.
  pub data Effect (written : Option (ℕ × ℕ)) (od : O) (events : List OdEvent) (ctx : SdoContext)
      (o : Outcome O) : Type 0 where
    kept :
        o.od ≡ od
        → o.events ≡ events
        → o.server.committed_write ≡ written
        → Effect written od events ctx o
    refused :
        (index subindex : ℕ) (bytes : List ℕ) (e : OdError)
        → validate_download dict od ctx index subindex bytes ≡ ok tt
        → write od index subindex bytes ≡ (err e, o.od)
        → o.events ≡ events
        → o.server.committed_write ≡ written
        → IsAbort o.reply
        → Effect written od events ctx o
    wrote :
        (index subindex : ℕ) (bytes : List ℕ)
        → validate_download dict od ctx index subindex bytes ≡ ok tt
        → write od index subindex bytes ≡ (ok tt, o.od)
        → o.events
          ≡ push_event capacity events (record { index = index; subindex = subindex; source = sdo })
        → o.server.committed_write ≡ some (index, subindex)
        → o.server.transfer ≡ none
        → Effect written od events ctx o

  pub only-Effect :
      (written : Option (ℕ × ℕ)) (od : O) (events : List OdEvent) (ctx : SdoContext)
      (r : SdoServer × Reply)
      → r.0.committed_write ≡ written
      → Effect written od events ctx (only od events r)
  only-Effect written od events ctx r e = kept refl refl e

  pub if-Effect :
      (written : Option (ℕ × ℕ)) (od : O) (events : List OdEvent) (ctx : SdoContext) (b : Bool)
      (x y : Outcome O)
      → Effect written od events ctx x
      → Effect written od events ctx y
      → Effect written od events ctx (if b then x else y)
  if-Effect written od events ctx true x y p q = p
  if-Effect written od events ctx false x y p q = q

  pub commit-Effect :
      (s : SdoServer) (od : O) (events : List OdEvent) (ctx : SdoContext) (index subindex : ℕ)
      (bytes : List ℕ) (accepted : Bytes8)
      → s.transfer ≡ none
      → Effect s.committed_write od events ctx
          (commit dict capacity s od events ctx index subindex bytes accepted)
  unfolding commit
  commit-Effect s od events ctx index subindex bytes accepted e =
      go (validate_download dict od ctx index subindex bytes) refl (write od index subindex bytes)
        refl
    where
      go :
          (v : Result (Unit {0}) ℕ)
          → validate_download dict od ctx index subindex bytes ≡ v
          → (w : Result (Unit {0}) OdError × O) → write od index subindex bytes ≡ w
          → Effect s.committed_write od events ctx
              (commit dict capacity s od events ctx index subindex bytes accepted)
      go (err code) p w q = kept (ground arith) (ground arith) (ground arith)
      go (ok tt) p (ok v, od') q =
          let out : commit dict capacity s od events ctx index subindex bytes accepted ≡ record {
            server = record s { committed_write = some (index, subindex) };
            od = od';
            events =
                push_event capacity events
                  (record { index = index; subindex = subindex; source = sdo });
            reply = respond accepted;
          } =
            ground arith in
          subst (Effect s.committed_write od events ctx) (sym out)
            (wrote index subindex bytes p q refl refl e)
      go (ok tt) p (err x, od') q =
          let out : commit dict capacity s od events ctx index subindex bytes accepted ≡ record {
            server = s;
            od = od';
            events = events;
            reply = respond (
                encode_sdo_abort index subindex
                  (od_write_abort dict od' index subindex (length bytes) x));
          } =
            ground arith in
          subst (Effect s.committed_write od events ctx) (sym out) (
            refused index subindex bytes x p q refl refl (
              encode_sdo_abort_b0 index subindex
                (od_write_abort dict od' index subindex (length bytes) x)))
