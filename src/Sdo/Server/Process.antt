-- ===== src/Sdo/Server/Process.antt =====
-- canopen-core/src/sdo/server.rs: the dispatch of a request.
use yacob.Base.{ℕ, Bool, false, not, ◌&&◌, if◌then◌else◌, ◌==◌, List, [], some, none}
use yacob.Base.Bytes.{Bytes8}
use yacob.Nmt.{NmtState}
use yacob.Sdo.Abort.{invalid_command_specifier}
use yacob.Sdo.Protocol.{
  command_specifier, parse_index_sub, encode_abort, ccs_initiate_upload, ccs_upload_segment,
  ccs_initiate_download, ccs_download_segment, ccs_block_upload, ccs_block_download,
  ccs_abort_transfer,
}
use yacob.Sdo.Od.{ObjectDictionary, OdEvent}
use yacob.Sdo.Validate.{SdoContext}
use yacob.Sdo.Server.State.{
  SdoServer, segmented, block_upload, block_download, respond, silent, panicked, Outcome,
}
use yacob.Sdo.Server.Segmented.{
  only, handle_initiate_upload, handle_upload_segment, handle_initiate_download,
  handle_download_segment,
}
use yacob.Sdo.Server.Block.{
  handle_block_upload, handle_block_download, handle_block_download_segment,
}

-- Is the frame a segment of a running block download, whatever its command specifier says?
unfoldable pub is_block_segment : SdoServer → Bytes8 → Bool
is_block_segment s request = elim s.transfer [
  | some (block_download t) ↦ not t.awaiting_end && not (request.b0 == 0x80)
  | some (segmented t) ↦ false
  | some (block_upload t) ↦ false
  | none ↦ false
]

-- Every server abort ends the channel's transfer.
unfoldable pub end_on_abort : {O : Type 0} → Outcome O → Outcome O
end_on_abort o = elim o.reply [
  | respond r ↦
      if r.b0 == 0x80 then record o { server = record (o.server) { transfer = none } } else o
  | silent ↦ o
  | panicked ↦ o
]

module _ {O : Type 0} (dict : ObjectDictionary O) (capacity : ℕ) where
  -- The `match cs` of `process_with_context`.
  unfoldable pub dispatch : SdoServer → Bytes8 → O → List OdEvent → SdoContext → Outcome O
  dispatch s request od events ctx =
      let cs = command_specifier request.b0 in
      let (index, subindex) = parse_index_sub request in
      if cs == ccs_initiate_upload
      then only od events (handle_initiate_upload dict s request od ctx.now_us)
      else if cs == ccs_upload_segment
      then only od events (handle_upload_segment s request ctx.now_us)
      else if cs == ccs_initiate_download
      then handle_initiate_download dict capacity s request od events ctx
      else if cs == ccs_download_segment
      then handle_download_segment dict capacity s request od events ctx
      else if cs == ccs_block_upload
      then only od events (handle_block_upload dict s request od ctx.now_us)
      else if cs == ccs_block_download
      then handle_block_download dict capacity s request od events ctx
      else if cs == ccs_abort_transfer
      then only od events (record s { transfer = none }, silent)
      else only od events (s, respond (encode_abort index subindex invalid_command_specifier))

  -- `process_with_context`.
  unfoldable pub process_with_context :
      SdoServer → Bytes8 → O → List OdEvent → SdoContext → Outcome O
  process_with_context s request od events ctx =
      if is_block_segment s request
      then only od events (handle_block_download_segment s request ctx.now_us)
      else end_on_abort (dispatch s request od events ctx)

  -- `process`: nothing is claimed, and no heartbeat is consumed.
  unfoldable pub process : SdoServer → Bytes8 → O → List OdEvent → NmtState → ℕ → Outcome O
  process s request od events nmt_state now_us = process_with_context s request od events (record {
    nmt_state = nmt_state;
    now_us = now_us;
    heartbeat_consumer_count = 0;
    cob_ids = record { default_rx = 0; default_tx = 0; extra_rx = []; extra_tx = [] };
    reserved_cob_ids = record { ids = []; truncated = false };
    sync_cob_id = 0;
  })
