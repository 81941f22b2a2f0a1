-- ===== src/Sdo/Server/Effects/Requests.antt =====
-- What a request does (canopen-core/src/sdo/server.rs).
use mathlib.Core.Path.{subst}
use yacob.Sdo.Protocol.{
  parse_index_sub, encode_abort, ccs_initiate_upload, ccs_upload_segment, ccs_initiate_download,
  ccs_download_segment, ccs_block_upload, ccs_block_download, ccs_abort_transfer, command_specifier,
}
use yacob.Sdo.Server.Segmented.{
  upload_segment, answer_read, begin_upload, only, handle_initiate_upload, handle_upload_segment,
  handle_initiate_download, handle_download_segment,
}
use yacob.Sdo.Server.Block.{
  initiate_block_upload, begin_block_upload, start_block_upload, handle_block_ack, ack_block_upload,
  end_block_upload, block_segment, handle_block_upload, handle_block_download,
  handle_block_download_segment,
}
use yacob.Base.{ℕ, ◌≡◌, refl, sym, ap, ◌∙◌, arith, List, Option, none, ◌==◌, if◌then◌else◌}
use yacob.Base.Bytes.{Bytes8}
use yacob.Base.Results.{ok, err}
use yacob.Sdo.Od.{ObjectDictionary, OdEvent}
use yacob.Sdo.Validate.{SdoContext}
use yacob.Sdo.Server.State.{SdoServer, respond, silent, Outcome}
use yacob.Sdo.Server.Process.{is_block_segment, end_on_abort, dispatch, process_with_context}
use yacob.Sdo.Server.Effects.{Effect, kept, refused, wrote, IsAbort, only-Effect, if-Effect}
use yacob.Sdo.Abort.{invalid_command_specifier}
use yacob.Sdo.Server.Effects.Downloads.{
  handle_initiate_download-Effect, handle_download_segment-Effect, handle_block_download-Effect,
}

module _ {O : Type 0} (dict : ObjectDictionary O) (capacity : ℕ) where
  handle_initiate_upload-kept :
      (s : SdoServer) (request : Bytes8) (od : O) (now : ℕ)
      → (handle_initiate_upload dict s request od now).0.committed_write ≡ s.committed_write
  unfolding handle_initiate_upload answer_read begin_upload
  handle_initiate_upload-kept s request od now = ground arith

  handle_upload_segment-kept :
      (s : SdoServer) (request : Bytes8) (now : ℕ)
      → (handle_upload_segment s request now).0.committed_write ≡ s.committed_write
  unfolding handle_upload_segment upload_segment
  handle_upload_segment-kept s request now = ground arith

  handle_block_upload-kept :
      (s : SdoServer) (request : Bytes8) (od : O) (now : ℕ)
      → (handle_block_upload dict s request od now).0.committed_write ≡ s.committed_write
  unfolding handle_block_upload initiate_block_upload begin_block_upload start_block_upload
      handle_block_ack ack_block_upload end_block_upload
  handle_block_upload-kept s request od now = ground arith

  handle_block_download_segment-kept :
      (s : SdoServer) (request : Bytes8) (now : ℕ)
      → (handle_block_download_segment s request now).0.committed_write ≡ s.committed_write
  unfolding handle_block_download_segment block_segment
  handle_block_download_segment-kept s request now = ground arith

  dispatch-Effect :
      (s : SdoServer) (request : Bytes8) (od : O) (events : List OdEvent) (ctx : SdoContext)
      → Effect dict capacity s.committed_write od events ctx
          (dispatch dict capacity s request od events ctx)
  unfolding dispatch
  dispatch-Effect s request od events ctx =
      let w = s.committed_write in
      let cs = command_specifier request.b0 in
      let (index, subindex) = parse_index_sub request in
      let unknown : Outcome O =
        only od events (s, respond (encode_abort index subindex invalid_command_specifier)) in
      let aborted : Outcome O = only od events (record s { transfer = none }, silent) in
      let from_abort_transfer : Outcome O = if cs == ccs_abort_transfer then aborted else unknown in
      let from_block_download : Outcome O =
        if cs == ccs_block_download
        then handle_block_download dict capacity s request od events ctx
        else from_abort_transfer in
      let from_block_upload : Outcome O =
        if cs == ccs_block_upload
        then only od events (handle_block_upload dict s request od ctx.now_us)
        else from_block_download in
      let from_download_segment : Outcome O =
        if cs == ccs_download_segment
        then handle_download_segment dict capacity s request od events ctx
        else from_block_upload in
      let from_initiate_download : Outcome O =
        if cs == ccs_initiate_download
        then handle_initiate_download dict capacity s request od events ctx
        else from_download_segment in
      let from_upload_segment : Outcome O =
        if cs == ccs_upload_segment
        then only od events (handle_upload_segment s request ctx.now_us)
        else from_initiate_download in
      if-Effect dict capacity w od events ctx (cs == ccs_initiate_upload)
        (only od events (handle_initiate_upload dict s request od ctx.now_us)) from_upload_segment
        (only-Effect dict capacity w od events ctx
          (handle_initiate_upload dict s request od ctx.now_us)
          (handle_initiate_upload-kept s request od ctx.now_us))
        (if-Effect dict capacity w od events ctx (cs == ccs_upload_segment)
          (only od events (handle_upload_segment s request ctx.now_us)) from_initiate_download
          (only-Effect dict capacity w od events ctx (handle_upload_segment s request ctx.now_us)
            (handle_upload_segment-kept s request ctx.now_us))
          (if-Effect dict capacity w od events ctx (cs == ccs_initiate_download)
            (handle_initiate_download dict capacity s request od events ctx) from_download_segment
            (handle_initiate_download-Effect dict capacity s request od events ctx)
            (if-Effect dict capacity w od events ctx (cs == ccs_download_segment)
              (handle_download_segment dict capacity s request od events ctx) from_block_upload
              (handle_download_segment-Effect dict capacity s request od events ctx)
              (if-Effect dict capacity w od events ctx (cs == ccs_block_upload)
                (only od events (handle_block_upload dict s request od ctx.now_us))
                from_block_download
                (only-Effect dict capacity w od events ctx
                  (handle_block_upload dict s request od ctx.now_us)
                  (handle_block_upload-kept s request od ctx.now_us))
                (if-Effect dict capacity w od events ctx (cs == ccs_block_download)
                  (handle_block_download dict capacity s request od events ctx) from_abort_transfer
                  (handle_block_download-Effect dict capacity s request od events ctx)
                  (if-Effect dict capacity w od events ctx (cs == ccs_abort_transfer) aborted
                    unknown (kept refl refl refl) (kept refl refl refl)))))))

  end_on_abort-keeps :
      (o : Outcome O)
      → ((end_on_abort o).od ≡ o.od)
        × ((end_on_abort o).events ≡ o.events)
        × ((end_on_abort o).server.committed_write ≡ o.server.committed_write)
        × ((end_on_abort o).reply ≡ o.reply)
        × (o.server.transfer ≡ none → (end_on_abort o).server.transfer ≡ none)
  unfolding end_on_abort
  end_on_abort-keeps o = ground arith

  end_on_abort-Effect :
      (written : Option (ℕ × ℕ)) (od : O) (events : List OdEvent) (ctx : SdoContext) (o : Outcome O)
      → Effect dict capacity written od events ctx o
      → Effect dict capacity written od events ctx (end_on_abort o)
  end_on_abort-Effect written od events ctx o (kept a b c) =
      let k = end_on_abort-keeps o in kept (k.0 ∙ a) (k.1 ∙ b) (k.2 ∙ c)
  end_on_abort-Effect written od events ctx o (refused index subindex bytes e v w a b c) =
      let k = end_on_abort-keeps o in
      refused index subindex bytes e v (w ∙ ap (λ (x : O). (err e, x)) (sym k.0)) (k.1 ∙ a)
        (k.2 ∙ b) (subst IsAbort (sym k.3) c)
  end_on_abort-Effect written od events ctx o (wrote index subindex bytes v w a b c) =
      let k = end_on_abort-keeps o in
      wrote index subindex bytes v (w ∙ ap (λ (x : O). (ok tt, x)) (sym k.0)) (k.1 ∙ a) (k.2 ∙ b)
        (k.4 c)

  -- Every request, in every state, has one of three effects. It leaves the dictionary, the queue
  -- of events and the committed write alone; or the dictionary itself refuses a write that passed
  -- every check, and the answer is an abort; or a value that passed every check is written, one
  -- event for it is queued, it is named as the committed write, and no transfer is left running.
  pub process_with_context-Effect :
      (s : SdoServer) (request : Bytes8) (od : O) (events : List OdEvent) (ctx : SdoContext)
      → Effect dict capacity s.committed_write od events ctx
          (process_with_context dict capacity s request od events ctx)
  unfolding process_with_context
  process_with_context-Effect s request od events ctx =
      if-Effect dict capacity s.committed_write od events ctx (is_block_segment s request)
        (only od events (handle_block_download_segment s request ctx.now_us))
        (end_on_abort (dispatch dict capacity s request od events ctx))
        (only-Effect dict capacity s.committed_write od events ctx
          (handle_block_download_segment s request ctx.now_us)
          (handle_block_download_segment-kept s request ctx.now_us))
        (end_on_abort-Effect s.committed_write od events ctx
          (dispatch dict capacity s request od events ctx)
          (dispatch-Effect s request od events ctx))
