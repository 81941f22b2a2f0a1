-- ===== src/Sdo/Server/Effects/Guarantees.antt =====
-- What clients and the node may rely on (canopen-core/src/sdo/server.rs).
use yacob.Base.{ℕ, ◌≡◌, refl, arith, Bool, true, false, List, Option, some, none, if◌then◌else◌}
use yacob.Base.Bytes.{Bytes8}
use yacob.Nmt.{NmtState}
use yacob.Sdo.Od.{ObjectDictionary, OdEvent}
use yacob.Sdo.Validate.{validate_download, SdoContext}
use yacob.Sdo.Server.State.{
  SdoServer, BlockDownloadState, TransferState, segmented, block_upload, block_download, Reply,
  respond, silent, panicked, Outcome,
}
use yacob.Sdo.Server.Segmented.{commit, download_segment, only, handle_download_segment}
use yacob.Sdo.Server.Block.{finish_block_download, handle_block_download_segment, block_segment}
use yacob.Sdo.Server.Process.{is_block_segment, end_on_abort, dispatch, process_with_context}
use yacob.Sdo.Server.Effects.{IsAbort}

end_on_abort-ends :
    {O : Type 0} (o : Outcome O)
    → IsAbort (end_on_abort o).reply
    → (end_on_abort o).server.transfer ≡ none
unfolding end_on_abort
end_on_abort-ends o h = go o.reply refl h
  where
    go :
        (r : Reply)
        → o.reply ≡ r
        → IsAbort (end_on_abort o).reply
        → (end_on_abort o).server.transfer ≡ none
    go (respond r) e h = ground arith
    go silent e h = ground arith
    go panicked e h = ground arith

module _ {O : Type 0} (dict : ObjectDictionary O) (capacity : ℕ) where
  block_segment-abort :
      (s : SdoServer) (request : Bytes8) (now : ℕ)
      → is_block_segment s request ≡ true
      → IsAbort (handle_block_download_segment s request now).1
      → (handle_block_download_segment s request now).0.transfer ≡ none
  unfolding is_block_segment handle_block_download_segment block_segment
  block_segment-abort s request now b h = go s.transfer s.committed_write b h
    where
      go :
          (o : Option TransferState) (c : Option (ℕ × ℕ))
          → is_block_segment (record { transfer = o; committed_write = c }) request ≡ true
          → IsAbort
              (handle_block_download_segment
                (record { transfer = o; committed_write = c })
                request
                now).1
          → (handle_block_download_segment
              (record { transfer = o; committed_write = c })
              request
              now).0.transfer
            ≡ none
      go none c b h = ground arith
      go (some (segmented t)) c b h = ground arith
      go (some (block_upload t)) c b h = ground arith
      go (some (block_download t)) c b h = ground arith

  -- After an abort that the server sends in answer to a request, no transfer is running.
  pub process_with_context-abort_ends :
      (s : SdoServer) (request : Bytes8) (od : O) (events : List OdEvent) (ctx : SdoContext)
      → IsAbort (process_with_context dict capacity s request od events ctx).reply
      → (process_with_context dict capacity s request od events ctx).server.transfer ≡ none
  unfolding process_with_context
  process_with_context-abort_ends s request od events ctx = go (is_block_segment s request) refl
    where
      go :
          (b : Bool)
          → is_block_segment s request ≡ b
          → IsAbort
              (if b
                then only od events (handle_block_download_segment s request ctx.now_us)
                else end_on_abort (dispatch dict capacity s request od events ctx)).reply
          → (if b
              then only od events (handle_block_download_segment s request ctx.now_us)
              else end_on_abort (dispatch dict capacity s request od events ctx)).server.transfer
            ≡ none
      go true e h = block_segment-abort s request ctx.now_us e h
      go false e h = end_on_abort-ends (dispatch dict capacity s request od events ctx) h

  -- The lock looks at the NMT state when a download begins and not again: what a segment of a
  -- segmented download and the end of a block download do, the write of the value included, is the
  -- same in every NMT state.
  pub download-unlocked :
      (s : SdoServer) (t : BlockDownloadState) (request : Bytes8) (od : O) (events : List OdEvent)
      (ctx : SdoContext) (state : NmtState)
      → (handle_download_segment dict capacity s request od events
            (record ctx { nmt_state = state })
          ≡ handle_download_segment dict capacity s request od events ctx)
        × (finish_block_download dict capacity s t request od events
              (record ctx { nmt_state = state })
            ≡ finish_block_download dict capacity s t request od events ctx)
  unfolding handle_download_segment download_segment finish_block_download commit validate_download
  download-unlocked s t request od events ctx state = (refl, refl)
