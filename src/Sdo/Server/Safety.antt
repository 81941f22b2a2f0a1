-- ===== src/Sdo/Server/Safety.antt =====
-- Every request, poll and timeout keeps the server well formed and does not panic
-- (canopen-core/src/sdo/server.rs).
use yacob.Base.{ℕ, arith, List, Option, some, none}
use yacob.Base.Bytes.{Bytes8}
use yacob.Sdo.Od.{ObjectDictionary, OdEvent, ReadFits}
use yacob.Sdo.Validate.{SdoContext}
use yacob.Sdo.Server.State.{
  SdoServer, TransferState, segmented, block_upload, block_download, Outcome, new_server,
  check_timeout,
}
use yacob.Sdo.Server.Process.{end_on_abort, dispatch, process_with_context}
use yacob.Sdo.Server.Invariant.{IsWf, IsSafe, IsSafeOutcome, IsWfTransfer}
use yacob.Sdo.Server.Invariant.Segmented.{
  handle_initiate_upload-IsSafe, handle_upload_segment-IsSafe, handle_initiate_download-IsSafe,
  handle_download_segment-IsSafe,
}
use yacob.Sdo.Server.Invariant.Block.{
  handle_block_upload-IsSafe, handle_block_download-IsSafe, handle_block_download_segment-IsSafe,
}

pub new_server-IsWf : IsWf new_server
unfolding new_server
new_server-IsWf = record { transfer_wf = tt }

pub check_timeout-IsSafe : (s : SdoServer) (now : ℕ) → IsWf s → IsSafe (check_timeout s now)
unfolding check_timeout
check_timeout-IsSafe s now w = go s.transfer s.committed_write w.transfer_wf
  where
    go :
        (o : Option TransferState) (c : Option (ℕ × ℕ))
        → IsWfTransfer o
        → IsSafe (check_timeout (record { transfer = o; committed_write = c }) now)
    go none c h = ground arith
    go (some (segmented t)) c h = ground arith
    go (some (block_upload t)) c h = ground arith
    go (some (block_download t)) c h = ground arith

module _ {O : Type 0} (dict : ObjectDictionary O) (capacity : ℕ) where
  end_on_abort-IsSafe : (o : Outcome O) → IsSafeOutcome o → IsSafeOutcome (end_on_abort o)
  unfolding end_on_abort
  end_on_abort-IsSafe o h = ground arith

  dispatch-IsSafe :
      (s : SdoServer) (request : Bytes8) (od : O) (events : List OdEvent) (ctx : SdoContext)
      → ReadFits dict
      → IsWf s
      → IsSafeOutcome (dispatch dict capacity s request od events ctx)
  unfolding dispatch
  dispatch-IsSafe s request od events ctx fits w = ground (
    arith,
    handle_initiate_upload-IsSafe dict s request od ctx.now_us fits w,
    handle_upload_segment-IsSafe s request ctx.now_us w,
    handle_initiate_download-IsSafe dict capacity s request od events ctx w,
    handle_download_segment-IsSafe dict capacity s request od events ctx w,
    handle_block_upload-IsSafe dict s request od ctx.now_us fits w,
    handle_block_download-IsSafe dict capacity s request od events ctx w,
  )

  -- Whatever a client sends, in whatever state of a transfer: a request keeps a well-formed server
  -- well formed and does not panic, over every dictionary whose reads stay within their buffer.
  pub process_with_context-IsSafe :
      (s : SdoServer) (request : Bytes8) (od : O) (events : List OdEvent) (ctx : SdoContext)
      → ReadFits dict
      → IsWf s
      → IsSafeOutcome (process_with_context dict capacity s request od events ctx)
  unfolding process_with_context
  process_with_context-IsSafe s request od events ctx fits w = ground (
    arith,
    handle_block_download_segment-IsSafe s request ctx.now_us w,
    end_on_abort-IsSafe (dispatch dict capacity s request od events ctx)
        (dispatch-IsSafe s request od events ctx fits w),
  )
