-- ===== src/Sdo/Server/Effects/Locked.antt =====
-- PDO configuration is safe while the node is Operational (canopen-core/src/sdo/server.rs).
use yacob.Base.{ℕ, ◌≡◌, refl, arith, false, ◌==◌, bit_and, List, [], ◌∷◌, Option, none, some}
use yacob.Base.Bytes.{Bytes8}
use yacob.Nmt.{operational}
use yacob.Sdo.Od.{ObjectDictionary, OdEvent}
use yacob.Sdo.Protocol.{
  command_specifier, ccs_initiate_upload, ccs_upload_segment, ccs_initiate_download,
  ccs_download_segment, ccs_block_upload, ccs_block_download, ccs_abort_transfer,
}
use yacob.Sdo.Validate.{SdoContext}
use yacob.Sdo.Server.State.{
  SdoServer, TransferState, segmented, block_upload, block_download, respond, Outcome, stray,
}
use yacob.Sdo.Server.Segmented.{only}
use yacob.Sdo.Server.Block.{finish_block_download, initiate_block_download, handle_block_download}
use yacob.Sdo.Server.Process.{is_block_segment, end_on_abort, dispatch, process_with_context}
use yacob.Sdo.Server.State.{check_timeout, abort_transfer, take_committed_write}
use yacob.Sdo.Server.Block.{poll_block_upload, poll_segment}
use yacob.Sdo.Server.Session.{
  ServerInput, request, poll, timeout, reset, taken, application, serve, serve_all,
}
use yacob.Sdo.Server.Effects.Lock.{
  is_config, configures, IsKept, Guarded, only-Guarded, if-Guarded, upload-open,
  upload_segment-open, block_upload-open, block_segment-open, handle_initiate_download-Guarded,
  handle_download_segment-Guarded, initiate_block_download-open, finish_block_download-Guarded,
}

module _ {O : Type 0} (dict : ObjectDictionary O) (capacity : ℕ) (P : O → Type 0) where
  handle_block_download-Guarded :
      (s : SdoServer) (frame : Bytes8) (od : O) (events : List OdEvent) (ctx : SdoContext)
      → IsKept dict capacity P
      → ctx.nmt_state ≡ operational
      → configures s.transfer ≡ false
      → P od
      → Guarded dict capacity P (handle_block_download dict capacity s frame od events ctx)
  unfolding handle_block_download configures
  handle_block_download-Guarded s frame od events ctx keeps n h p =
      if-Guarded dict capacity P (bit_and frame.b0 0x01 == 0) _ _
        (λ e.
          only-Guarded dict capacity P od events (initiate_block_download dict s frame ctx)
            (initiate_block_download-open dict capacity P s frame ctx n h) p)
        λ e. go s.transfer s.committed_write h
    where
      go :
          (o : Option TransferState) (c : Option (ℕ × ℕ))
          → configures o ≡ false
          → let s' : SdoServer = record { transfer = o; committed_write = c } in
            Guarded dict capacity P (elim o [
              | some (block_download t) ↦
                  finish_block_download dict capacity s' t frame od events ctx
              | some (segmented t) ↦ only od events (s', respond stray)
              | some (block_upload t) ↦ only od events (s', respond stray)
              | none ↦ only od events (s', respond stray)
            ])
      go none c h = record { shut = h; held = p }
      go (some (segmented t)) c h = record { shut = h; held = p }
      go (some (block_upload t)) c h = record { shut = h; held = p }
      go (some (block_download t)) c h =
          finish_block_download-Guarded dict capacity P
            (record { transfer = some (block_download t); committed_write = c }) t frame od events
            ctx keeps h h p

  dispatch-Guarded :
      (s : SdoServer) (frame : Bytes8) (od : O) (events : List OdEvent) (ctx : SdoContext)
      → IsKept dict capacity P
      → ctx.nmt_state ≡ operational
      → configures s.transfer ≡ false
      → P od
      → Guarded dict capacity P (dispatch dict capacity s frame od events ctx)
  unfolding dispatch configures
  dispatch-Guarded s frame od events ctx keeps n h p =
      let cs = command_specifier frame.b0 in
      if-Guarded dict capacity P (cs == ccs_initiate_upload) _ _
        (λ e.
          only-Guarded dict capacity P od events _
            (upload-open dict capacity P s frame od ctx.now_us h) p)
        λ e.
          if-Guarded dict capacity P (cs == ccs_upload_segment) _ _
            (λ e.
              only-Guarded dict capacity P od events _
                (upload_segment-open dict capacity P s frame ctx.now_us h) p)
            λ e.
              if-Guarded dict capacity P (cs == ccs_initiate_download) _ _
                (λ e.
                  handle_initiate_download-Guarded dict capacity P s frame od events ctx keeps n h
                    p)
                λ e.
                  if-Guarded dict capacity P (cs == ccs_download_segment) _ _
                    (λ e.
                      handle_download_segment-Guarded dict capacity P s frame od events ctx keeps h
                        p)
                    λ e.
                      if-Guarded dict capacity P (cs == ccs_block_upload) _ _
                        (λ e.
                          only-Guarded dict capacity P od events _
                            (block_upload-open dict capacity P s frame od ctx.now_us h) p)
                        λ e.
                          if-Guarded dict capacity P (cs == ccs_block_download) _ _
                            (λ e. handle_block_download-Guarded s frame od events ctx keeps n h p)
                            λ e.
                              if-Guarded dict capacity P (cs == ccs_abort_transfer) _ _
                                (λ e. record { shut = refl; held = p })
                                λ e. record { shut = h; held = p }

  end_on_abort-od : (o : Outcome O) → (end_on_abort o).od ≡ o.od
  unfolding end_on_abort
  end_on_abort-od o = ground arith

  end_on_abort-shut :
      (o : Outcome O)
      → configures o.server.transfer ≡ false
      → configures (end_on_abort o).server.transfer ≡ false
  unfolding end_on_abort configures
  end_on_abort-shut o h = ground (arith, h)

  end_on_abort-Guarded :
      (o : Outcome O) → Guarded dict capacity P o → Guarded dict capacity P (end_on_abort o)
  end_on_abort-Guarded o g = record {
    shut = end_on_abort-shut o g.shut;
    held = rw (end_on_abort-od o) g.held;
  }

  -- One frame while Operational.
  process_with_context-Guarded :
      (s : SdoServer) (frame : Bytes8) (od : O) (events : List OdEvent) (ctx : SdoContext)
      → IsKept dict capacity P
      → ctx.nmt_state ≡ operational
      → configures s.transfer ≡ false
      → P od
      → Guarded dict capacity P (process_with_context dict capacity s frame od events ctx)
  unfolding process_with_context
  process_with_context-Guarded s frame od events ctx keeps n h p =
      if-Guarded dict capacity P (is_block_segment s frame) _ _
        (λ e.
          only-Guarded dict capacity P od events _
            (block_segment-open dict capacity P s frame ctx.now_us h) p)
        λ e. end_on_abort-Guarded _ (dispatch-Guarded s frame od events ctx keeps n h p)

  poll-open :
      (s : SdoServer) (now : ℕ)
      → configures s.transfer ≡ false
      → configures (poll_block_upload s now).0.transfer ≡ false
  unfolding poll_block_upload poll_segment configures is_config
  poll-open s now h = ground (arith, h)

  timeout-open :
      (s : SdoServer) (now : ℕ)
      → configures s.transfer ≡ false
      → configures (check_timeout s now).0.transfer ≡ false
  unfolding check_timeout configures is_config
  timeout-open s now h = ground (arith, h)

  -- An input while Operational: requests come in that state, and what the application does to the
  -- dictionary keeps the property.
  abbrev pub WhileOperational : ServerInput O → Type 0
  WhileOperational (request frame ctx) = ctx.nmt_state ≡ operational
  WhileOperational (poll now) = Unit
  WhileOperational (timeout now) = Unit
  WhileOperational reset = Unit
  WhileOperational taken = Unit
  WhileOperational (application od events) = P od

  serve-Guarded :
      (o : Outcome O) (i : ServerInput O)
      → IsKept dict capacity P
      → WhileOperational i
      → Guarded dict capacity P o
      → Guarded dict capacity P (serve dict capacity o i)
  unfolding serve abort_transfer take_committed_write configures
  serve-Guarded o (request frame ctx) keeps n g =
      process_with_context-Guarded o.server frame o.od o.events ctx keeps n g.shut g.held
  serve-Guarded o (poll now) keeps n g = record {
    shut = poll-open o.server now g.shut;
    held = g.held;
  }
  serve-Guarded o (timeout now) keeps n g = record {
    shut = timeout-open o.server now g.shut;
    held = g.held;
  }
  serve-Guarded o reset keeps n g = record { shut = refl; held = g.held }
  serve-Guarded o taken keeps n g = record { shut = g.shut; held = g.held }
  serve-Guarded o (application od events) keeps n g = record { shut = g.shut; held = n }

  abbrev pub AllOperational : List (ServerInput O) → Type 0
  AllOperational [] = Unit
  AllOperational (i ∷ is) = WhileOperational i × AllOperational is

  serve_all-Guarded :
      (o : Outcome O) (is : List (ServerInput O))
      → IsKept dict capacity P
      → AllOperational is
      → Guarded dict capacity P o
      → Guarded dict capacity P (serve_all dict capacity o is)
  unfolding serve_all
  serve_all-Guarded o [] keeps ns g = g
  serve_all-Guarded o (i ∷ is) keeps ns g =
      serve_all-Guarded (serve dict capacity o i) is keeps ns.1 (serve-Guarded o i keeps ns.0 g)

-- While the node is Operational, no session writes PDO configuration: from a server without a
-- transfer, whatever sequence of requests, polls, timeouts and resets follows, every property of
-- the dictionary survives that no write to an object outside of 0x1400..=0x1BFF destroys and that
-- the application respects. It is so for expedited, segmented and block downloads, interleaved in
-- any way, and for writes that the dictionary itself refuses.
pub serve_all-keeps_config :
    {O : Type 0} (dict : ObjectDictionary O) (capacity : ℕ) (P : O → Type 0) (o : Outcome O)
    (is : List (ServerInput O))
    → IsKept dict capacity P
    → AllOperational dict capacity P is
    → o.server.transfer ≡ none
    → P o.od
    → P (serve_all dict capacity o is).od
unfolding configures
serve_all-keeps_config dict capacity P o is keeps ns idle p =
    (serve_all-Guarded dict capacity P o is keeps ns
      (record { shut = rw idle refl; held = p })).held
