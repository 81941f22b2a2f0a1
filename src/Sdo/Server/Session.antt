-- ===== src/Sdo/Server/Session.antt =====
-- Whole sessions of the server: any sequence of requests, polls, timeouts and resets, with the
-- application changing the dictionary in between (canopen-core/src/sdo/server.rs).
use yacob.Base.{ℕ, arith, List, [], ◌∷◌}
use yacob.Base.Bytes.{Bytes8}
use yacob.Sdo.Od.{ObjectDictionary, OdEvent, ReadFits}
use yacob.Sdo.Validate.{SdoContext}
use yacob.Sdo.Server.State.{
  SdoServer, Reply, silent, Outcome, new_server, check_timeout, abort_transfer,
  take_committed_write,
}
use yacob.Sdo.Server.Block.{poll_block_upload}
use yacob.Sdo.Server.Segmented.{only}
use yacob.Sdo.Server.Process.{process_with_context}
use yacob.Sdo.Server.Invariant.{IsSafeOutcome}
use yacob.Sdo.Server.Invariant.Block.{poll_block_upload-IsSafe}
use yacob.Sdo.Server.Safety.{new_server-IsWf, check_timeout-IsSafe, process_with_context-IsSafe}

-- What the node calls on its server, and what the application does to the shared dictionary and
-- its queue of events.
pub data ServerInput (O : Type 0) : Type 0 where
  request : Bytes8 → SdoContext → ServerInput O
  poll : ℕ → ServerInput O
  timeout : ℕ → ServerInput O
  reset : ServerInput O
  taken : ServerInput O
  application : O → List OdEvent → ServerInput O

abbrev served : {O : Type 0} → Outcome O → SdoServer × Reply → Outcome O
served o r = only o.od o.events r

module _ {O : Type 0} (dict : ObjectDictionary O) (capacity : ℕ) where
  -- One input, after the outcome of the last.
  unfoldable pub serve : Outcome O → ServerInput O → Outcome O
  serve o (request r ctx) = process_with_context dict capacity o.server r o.od o.events ctx
  serve o (poll now) = served o (poll_block_upload o.server now)
  serve o (timeout now) = served o (check_timeout o.server now)
  serve o reset = served o (abort_transfer o.server, silent)
  serve o taken = served o ((take_committed_write o.server).1, silent)
  serve o (application od events) = record o { od = od; events = events; reply = silent }

  -- All inputs, in their order, and the outcome of the last of them.
  unfoldable pub serve_all : Outcome O → List (ServerInput O) → Outcome O
  serve_all o [] = o
  serve_all o (i ∷ is) = serve_all (serve o i) is

  serve-IsSafe :
      (o : Outcome O) (i : ServerInput O)
      → ReadFits dict
      → IsSafeOutcome o
      → IsSafeOutcome (serve o i)
  unfolding serve abort_transfer take_committed_write
  serve-IsSafe o (request r ctx) fits (w, p) =
      process_with_context-IsSafe dict capacity o.server r o.od o.events ctx fits w
  serve-IsSafe o (poll now) fits (w, p) = poll_block_upload-IsSafe o.server now w
  serve-IsSafe o (timeout now) fits (w, p) = check_timeout-IsSafe o.server now w
  serve-IsSafe o reset fits (w, p) = (record { transfer_wf = tt }, λ e. ground arith)
  serve-IsSafe o taken fits (w, p) = (record { transfer_wf = w.transfer_wf }, λ e. ground arith)
  serve-IsSafe o (application od events) fits (w, p) = (w, λ e. ground arith)

  serve_all-stays_safe :
      (o : Outcome O) (is : List (ServerInput O))
      → ReadFits dict
      → IsSafeOutcome o
      → IsSafeOutcome (serve_all o is)
  unfolding serve_all
  serve_all-stays_safe o [] fits h = h
  serve_all-stays_safe o (i ∷ is) fits h =
      serve_all-stays_safe (serve o i) is fits (serve-IsSafe o i fits h)

  -- No sequence of requests, polls, timeouts and resets makes a new server panic or leaves its
  -- transfer outside its buffers, whatever the frames hold and whatever the application does to
  -- the dictionary meanwhile, if the dictionary's reads stay within their buffer. It holds after
  -- every prefix of a session, since a prefix is a session.
  pub serve_all-IsSafe :
      (od : O) (events : List OdEvent) (is : List (ServerInput O))
      → ReadFits dict
      → IsSafeOutcome
          (serve_all (record { server = new_server; od = od; events = events; reply = silent }) is)
  serve_all-IsSafe od events is fits =
      serve_all-stays_safe
        (record { server = new_server; od = od; events = events; reply = silent }) is fits
        (new_server-IsWf, λ e. ground arith)
