-- ===== src/Sdo/Exchange.antt =====
-- A client and a server on one channel: each request of the client (canopen-core/src/sdo/client.rs)
-- is processed by the server (canopen-core/src/sdo/server.rs), and each response by the client,
-- until the client's transfer ends.
pub mod UploadSteps
pub mod Upload
pub mod Initiate
pub mod Delivery
pub mod DownloadSteps
pub mod DownloadInitiate
pub mod Download
pub mod Storing
use yacob.Base.{arith, ◌≡◌, ℕ, zero, suc, List, Option, some, none}
use yacob.Base.Bytes.{Bytes8}
use yacob.Sdo.Od.{ObjectDictionary, OdEvent}
use yacob.Sdo.Validate.{SdoContext}
use yacob.Sdo.Server.State.{SdoServer, Reply, respond, silent, panicked, Outcome}
use yacob.Sdo.Server.Process.{process_with_context}
use yacob.Sdo.Client.{
  upload_complete, download_complete, SdoClient, SdoClientResult, process_response, send_next,
}
use yacob.Can.{CanFrame}

-- How an exchange ends: the client's result and both sides' states.
pub record Ended (O : Type 0) : Type 0 where
  pub client : SdoClient
  pub result : SdoClientResult
  pub outcome : Outcome O

module _ {O : Type 0} (dict : ObjectDictionary O) (capacity cap : ℕ) where
  -- `none` where the rounds run out, or where the server has no answer. The context may change
  -- from round to round; it is given by the rounds that are left.
  unfoldable pub exchange :
      (ctx : ℕ → SdoContext)
      → ℕ
      → SdoClient
      → SdoServer
      → O
      → List OdEvent
      → Bytes8
      → Option (Ended O)
  exchange ctx zero c s od events request = none
  exchange ctx (suc rounds) c s od events request =
      let o = process_with_context dict capacity s request od events (ctx rounds) in
      elim o.reply [
        | silent ↦ none
        | panicked ↦ none
        | respond r ↦ elim (process_response cap c r).1 [
          | send_next f ↦
              exchange ctx rounds (process_response cap c r).0 o.server o.od o.events f.bytes
          | _ ↦ some (record {
            client = (process_response cap c r).0;
            result = (process_response cap c r).1;
            outcome = o;
          })
        ]
      ]

  -- A round that ends the client's upload, and a round after which the client asks for more.
  pub exchange_done :
      (ctx : ℕ → SdoContext) (rounds : ℕ) (c : SdoClient) (s : SdoServer) (od : O)
      (events : List OdEvent) (request : Bytes8) (o : Outcome O) (r : Bytes8) (c' : SdoClient)
      (n : ℕ)
      → process_with_context dict capacity s request od events (ctx rounds) ≡ o
      → o.reply ≡ respond r
      → process_response cap c r ≡ (c', upload_complete n)
      → exchange ctx (suc rounds) c s od events request
        ≡ some (record { client = c'; result = upload_complete n; outcome = o })
  unfolding exchange
  exchange_done ctx rounds c s od events request o r c' n p q e = ground arith

  -- A round that ends the client's download.
  pub exchange_stored :
      (ctx : ℕ → SdoContext) (rounds : ℕ) (c : SdoClient) (s : SdoServer) (od : O)
      (events : List OdEvent) (request : Bytes8) (o : Outcome O) (r : Bytes8) (c' : SdoClient)
      → process_with_context dict capacity s request od events (ctx rounds) ≡ o
      → o.reply ≡ respond r
      → process_response cap c r ≡ (c', download_complete)
      → exchange ctx (suc rounds) c s od events request
        ≡ some (record { client = c'; result = download_complete; outcome = o })
  unfolding exchange
  exchange_stored ctx rounds c s od events request o r c' p q e = ground arith

  pub exchange_on :
      (ctx : ℕ → SdoContext) (rounds : ℕ) (c : SdoClient) (s : SdoServer) (od : O)
      (events : List OdEvent) (request : Bytes8) (o : Outcome O) (r : Bytes8) (c' : SdoClient)
      (f : CanFrame)
      → process_with_context dict capacity s request od events (ctx rounds) ≡ o
      → o.reply ≡ respond r
      → process_response cap c r ≡ (c', send_next f)
      → exchange ctx (suc rounds) c s od events request
        ≡ exchange ctx rounds c' o.server o.od o.events f.bytes
  unfolding exchange
  exchange_on ctx rounds c s od events request o r c' f p q e = ground arith
