-- ===== src/Sdo/Exchange/Storing.antt =====
-- A download, from `start_download` to its end, stores the value (canopen-core/src/sdo).
use mathlib.Core.Path.{subst}
use yacob.Base.{
  ◌^◌, ℕ, suc, ◌+◌, ◌*◌, ◌≤◌, ◌<◌, ◌≡◌, refl, sym, ◌∙◌, arith, false, leb, ltb, List, length, take,
  Option, some, none, write_at, length-write_at, take-write_at, Bool-cases, inl, inr, ◌&&◌,
}
use yacob.Base.Results.{ok}
use yacob.Can.{CanFrame}
use yacob.Nmt.{same_state, operational}
use yacob.Sdo.Od.{ObjectDictionary, OdEvent, sdo}
use yacob.Sdo.Validate.{SdoContext, validate_download, is_pdo_config_index}
use yacob.Sdo.Protocol.{encode_download_response}
use yacob.Sdo.Server.State.{segmented, respond, buf_size, length-empty_buf}
use yacob.Sdo.Server.Segmented.{segment_len}
use yacob.Sdo.Client.{SdoClient, download_segmented, idle, download_complete, start_download}
use yacob.Sdo.Exchange.{exchange, exchange_stored, exchange_on}
use yacob.Sdo.Exchange.DownloadSteps.{segment_request, done}
use yacob.Sdo.Exchange.Download.{Stores, store_loop}
use yacob.Sdo.Exchange.DownloadInitiate.{
  small_request, large_request, locked, waiting_small, waiting_large, frame, begun, process_small,
  process_large, answered_small, answered_large, start_small, start_large,
}

module _ {O : Type 0} (dict : ObjectDictionary O) (capacity cap : ℕ) where
  open dict use {write}

  store_small :
      (ctx : ℕ → SdoContext) (rounds : ℕ) (c : SdoClient) (written : Option (ℕ × ℕ))
      (index subindex : ℕ) (od od' : O) (events : List OdEvent) (value : List ℕ)
      → index < 2 ^ 16
      → 1 ≤ length value
      → length value ≤ 4
      → locked (ctx rounds) index ≡ false
      → validate_download dict od (ctx rounds) index subindex value ≡ ok tt
      → write od index subindex value ≡ (ok tt, od')
      → Stores index subindex capacity events od' (
          exchange dict capacity cap ctx
            (suc rounds)
            (waiting_small c index subindex value)
            (record { transfer = none; committed_write = written })
            od
            events
            (small_request index subindex value))
  store_small ctx rounds c written index subindex od od' events value i p q u v w =
      let c' = waiting_small c index subindex value in
      let o =
        done dict capacity (record { index = index; subindex = subindex; source = sdo })
          (some (index, subindex)) od' events (encode_download_response index subindex) in
      record {
        ended = record {
          client = record c' { state = idle };
          result = download_complete;
          outcome = o;
        };
        returns =
            exchange_stored dict capacity cap ctx rounds c'
              (record { transfer = none; committed_write = written }) od events
              (small_request index subindex value) o (encode_download_response index subindex)
              (record c' { state = idle })
              (process_small dict capacity written index subindex value od od' events (ctx rounds) i
                p q u v w)
              refl (answered_small cap c' index subindex i refl p q);
        complete = refl;
        client_idle = refl;
        server_idle = refl;
        written = refl;
        committed = refl;
        queued = refl;
      }

  store_large :
      (ctx : ℕ → SdoContext) (rounds : ℕ) (c : SdoClient) (written : Option (ℕ × ℕ))
      (index subindex : ℕ) (od od' : O) (events : List OdEvent) (value : List ℕ)
      → c.target_node ≤ 127
      → index < 2 ^ 16
      → length c.buf ≡ cap
      → length value ≤ cap
      → length value ≤ buf_size
      → (ltb 0 (length value) && leb (length value) 4) ≡ false
      → locked (ctx rounds) index ≡ false
      → ((r : ℕ) → validate_download dict od (ctx r) index subindex value ≡ ok tt)
      → write od index subindex value ≡ (ok tt, od')
      → 1 ≤ rounds
      → length value ≤ rounds * 7
      → Stores index subindex capacity events od' (
          exchange dict capacity cap ctx
            (suc rounds)
            (waiting_large c index subindex value)
            (record { transfer = none; committed_write = written })
            od
            events
            (large_request index subindex (length value)))
  store_large ctx rounds c written index subindex od od' events value n i b l f z u v w r e =
      let c' = waiting_large c index subindex value in
      let t = begun dict capacity index subindex (length value) (ctx rounds).now_us in
      let c2 : SdoClient = record c' {
        state = download_segmented index subindex false;
        offset = 0 + segment_len (length value) 0;
      } in
      let kept : take (length value) (write_at c.buf 0 value) ≡ value =
        take-write_at c.buf 0 value (length value) (omega arith) (omega arith) in
      let first =
        exchange_on dict capacity cap ctx rounds c'
          (record { transfer = none; committed_write = written }) od events
          (large_request index subindex (length value))
          (record {
            server = record { transfer = some (segmented t); committed_write = written };
            od = od;
            events = events;
            reply = respond (encode_download_response index subindex);
          })
          (encode_download_response index subindex) c2
          (frame c (segment_request (write_at c.buf 0 value) (length value) 0 false))
          (process_large dict capacity written index subindex (length value) od events (ctx rounds)
            i f u)
          refl (answered_large cap c' index subindex i refl refl z n l) in
      subst (Stores index subindex capacity events od') (sym first) (
        store_loop dict capacity cap ctx written od od' events value rounds c2 t refl
          (record {
            node_valid = n;
            buf_len = length-empty_buf;
            client_buf_len = length-write_at c.buf 0 value ∙ b;
            direction = refl;
            stated = refl;
            same_total = refl;
            sent = refl;
            within = omega arith;
            fits = f;
            fits_client = l;
            stored_so_far = refl;
          })
          kept v w r (omega arith))

  -- A download of a value to an object whose PDO lock is open at its start and whose every check
  -- accepts it, where the dictionary's write succeeds with `od'`, started by a client with a valid
  -- node id and a buffer that holds the value, at a server without a running transfer: with
  -- `rounds` of seven bytes and one more it ends with `DownloadComplete`, both sides are idle
  -- again, the dictionary is `od'`, one event is queued and the object is the committed write. The
  -- value may have any length up to the server's buffer, 0 included, and the clock and the other
  -- context may change between the rounds.
  pub download-Stores :
      (ctx : ℕ → SdoContext) (rounds : ℕ) (c : SdoClient) (written : Option (ℕ × ℕ))
      (index subindex : ℕ) (od od' : O) (events : List OdEvent) (value : List ℕ)
      → c.target_node ≤ 127
      → index < 2 ^ 16
      → length c.buf ≡ cap
      → length value ≤ cap
      → length value ≤ buf_size
      → (same_state (ctx rounds).nmt_state operational && is_pdo_config_index index) ≡ false
      → ((r : ℕ) → validate_download dict od (ctx r) index subindex value ≡ ok tt)
      → write od index subindex value ≡ (ok tt, od')
      → 1 ≤ rounds
      → length value ≤ rounds * 7
      → (f : CanFrame) × ((start_download cap c index subindex value).1 ≡ ok (some f))
        × Stores index subindex capacity events od' (
            exchange dict capacity cap ctx
              (suc rounds)
              (start_download cap c index subindex value).0
              (record { transfer = none; committed_write = written })
              od
              events
              f.bytes)
  download-Stores ctx rounds c written index subindex od od' events value n i b l f u v w r e =
      elim (Bool-cases (ltb 0 (length value) && leb (length value) 4)) [
        | inl z ↦ rw (start_small cap c index subindex value n (ground arith) (ground arith)) (
          frame c (small_request index subindex value),
          refl,
          store_small ctx rounds c written index subindex od od' events value i (ground arith)
              (ground arith) u (v rounds) w,
        )
        | inr z ↦ rw (start_large cap c index subindex value n z l) (
          frame c (large_request index subindex (length value)),
          refl,
          store_large ctx rounds c written index subindex od od' events value n i b l f z u v w r e,
        )
      ]
