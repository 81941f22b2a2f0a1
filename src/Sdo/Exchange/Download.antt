-- ===== src/Sdo/Exchange/Download.antt =====
-- The segments of a download store the value (canopen-core/src/sdo).
use mathlib.Core.Path.{subst}
use yacob.Base.{
  ℕ, zero, suc, ◌+◌, ◌*◌, ◌≤◌, ◌≡◌, refl, ap, sym, ◌∙◌, arith, true, false, not, ◌++◌, leb, List,
  length, take, Option, some, none, write_at, length-write_at, take-write_at, take_add, Bool-cases,
  inl, inr,
}
use yacob.Base.Results.{ok}
use yacob.Sdo.Od.{ObjectDictionary, OdEvent, sdo}
use yacob.Sdo.Validate.{SdoContext, validate_download}
use yacob.Sdo.Protocol.{encode_download_segment_response}
use yacob.Sdo.Server.State.{
  SegmentedTransfer, SdoServer, download, segmented, respond, buf_size, push_event,
}
use yacob.Sdo.Server.Segmented.{segment_len}
use yacob.Sdo.Client.{SdoClient, download_segmented, idle, download_complete}
use yacob.Sdo.Exchange.{Ended, exchange, exchange_on, exchange_stored}
use yacob.Sdo.Exchange.DownloadSteps.{
  piece, ends, segment_request, length-piece, stored, done, process_middle_segment,
  process_last_segment, process_accepted,
}

-- What both sides agree on while a segment is on its way: the server holds what came before it,
-- and the client has counted it as sent.
pub record InFlight (cap : ℕ) (c : SdoClient) (t : SegmentedTransfer) : Type 0 where
  pub node_valid : c.target_node ≤ 127
  pub buf_len : length t.buf ≡ buf_size
  pub client_buf_len : length c.buf ≡ cap
  pub direction : t.direction ≡ download
  pub stated : t.size_indicated ≡ true
  pub same_total : c.total_len ≡ t.total_len
  pub sent : c.offset ≡ t.offset + segment_len t.total_len t.offset
  pub within : t.offset ≤ t.total_len
  pub fits : t.total_len ≤ buf_size
  pub fits_client : t.total_len ≤ cap
  pub stored_so_far : take t.offset t.buf ≡ take t.offset c.buf

-- The server holds one segment more.
stored_prefix :
    (cap : ℕ) (c : SdoClient) (t : SegmentedTransfer)
    → InFlight cap c t
    → take
        (t.offset + segment_len t.total_len t.offset)
        (write_at t.buf t.offset (piece c.buf t.total_len t.offset))
      ≡ take (t.offset + segment_len t.total_len t.offset) c.buf
stored_prefix cap c t h =
    let len = segment_len t.total_len t.offset in
    let bytes = piece c.buf t.total_len t.offset in
    let size =
      length-piece c.buf t.total_len t.offset h.within
        (omega (arith, h.client_buf_len, h.fits_client)) in
    let split : take (t.offset + len) (write_at t.buf t.offset bytes)
        ≡ take t.offset t.buf ++ bytes =
      take-write_at t.buf t.offset bytes (t.offset + len) (omega (arith, size))
        (omega (arith, h.buf_len, h.fits, h.within)) in
    split
    ∙ ap (λ (xs : List ℕ). xs ++ bytes) h.stored_so_far
    ∙ sym (take_add t.offset len (t.offset + len) c.buf refl)

-- How a download of `value` to an object ends, where the dictionary becomes `od'`.
pub record Stores {O : Type 0} (index subindex capacity : ℕ) (events : List OdEvent) (od' : O)
    (end : Option (Ended O)) : Type 0 where
  pub ended : Ended O
  pub returns : end ≡ some ended
  pub complete : ended.result ≡ download_complete
  pub client_idle : ended.client.state ≡ idle
  pub server_idle : ended.outcome.server.transfer ≡ none
  pub written : ended.outcome.od ≡ od'
  pub committed : ended.outcome.server.committed_write ≡ some (index, subindex)
  pub queued :
      ended.outcome.events
      ≡ push_event capacity events (record { index = index; subindex = subindex; source = sdo })

module _ {O : Type 0} (dict : ObjectDictionary O) (capacity cap : ℕ) where
  open dict use {write}

  -- The client after the next segment is sent.
  abbrev next : SdoClient → SegmentedTransfer → ℕ → ℕ → SdoClient
  next c t index subindex = record c {
    state = download_segmented index subindex (not t.toggle);
    offset = c.offset + segment_len c.total_len c.offset;
  }

  advance-InFlight :
      (c : SdoClient) (t : SegmentedTransfer) (index subindex now : ℕ)
      → InFlight cap c t
      → ends t.total_len t.offset ≡ false
      → InFlight cap (next c t index subindex) (stored t (piece c.buf t.total_len t.offset) now)
  advance-InFlight c t index subindex now h more =
      let size =
        length-piece c.buf t.total_len t.offset h.within
          (omega (arith, h.client_buf_len, h.fits_client)) in
      record {
        node_valid = h.node_valid;
        buf_len = length-write_at t.buf t.offset (piece c.buf t.total_len t.offset) ∙ h.buf_len;
        client_buf_len = h.client_buf_len;
        direction = h.direction;
        stated = h.stated;
        same_total = h.same_total;
        sent = ground (arith, size, h.same_total, h.sent);
        within = ground (arith, size, h.within);
        fits = h.fits;
        fits_client = h.fits_client;
        stored_so_far =
            ap
              (λ (k : ℕ).
                take (t.offset + k) (write_at t.buf t.offset (piece c.buf t.total_len t.offset)))
              size
            ∙ stored_prefix cap c t h
            ∙ ap (λ (k : ℕ). take (t.offset + k) c.buf) (sym size);
      }

  module _ (ctx : ℕ → SdoContext) (written : Option (ℕ × ℕ)) (od od' : O) (events : List OdEvent)
      (value : List ℕ) where
    -- The exchange while a segment of the transfer is on its way.
    abbrev in_flight : ℕ → SdoClient → SegmentedTransfer → Option (Ended O)
    in_flight rounds c t =
        exchange dict capacity cap ctx rounds c
          (record { transfer = some (segmented t); committed_write = written }) od events
          (segment_request c.buf t.total_len t.offset t.toggle)

    store_last :
        (rounds : ℕ) (c : SdoClient) (t : SegmentedTransfer)
        → c.state ≡ download_segmented t.index t.subindex t.toggle
        → InFlight cap c t
        → take t.total_len c.buf ≡ value
        → validate_download dict od (ctx rounds) t.index t.subindex value ≡ ok tt
        → write od t.index t.subindex value ≡ (ok tt, od')
        → ends t.total_len t.offset ≡ true
        → Stores t.index t.subindex capacity events od' (in_flight (suc rounds) c t)
    store_last rounds c t s h v ok_ w last =
        let len = segment_len t.total_len t.offset in
        let whole : t.offset + len ≡ t.total_len = ground (arith, h.within) in
        let bytes : take (t.offset + len)
              (write_at t.buf t.offset (piece c.buf t.total_len t.offset))
            ≡ value =
          stored_prefix cap c t h ∙ ap (λ (n : ℕ). take n c.buf) whole ∙ v in
        let o =
          done dict capacity (record { index = t.index; subindex = t.subindex; source = sdo })
            (some (t.index, t.subindex)) od' events (encode_download_segment_response t.toggle) in
        let all_sent : leb c.total_len c.offset ≡ true =
          ground (arith, h.sent, h.same_total, h.within) in
        record {
          ended = record {
            client = record c { state = idle };
            result = download_complete;
            outcome = o;
          };
          returns =
              exchange_stored dict capacity cap ctx rounds c
                (record { transfer = some (segmented t); committed_write = written }) od events
                (segment_request c.buf t.total_len t.offset t.toggle) o
                (encode_download_segment_response t.toggle) (record c { state = idle })
                (process_last_segment dict capacity written t c.buf value od od' events (ctx rounds)
                  h.direction h.stated h.within h.fits
                  (omega (arith, h.client_buf_len, h.fits_client)) last bytes ok_ w)
                refl
                (process_accepted cap c t.index t.subindex t.toggle h.node_valid s
                    (omega (arith, h.sent, h.same_total, h.within))
                    (omega (arith, h.same_total, h.fits_client))
                  ∙ rw all_sent);
          complete = refl;
          client_idle = refl;
          server_idle = refl;
          written = refl;
          committed = refl;
          queued = refl;
        }

    store_next :
        (rounds : ℕ) (c : SdoClient) (t : SegmentedTransfer)
        → c.state ≡ download_segmented t.index t.subindex t.toggle
        → InFlight cap c t
        → ends t.total_len t.offset ≡ false
        → in_flight (suc rounds) c t
          ≡ in_flight rounds
              (next c t t.index t.subindex)
              (stored t (piece c.buf t.total_len t.offset) (ctx rounds).now_us)
    store_next rounds c t s h more =
        let t' = stored t (piece c.buf t.total_len t.offset) (ctx rounds).now_us in
        let c' = next c t t.index t.subindex in
        let s' : SdoServer = record { transfer = some (segmented t'); committed_write = written } in
        let size =
          length-piece c.buf t.total_len t.offset h.within
            (omega (arith, h.client_buf_len, h.fits_client)) in
        let unsent : leb c.total_len c.offset ≡ false =
          ground (arith, h.sent, h.same_total, h.within) in
        let here : c.offset ≡ t'.offset = omega (arith, size, h.sent) in
        exchange_on dict capacity cap ctx rounds c
          (record { transfer = some (segmented t); committed_write = written }) od events
          (segment_request c.buf t.total_len t.offset t.toggle)
          (record {
            server = s';
            od = od;
            events = events;
            reply = respond (encode_download_segment_response t.toggle);
          })
          (encode_download_segment_response t.toggle) c'
          (record {
            id = 0x600 + c.target_node;
            dlc = 8;
            bytes = segment_request c.buf c.total_len c.offset (not t.toggle);
          })
          (process_middle_segment dict capacity written t c.buf od events (ctx rounds) h.direction
            h.stated h.within h.fits (omega (arith, h.client_buf_len, h.fits_client)) more)
          refl
          (process_accepted cap c t.index t.subindex t.toggle h.node_valid s
              (omega (arith, h.sent, h.same_total, h.within))
              (omega (arith, h.same_total, h.fits_client))
            ∙ rw unsent)
        ∙ ap
            (λ (n : ℕ).
              exchange dict capacity cap ctx rounds c' s' od events
                (segment_request c.buf n c.offset (not t.toggle)))
            h.same_total
        ∙ ap
            (λ (k : ℕ).
              exchange dict capacity cap ctx rounds c' s' od events
                (segment_request c.buf t.total_len k (not t.toggle)))
            here

    pub store_loop :
        (rounds : ℕ) (c : SdoClient) (t : SegmentedTransfer)
        → c.state ≡ download_segmented t.index t.subindex t.toggle
        → InFlight cap c t
        → take t.total_len c.buf ≡ value
        → ((r : ℕ) → validate_download dict od (ctx r) t.index t.subindex value ≡ ok tt)
        → write od t.index t.subindex value ≡ (ok tt, od')
        → 1 ≤ rounds
        → t.total_len ≤ t.offset + rounds * 7
        → Stores t.index t.subindex capacity events od' (in_flight rounds c t)
    store_loop zero c t s h v accepted w p q = absurd (omega arith)
    store_loop (suc rounds) c t s h v accepted w p q =
        elim (Bool-cases (ends t.total_len t.offset)) [
          | inl last ↦ store_last rounds c t s h v (accepted rounds) w last
          | inr more ↦
              let size =
                length-piece c.buf t.total_len t.offset h.within
                  (omega (arith, h.client_buf_len, h.fits_client)) in
              let left : 1 ≤ rounds = ground arith in
              let enough : t.total_len
                  ≤ t.offset + length (piece c.buf t.total_len t.offset) + rounds * 7 =
                ground (arith, size) in
              subst (Stores t.index t.subindex capacity events od')
                (sym (store_next rounds c t s h more))
                (store_loop rounds (next c t t.index t.subindex)
                  (stored t (piece c.buf t.total_len t.offset) (ctx rounds).now_us) refl
                  (advance-InFlight c t t.index t.subindex (ctx rounds).now_us h more) v accepted w
                  left enough)
        ]
