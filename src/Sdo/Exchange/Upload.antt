-- ===== src/Sdo/Exchange/Upload.antt =====
-- A segmented or expedited upload delivers the object (canopen-core/src/sdo).
use yacob.Base.{
  ℕ, zero, suc, ◌+◌, ◌*◌, ◌≤◌, ◌≡◌, refl, ap, sym, ◌∙◌, arith, true, false, not, ◌++◌, List, length,
  take, Option, some, none, if◌then◌else◌, write_at, length-write_at, take-write_at, take_add,
  Bool-cases, inl, inr,
}
use yacob.Sdo.Od.{ObjectDictionary, OdEvent}
use yacob.Sdo.Validate.{SdoContext}
use yacob.Sdo.Server.State.{SegmentedTransfer, upload, segmented, respond, Outcome, buf_size}
use yacob.Sdo.Server.Segmented.{segment_len}
use yacob.Sdo.Server.Process.{process_with_context}
use yacob.Sdo.Client.{
  SdoClient, upload_segmented, idle, upload_complete, make_upload_segment_request, client_data,
}
use yacob.Sdo.Exchange.{Ended, exchange, exchange_done, exchange_on}
use mathlib.Core.Path.{subst}
use yacob.Sdo.Exchange.UploadSteps.{
  next_segment, is_last, advanced, segment_response, received, length-next_segment,
  process_upload_segment, process_segment_response,
}

-- What both sides agree on before each segment: the client holds what the server has sent.
pub record InStep (cap : ℕ) (c : SdoClient) (t : SegmentedTransfer) : Type 0 where
  pub node_valid : c.target_node ≤ 127
  pub buf_len : length t.buf ≡ buf_size
  pub client_buf_len : length c.buf ≡ cap
  pub direction : t.direction ≡ upload
  pub same_offset : c.offset ≡ t.offset
  pub stated : c.upload_len ≡ some t.total_len
  pub within : t.offset ≤ t.total_len
  pub fits : t.total_len ≤ buf_size
  pub fits_client : t.total_len ≤ cap
  pub delivered : take t.offset c.buf ≡ take t.offset t.buf

received_data :
    (cap : ℕ) (c : SdoClient) (t : SegmentedTransfer)
    → InStep cap c t
    → take (t.offset + segment_len t.total_len t.offset) (received c t).buf
      ≡ take (t.offset + segment_len t.total_len t.offset) t.buf
received_data cap c t h =
    let len = segment_len t.total_len t.offset in
    let seg = length-next_segment t h.buf_len h.within h.fits in
    let split : take (t.offset + len) (write_at c.buf t.offset (next_segment t))
        ≡ take t.offset c.buf ++ next_segment t =
      take-write_at c.buf t.offset (next_segment t) (t.offset + len) (omega arith) (omega arith) in
    ap (λ (o : ℕ). take (t.offset + len) (write_at c.buf o (next_segment t))) h.same_offset
    ∙ split
    ∙ ap (λ (xs : List ℕ). xs ++ next_segment t) h.delivered
    ∙ sym (take_add t.offset len (t.offset + len) t.buf refl)

advance-InStep :
    (cap : ℕ) (c : SdoClient) (t : SegmentedTransfer) (index subindex now : ℕ)
    → InStep cap c t
    → InStep cap
        (record (received c t) { state = upload_segmented index subindex (not t.toggle) })
        (advanced t now)
advance-InStep cap c t index subindex now h = record {
  node_valid = h.node_valid;
  buf_len = h.buf_len;
  client_buf_len = length-write_at c.buf c.offset (next_segment t) ∙ h.client_buf_len;
  direction = h.direction;
  same_offset = ap (λ (o : ℕ). o + segment_len t.total_len t.offset) h.same_offset;
  stated = h.stated;
  within = omega arith;
  fits = h.fits;
  fits_client = h.fits_client;
  delivered = received_data cap c t h;
}

-- How an upload of the first `len` bytes of `buf` ends.
pub record Delivers {O : Type 0} (len : ℕ) (buf : List ℕ) (od : O) (end : Option (Ended O))
    : Type 0 where
  pub ended : Ended O
  pub returns : end ≡ some ended
  pub complete : ended.result ≡ upload_complete len
  pub holds : client_data ended.client ≡ take len buf
  pub client_idle : ended.client.state ≡ idle
  pub server_idle : ended.outcome.server.transfer ≡ none
  pub od_kept : ended.outcome.od ≡ od

module _ {O : Type 0} (dict : ObjectDictionary O) (capacity cap : ℕ) where
  -- The server's outcome of a round.
  abbrev answered : Option (ℕ × ℕ) → SegmentedTransfer → O → List OdEvent → ℕ → Outcome O
  answered written t od events now = record {
    server = record {
      transfer = if is_last t then none else some (segmented (advanced t now));
      committed_write = written;
    };
    od = od;
    events = events;
    reply = respond (segment_response t);
  }

  upload_last :
      (ctx : ℕ → SdoContext) (rounds : ℕ) (c : SdoClient) (index subindex : ℕ)
      (written : Option (ℕ × ℕ)) (t : SegmentedTransfer) (od : O) (events : List OdEvent)
      → c.state ≡ upload_segmented index subindex t.toggle
      → InStep cap c t
      → is_last t ≡ true
      → Delivers t.total_len t.buf od (
          exchange dict capacity cap ctx
            (suc rounds)
            c
            (record { transfer = some (segmented t); committed_write = written })
            od
            events
            (make_upload_segment_request t.toggle))
  unfolding client_data
  upload_last ctx rounds c index subindex written t od events s h last =
      let len = segment_len t.total_len t.offset in
      let whole : t.offset + len ≡ t.total_len = ground arith in
      let client_whole : c.offset + len ≡ t.total_len = omega (arith, h.same_offset) in
      record {
        ended = record {
          client = record (received c t) { state = idle };
          result = upload_complete (c.offset + len);
          outcome = answered written t od events (ctx rounds).now_us;
        };
        returns =
            exchange_done dict capacity cap ctx rounds c
              (record { transfer = some (segmented t); committed_write = written }) od events
              (make_upload_segment_request t.toggle)
              (answered written t od events (ctx rounds).now_us) (segment_response t)
              (record (received c t) { state = idle }) (c.offset + len)
              (process_upload_segment dict capacity written t od events (ctx rounds) h.direction
                h.buf_len h.within h.fits)
              refl
              (process_segment_response cap c index subindex t h.node_valid s h.same_offset h.stated
                  h.buf_len h.within h.fits h.fits_client
                ∙ rw last);
        complete = ap upload_complete client_whole;
        holds =
            ap (λ (n : ℕ). take n (received c t).buf) (client_whole ∙ sym whole)
            ∙ received_data cap c t h
            ∙ ap (λ (n : ℕ). take n t.buf) whole;
        client_idle = refl;
        server_idle = rw last;
        od_kept = refl;
      }

  pub upload_loop :
      (ctx : ℕ → SdoContext) (rounds : ℕ) (c : SdoClient) (index subindex : ℕ)
      (written : Option (ℕ × ℕ)) (t : SegmentedTransfer) (od : O) (events : List OdEvent)
      → c.state ≡ upload_segmented index subindex t.toggle
      → InStep cap c t
      → 1 ≤ rounds
      → t.total_len ≤ t.offset + rounds * 7
      → Delivers t.total_len t.buf od (
          exchange dict capacity cap ctx rounds c
            (record { transfer = some (segmented t); committed_write = written })
            od
            events
            (make_upload_segment_request t.toggle))
  upload_loop ctx zero c index subindex written t od events s h p q = absurd (omega arith)
  upload_loop ctx (suc rounds) c index subindex written t od events s h p q =
      elim (Bool-cases (is_last t)) [
        | inl last ↦ upload_last ctx rounds c index subindex written t od events s h last
        | inr more ↦ subst (Delivers t.total_len t.buf od) (sym (next more)) (
            upload_loop ctx rounds
              (record (received c t) { state = upload_segmented index subindex (not t.toggle) })
              index subindex written (advanced t (ctx rounds).now_us) od events refl
              (advance-InStep cap c t index subindex (ctx rounds).now_us h) (ground arith)
              (ground arith))
      ]
    where
      after : SegmentedTransfer → Outcome O
      after u = record {
        server = record {
          transfer = some (segmented (advanced u (ctx rounds).now_us));
          committed_write = written;
        };
        od = od;
        events = events;
        reply = respond (segment_response u);
      }

      server :
          is_last t ≡ false
          → process_with_context dict capacity
              (record { transfer = some (segmented t); committed_write = written })
              (make_upload_segment_request t.toggle)
              od
              events
              (ctx rounds)
            ≡ after t
      server more =
          process_upload_segment dict capacity written t od events (ctx rounds) h.direction
            h.buf_len h.within h.fits
          ∙ rw more

      next :
          is_last t ≡ false
          → exchange dict capacity cap ctx
              (suc rounds)
              c
              (record { transfer = some (segmented t); committed_write = written })
              od
              events
              (make_upload_segment_request t.toggle)
            ≡ exchange dict capacity cap ctx rounds
                (record (received c t) { state = upload_segmented index subindex (not t.toggle) })
                (record {
                  transfer = some (segmented (advanced t (ctx rounds).now_us));
                  committed_write = written;
                })
                od
                events
                (make_upload_segment_request (not t.toggle))
      next more =
          exchange_on dict capacity cap ctx rounds c
            (record { transfer = some (segmented t); committed_write = written }) od events
            (make_upload_segment_request t.toggle) (after t) (segment_response t)
            (record (received c t) { state = upload_segmented index subindex (not t.toggle) })
            (record {
              id = 0x600 + c.target_node;
              dlc = 8;
              bytes = make_upload_segment_request (not t.toggle);
            })
            (server more) refl
            (process_segment_response cap c index subindex t h.node_valid s h.same_offset h.stated
                h.buf_len h.within h.fits h.fits_client
              ∙ rw more)
