-- ===== src/Sdo/Exchange/Delivery.antt =====
-- An upload, from `start_upload` to its end, delivers the object (canopen-core/src/sdo).
use mathlib.Core.Path.{subst}
use yacob.Base.{
  ◌^◌, ℕ, suc, ◌+◌, ◌*◌, ◌≤◌, ◌<◌, ◌≡◌, refl, sym, arith, true, false, leb, ltb, List, length, take,
  Option, some, none, write_at, take-write_at, Bool-cases, inl, inr, length-take, ◌&&◌,
}
use yacob.Base.Results.{ok}
use yacob.Can.{CanFrame}
use yacob.Sdo.Od.{ObjectDictionary, OdEvent}
use yacob.Sdo.Validate.{SdoContext}
use yacob.Sdo.Protocol.{encode_upload_response_segmented}
use yacob.Sdo.Server.State.{segmented, respond, buf_size, empty_buf}
use yacob.Sdo.Client.{
  SdoClient, upload_segmented, idle, upload_complete, make_upload_segment_request, client_data,
  start_upload,
}
use yacob.Sdo.Exchange.Initiate.{
  upload_request, waiting, begun, upload_small, upload_large, client_small, client_large,
  response_expedited,
}
use yacob.Sdo.Exchange.Upload.{Delivers, upload_loop}
use yacob.Sdo.Exchange.{exchange, exchange_done, exchange_on}
use yacob.Sdo.Exchange.UploadSteps.{request_frame_lem}

-- `start_upload` leaves the client waiting, and its frame is the request.
start_upload_lem :
    (c : SdoClient) (index subindex : ℕ)
    → c.target_node ≤ 127
    → start_upload c index subindex ≡ (
      waiting c index subindex,
      some (record { id = 0x600 + c.target_node; dlc = 8; bytes = upload_request index subindex }),
    )
unfolding start_upload
start_upload_lem c index subindex n =
    rw (request_frame_lem (waiting c index subindex) (upload_request index subindex) n)

module _ {O : Type 0} (dict : ObjectDictionary O) (capacity cap : ℕ) where
  open dict use {read}

  deliver_small :
      (ctx : ℕ → SdoContext) (rounds : ℕ) (c : SdoClient) (written : Option (ℕ × ℕ))
      (index subindex : ℕ) (od : O) (events : List OdEvent) (len : ℕ) (buf : List ℕ)
      → index < 2 ^ 16
      → read od index subindex empty_buf ≡ (ok len, buf)
      → length buf ≡ buf_size
      → length c.buf ≡ cap
      → len ≤ cap
      → 1 ≤ len
      → len ≤ 4
      → Delivers len buf od (
          exchange dict capacity cap ctx
            (suc rounds)
            (waiting c index subindex)
            (record { transfer = none; committed_write = written })
            od
            events
            (upload_request index subindex))
  unfolding client_data
  deliver_small ctx rounds c written index subindex od events len buf i e b d l p q =
      let size : length (take len buf) ≡ len = omega (arith, length-take len buf) in
      let done =
        exchange_done dict capacity cap ctx rounds (waiting c index subindex)
          (record { transfer = none; committed_write = written }) od events
          (upload_request index subindex)
          (record {
            server = record { transfer = none; committed_write = written };
            od = od;
            events = events;
            reply = respond (response_expedited index subindex buf len);
          })
          (response_expedited index subindex buf len)
          (record (waiting c index subindex) {
            buf = write_at c.buf 0 (take len buf);
            offset = len;
            upload_size_indicated = true;
            state = idle;
          })
          len
          (upload_small dict capacity written index subindex od events (ctx rounds) len buf i e b p
            q)
          refl (client_small cap c index subindex len buf i b p q l) in
      record {
        ended = record {
          client = record (waiting c index subindex) {
            buf = write_at c.buf 0 (take len buf);
            offset = len;
            upload_size_indicated = true;
            state = idle;
          };
          result = upload_complete len;
          outcome = record {
            server = record { transfer = none; committed_write = written };
            od = od;
            events = events;
            reply = respond (response_expedited index subindex buf len);
          };
        };
        returns = done;
        complete = refl;
        holds = take-write_at c.buf 0 (take len buf) len (omega arith) (omega arith);
        client_idle = refl;
        server_idle = refl;
        od_kept = refl;
      }

  deliver_large :
      (ctx : ℕ → SdoContext) (rounds : ℕ) (c : SdoClient) (written : Option (ℕ × ℕ))
      (index subindex : ℕ) (od : O) (events : List OdEvent) (len : ℕ) (buf : List ℕ)
      → c.target_node ≤ 127
      → index < 2 ^ 16
      → read od index subindex empty_buf ≡ (ok len, buf)
      → length buf ≡ buf_size
      → length c.buf ≡ cap
      → len ≤ buf_size
      → len ≤ cap
      → 1 ≤ rounds
      → len ≤ rounds * 7
      → (ltb 0 len && leb len 4) ≡ false
      → Delivers len buf od (
          exchange dict capacity cap ctx
            (suc rounds)
            (waiting c index subindex)
            (record { transfer = none; committed_write = written })
            od
            events
            (upload_request index subindex))
  deliver_large ctx rounds c written index subindex od events len buf n i e b d f l r s z =
      let t = begun dict capacity index subindex buf len (ctx rounds).now_us in
      let c' : SdoClient = record (waiting c index subindex) {
        upload_len = some len;
        upload_size_indicated = true;
        state = upload_segmented index subindex false;
      } in
      let first =
        exchange_on dict capacity cap ctx rounds (waiting c index subindex)
          (record { transfer = none; committed_write = written }) od events
          (upload_request index subindex)
          (record {
            server = record { transfer = some (segmented t); committed_write = written };
            od = od;
            events = events;
            reply = respond (encode_upload_response_segmented index subindex len);
          })
          (encode_upload_response_segmented index subindex len) c'
          (record {
            id = 0x600 + c.target_node;
            dlc = 8;
            bytes = make_upload_segment_request false;
          })
          (upload_large dict capacity written index subindex od events (ctx rounds) len buf i e z)
          refl (client_large cap c index subindex len i (omega arith) l n) in
      subst (Delivers len buf od) (sym first) (
        upload_loop dict capacity cap ctx rounds c' index subindex written t od events refl
          (record {
            node_valid = n;
            buf_len = b;
            client_buf_len = d;
            direction = refl;
            same_offset = refl;
            stated = refl;
            within = omega arith;
            fits = f;
            fits_client = l;
            delivered = refl;
          })
          r (omega arith))

  -- An upload of an object that the dictionary reads as the `len` bytes at the front of `buf`,
  -- started by a client with a valid node id and a buffer that holds `len` bytes, at a server
  -- without a running transfer: with `rounds` of seven bytes and one more it ends with
  -- `UploadComplete { len }`, the client's data are those bytes, both sides are idle again and the
  -- dictionary is unchanged. The object may have any length up to the server's buffer, 0 included,
  -- and the clock and the other context may change between the rounds.
  pub upload-Delivers :
      (ctx : ℕ → SdoContext) (rounds : ℕ) (c : SdoClient) (written : Option (ℕ × ℕ))
      (index subindex : ℕ) (od : O) (events : List OdEvent) (len : ℕ) (buf : List ℕ)
      → c.target_node ≤ 127
      → index < 2 ^ 16
      → read od index subindex empty_buf ≡ (ok len, buf)
      → length buf ≡ buf_size
      → length c.buf ≡ cap
      → len ≤ buf_size
      → len ≤ cap
      → 1 ≤ rounds
      → len ≤ rounds * 7
      → (f : CanFrame) × ((start_upload c index subindex).1 ≡ some f)
        × Delivers len buf od (
            exchange dict capacity cap ctx
              (suc rounds)
              (start_upload c index subindex).0
              (record { transfer = none; committed_write = written })
              od
              events
              f.bytes)
  upload-Delivers ctx rounds c written index subindex od events len buf n i e b d f l r s =
      rw (start_upload_lem c index subindex n) (
        record { id = 0x600 + c.target_node; dlc = 8; bytes = upload_request index subindex },
        refl,
        elim (Bool-cases (ltb 0 len && leb len 4)) [
          | inl z ↦
              deliver_small ctx rounds c written index subindex od events len buf i e b d l
                (ground arith) (ground arith)
          | inr z ↦
              deliver_large ctx rounds c written index subindex od events len buf n i e b d f l r s
                z
        ],
      )
