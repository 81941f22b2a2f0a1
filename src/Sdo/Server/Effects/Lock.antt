-- ===== src/Sdo/Server/Effects/Lock.antt =====
-- The lock on PDO configuration while the node is Operational (canopen-core/src/sdo/server.rs).
use yacob.Base.{
  ℕ, ◌-◌, ◌<◌, ◌≡◌, ◌⊎◌, inl, inr, refl, arith, Bool, true, false, ◌&&◌, ◌||◌, not, if◌then◌else◌,
  leb, ltb, ◌==◌, bit_and, List, length, take, Option, none, some, Bool-cases,
}
use yacob.Base.Bytes.{Bytes8, has_bits, join_bytes, ◌>>>◌}
use yacob.Base.Results.{Result, ok, err}
use yacob.Nmt.{NmtState, same_state, operational}
use yacob.Sdo.Abort.{AbortCode}
use yacob.Sdo.Od.{ObjectDictionary, OdEvent, OdError, sdo}
use yacob.Sdo.Protocol.{encode_sdo_abort, parse_index_sub}
use yacob.Sdo.Validate.{SdoContext, validate_download, is_pdo_config_index, od_write_abort}
use yacob.Sdo.Server.State.{
  SdoServer, SegmentedTransfer, BlockDownloadState, TransferState, segmented, block_upload,
  block_download, upload, download, Direction, Reply, respond, Outcome, push_event, buf_size,
}
use yacob.Sdo.Server.Segmented.{
  commit, only, answer_read, begin_upload, handle_initiate_upload, upload_segment,
  handle_upload_segment, handle_initiate_download, segment_refusal, download_segment,
  handle_download_segment,
}
use yacob.Sdo.Server.Block.{
  finish_block_download, initiate_block_download, initiate_block_upload, begin_block_upload,
  start_block_upload, handle_block_ack, ack_block_upload, end_block_upload, handle_block_upload,
  block_segment, handle_block_download_segment,
}
use yacob.Sdo.Crc.{crc16_ccitt_update}

-- An object that configures no PDO.
abbrev pub IsOther : ℕ → Type 0
IsOther index = (index < 0x1400) ⊎ (0x1BFF < index)

-- Is a download of a PDO communication or mapping object running?
unfoldable pub is_config : ℕ → Bool
is_config index = leb 0x1400 index && leb index 0x1BFF

unfoldable pub configures : Option TransferState → Bool
configures none = false
configures (some (segmented t)) = elim t.direction [ upload ↦ false | download ↦ is_config t.index ]
configures (some (block_upload t)) = false
configures (some (block_download t)) = is_config t.index

is_config-IsOther : (index : ℕ) → is_config index ≡ false → IsOther index
unfolding is_config
is_config-IsOther index h = elim (Bool-cases (leb 0x1400 index)) [
  | inl above ↦ inr (ground (arith, above, h))
  | inr below ↦ inl (ground (arith, below))
]

-- What the lock's test finds while Operational.
unlocked :
    (state : NmtState) (index : ℕ)
    → state ≡ operational
    → (same_state state operational && is_pdo_config_index index) ≡ false
    → is_config index ≡ false
unfolding is_pdo_config_index is_config
unlocked state index n h = ground (arith, n, h)

direction_cases : (d : Direction) → (d ≡ upload) ⊎ (d ≡ download)
direction_cases upload = inl refl
direction_cases download = inr refl

module _ {O : Type 0} (dict : ObjectDictionary O) (capacity : ℕ) (P : O → Type 0) where
  open dict use {write}

  -- A property of the dictionary that no write to another object destroys.
  abbrev pub IsKept : Type 0
  IsKept =
      (od : O) (index subindex : ℕ) (bytes : List ℕ)
      → IsOther index
      → P od
      → P (write od index subindex bytes).1

  pub record Guarded (o : Outcome O) : Type 0 where
    pub shut : configures o.server.transfer ≡ false
    pub held : P o.od

  pub only-Guarded :
      (od : O) (events : List OdEvent) (r : SdoServer × Reply)
      → configures r.0.transfer ≡ false
      → P od
      → Guarded (only od events r)
  only-Guarded od events r h p = record { shut = h; held = p }

  pub if-Guarded :
      (b : Bool) (x y : Outcome O)
      → (b ≡ true → Guarded x)
      → (b ≡ false → Guarded y)
      → Guarded (if b then x else y)
  if-Guarded true x y p q = p refl
  if-Guarded false x y p q = q refl

  commit-Guarded :
      (s : SdoServer) (od : O) (events : List OdEvent) (ctx : SdoContext) (index subindex : ℕ)
      (bytes : List ℕ) (accepted : Bytes8)
      → IsKept
      → configures s.transfer ≡ false
      → IsOther index
      → P od
      → Guarded (commit dict capacity s od events ctx index subindex bytes accepted)
  unfolding commit
  commit-Guarded s od events ctx index subindex bytes accepted keeps h other p =
      go (validate_download dict od ctx index subindex bytes) (write od index subindex bytes)
        (keeps od index subindex bytes other p)
    where
      go :
          (v : Result (Unit {0}) ℕ) (w : Result (Unit {0}) OdError × O)
          → P w.1
          → Guarded (elim v [
            | err code ↦ record {
              server = s;
              od = od;
              events = events;
              reply = respond (encode_sdo_abort index subindex code);
            }
            | ok u ↦ elim w.0 [
              | ok v ↦ record {
                server = record s { committed_write = some (index, subindex) };
                od = w.1;
                events =
                    push_event capacity events
                      (record { index = index; subindex = subindex; source = sdo });
                reply = respond accepted;
              }
              | err e ↦ record {
                server = s;
                od = w.1;
                events = events;
                reply = respond (
                    encode_sdo_abort index subindex
                      (od_write_abort dict w.1 index subindex (length bytes) e));
              }
            ]
          ])
      go (err code) w k = record { shut = h; held = p }
      go (ok tt) (ok u, od') k = record { shut = h; held = k }
      go (ok tt) (err x, od') k = record { shut = h; held = k }

  option-Guarded :
      (r : Option AbortCode) (x : AbortCode → Outcome O) (y : Outcome O)
      → ((c : AbortCode) → Guarded (x c))
      → Guarded y
      → Guarded (elim r [ some c ↦ x c | none ↦ y ])
  option-Guarded (some c) x y p q = p c
  option-Guarded none x y p q = q

  pub handle_initiate_download-Guarded :
      (s : SdoServer) (request : Bytes8) (od : O) (events : List OdEvent) (ctx : SdoContext)
      → IsKept
      → ctx.nmt_state ≡ operational
      → configures s.transfer ≡ false
      → P od
      → Guarded (handle_initiate_download dict capacity s request od events ctx)
  unfolding handle_initiate_download configures
  handle_initiate_download-Guarded s request od events ctx keeps n h p =
      let (index, subindex) = parse_index_sub request in
      if-Guarded (same_state ctx.nmt_state operational && is_pdo_config_index index) _ _
        (λ e. record { shut = h; held = p })
        λ open_.
          let outside = unlocked ctx.nmt_state index n open_ in
          if-Guarded (has_bits request.b0 0x02) _ _
            (λ e.
              commit-Guarded (record s { transfer = none }) od events ctx index subindex _ _ keeps
                refl (is_config-IsOther index outside) p)
            λ e.
              if-Guarded (ltb buf_size _) _ _ (λ e. record { shut = h; held = p })
                λ e. record { shut = outside; held = p }

  download_segment-Guarded :
      (s : SdoServer) (t : SegmentedTransfer) (request : Bytes8) (od : O) (events : List OdEvent)
      (ctx : SdoContext)
      → IsKept
      → is_config t.index ≡ false
      → t.direction ≡ download
      → P od
      → Guarded (download_segment dict capacity s t request od events ctx)
  unfolding download_segment configures
  download_segment-Guarded s t request od events ctx keeps h d p =
      option-Guarded (segment_refusal t (has_bits request.b0 0x10) _ (has_bits request.b0 0x01)) _ _
        (λ c. record { shut = refl; held = p })
        (if-Guarded (has_bits request.b0 0x01) _ _
          (λ e.
            commit-Guarded (record s { transfer = none }) od events ctx t.index t.subindex _ _ keeps
              refl (is_config-IsOther t.index h) p)
          λ e. record { shut = rw d h; held = p })

  pub handle_download_segment-Guarded :
      (s : SdoServer) (request : Bytes8) (od : O) (events : List OdEvent) (ctx : SdoContext)
      → IsKept
      → configures s.transfer ≡ false
      → P od
      → Guarded (handle_download_segment dict capacity s request od events ctx)
  unfolding handle_download_segment configures
  handle_download_segment-Guarded s request od events ctx keeps h p =
      go s.transfer s.committed_write h
    where
      go :
          (o : Option TransferState) (c : Option (ℕ × ℕ))
          → configures o ≡ false
          → Guarded (
              handle_download_segment dict capacity
                (record { transfer = o; committed_write = c })
                request
                od
                events
                ctx)
      go none c h = record { shut = h; held = p }
      go (some (segmented t)) c h = elim (direction_cases t.direction) [
        | inl up ↦ rw up (record { shut = h; held = p })
        | inr down ↦
            let outside : is_config t.index ≡ false = ground (arith, down, h) in
            rw down (
              download_segment-Guarded
                (record { transfer = some (segmented t); committed_write = c }) t request od events
                ctx keeps outside down p)
      ]
      go (some (block_upload t)) c h = record { shut = h; held = p }
      go (some (block_download t)) c h = record { shut = h; held = p }

  pub finish_block_download-Guarded :
      (s : SdoServer) (t : BlockDownloadState) (request : Bytes8) (od : O) (events : List OdEvent)
      (ctx : SdoContext)
      → IsKept
      → configures s.transfer ≡ false
      → is_config t.index ≡ false
      → P od
      → Guarded (finish_block_download dict capacity s t request od events ctx)
  unfolding finish_block_download configures
  finish_block_download-Guarded s t request od events ctx keeps h outside p =
      let n_unused = bit_and (request.b0 >>> 2) 0x07 in
      let data_len = t.offset - n_unused in
      let bytes = take data_len t.buf in
      if-Guarded (ltb 6 n_unused || ltb t.offset n_unused) _ _
        (λ e. record { shut = refl; held = p })
        λ e.
          if-Guarded (ltb buf_size data_len) _ _ (λ e. record { shut = h; held = p })
            λ e.
              if-Guarded (t.size_indicated && not (data_len == t.total_len)) _ _
                (λ e. record { shut = refl; held = p })
                λ e.
                  if-Guarded
                    (t.crc_enabled
                      && not (crc16_ccitt_update 0 bytes == join_bytes request.b1 request.b2))
                    _ _ (λ e. record { shut = refl; held = p })
                    λ e.
                      commit-Guarded (record s { transfer = none }) od events ctx t.index t.subindex
                        _ _ keeps refl (is_config-IsOther t.index outside) p

  pub initiate_block_download-open :
      (s : SdoServer) (request : Bytes8) (ctx : SdoContext)
      → ctx.nmt_state ≡ operational
      → configures s.transfer ≡ false
      → configures (initiate_block_download dict s request ctx).0.transfer ≡ false
  unfolding initiate_block_download is_pdo_config_index configures is_config
  initiate_block_download-open s request ctx n h = ground (arith, n, h)

  pub upload-open :
      (s : SdoServer) (request : Bytes8) (od : O) (now : ℕ)
      → configures s.transfer ≡ false
      → configures (handle_initiate_upload dict s request od now).0.transfer ≡ false
  unfolding handle_initiate_upload answer_read begin_upload configures
  upload-open s request od now h = ground arith

  pub upload_segment-open :
      (s : SdoServer) (request : Bytes8) (now : ℕ)
      → configures s.transfer ≡ false
      → configures (handle_upload_segment s request now).0.transfer ≡ false
  unfolding handle_upload_segment upload_segment configures is_config
  upload_segment-open s request now h = ground arith

  pub block_upload-open :
      (s : SdoServer) (request : Bytes8) (od : O) (now : ℕ)
      → configures s.transfer ≡ false
      → configures (handle_block_upload dict s request od now).0.transfer ≡ false
  unfolding handle_block_upload initiate_block_upload begin_block_upload start_block_upload
      handle_block_ack ack_block_upload end_block_upload configures is_config
  block_upload-open s request od now h = ground arith

  pub block_segment-open :
      (s : SdoServer) (request : Bytes8) (now : ℕ)
      → configures s.transfer ≡ false
      → configures (handle_block_download_segment s request now).0.transfer ≡ false
  unfolding handle_block_download_segment block_segment configures is_config
  block_segment-open s request now h = ground arith
