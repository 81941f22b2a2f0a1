-- ===== src/Sdo/Server/Effects/Written.antt =====
-- What a client may write into the entries that hold COB-IDs (canopen-core/src/sdo/server.rs).
use mathlib.Core.List.{Memᴰ}
use yacob.Base.{
  ℕ, ◌+◌, ◌/◌, ◌%◌, ◌≤◌, ◌≡◌, ◌≢◌, ◌⊎◌, inl, inr, sym, arith, false, List, length, none, some,
  Bool-cases, ◌==◌,
}
use yacob.Base.Bytes.{Bytes8}
use yacob.Base.Results.{ok}
use yacob.Sdo.Od.{ObjectDictionary, OdEvent}
use yacob.Sdo.Validate.{SdoContext, raw_of, validate_download}
use yacob.Sdo.Validate.Plan.{IsFree}
use yacob.Sdo.Validate.Rules.{
  accepted_pdo_cob_id, accepted_sync_cob_id, accepted_heartbeat_consumer,
}
use yacob.Sdo.Server.State.{SdoServer}
use yacob.Sdo.Server.Process.{process_with_context}
use yacob.Sdo.Server.Effects.{kept, refused, wrote}
use yacob.Sdo.Server.Effects.Requests.{process_with_context-Effect}

module _ {O : Type 0} (dict : ObjectDictionary O) (capacity : ℕ) where
  open dict use {write}

  -- The value behind a committed write, which passed every check.
  committed_value :
      (s : SdoServer) (request : Bytes8) (od : O) (events : List OdEvent) (ctx : SdoContext)
      (index subindex : ℕ)
      → s.committed_write ≡ none
      → let o = process_with_context dict capacity s request od events ctx in
        o.server.committed_write ≡ some (index, subindex)
        → (bytes : List ℕ) × ((write od index subindex bytes ≡ (ok tt, o.od))
            × (validate_download dict od ctx index subindex bytes ≡ ok tt))
  committed_value s request od events ctx index subindex idle done =
      elim (process_with_context-Effect dict capacity s request od events ctx) [
        | kept a b c ↦ absurd (cc (c, idle, done))
        | refused i sub bytes e v w a b c ↦ absurd (cc (b, idle, done))
        | wrote i sub bytes v w a b c ↦
            let same_index : i ≡ index = cc (b, done) in
            let same_sub : sub ≡ subindex = cc (b, done) in
            (bytes, rw (sym same_index, sym same_sub) (w, v))
      ]

  -- Whatever transfer a request ends, if it commits a write to the COB-ID of a PDO (subindex 1 of
  -- `0x1400`–`0x15FF` and `0x1800`–`0x19FF`), then the value that the dictionary was given has
  -- another size than four bytes, or 11 bits below the two flags; and unless these are 0, no SDO
  -- server of the node uses that COB-ID and it is not the SYNC COB-ID.
  pub written_pdo_cob_id :
      (s : SdoServer) (request : Bytes8) (od : O) (events : List OdEvent) (ctx : SdoContext)
      (index : ℕ)
      → ((0x1400 ≤ index) × (index ≤ 0x15FF)) ⊎ ((0x1800 ≤ index) × (index ≤ 0x19FF))
      → s.committed_write ≡ none
      → (process_with_context dict capacity s request od events ctx).server.committed_write
        ≡ some (index, 1)
      → let o = process_with_context dict capacity s request od events ctx in
        (bytes : List ℕ) × ((write od index 1 bytes ≡ (ok tt, o.od))
          × ((length bytes ≢ 4)
              ⊎ ((raw_of bytes % 0x4000_0000 ≡ raw_of bytes % 0x800)
                  × ((raw_of bytes % 0x800 ≡ 0)
                      ⊎ (IsFree ctx.cob_ids (raw_of bytes % 0x800)
                          × (raw_of bytes % 0x800 ≢ ctx.sync_cob_id))))))
  written_pdo_cob_id s request od events ctx index range idle done =
      let (bytes, value) = committed_value s request od events ctx index 1 idle done in
      (
        bytes,
        (
          value.0,
          elim (Bool-cases (length bytes == 4)) [
            | inl four ↦
                inr (accepted_pdo_cob_id dict od ctx index bytes range (ground arith) value.1)
            | inr other ↦ inl (λ e. ground arith)
          ],
        ),
      )

  -- Whatever transfer a request ends, if it commits a write to the SYNC COB-ID (`0x1005`), then the
  -- value that the dictionary was given has another size than four bytes, or is an 11-bit
  -- identifier other than 0 with no flag but bit 30, which no SDO server of the node uses and no
  -- other service of the node either, of which the list is complete.
  pub written_sync_cob_id :
      (s : SdoServer) (request : Bytes8) (od : O) (events : List OdEvent) (ctx : SdoContext)
      → s.committed_write ≡ none
      → (process_with_context dict capacity s request od events ctx).server.committed_write
        ≡ some (0x1005, 0)
      → let o = process_with_context dict capacity s request od events ctx in
        (bytes : List ℕ) × ((write od 0x1005 0 bytes ≡ (ok tt, o.od))
          × ((length bytes ≢ 4)
              ⊎ (((1 ≤ raw_of bytes % 0x800)
                    × (raw_of bytes % 0x4000_0000 ≡ raw_of bytes % 0x800)
                    × (raw_of bytes / 0x8000_0000 % 2 ≡ 0))
                  × IsFree ctx.cob_ids (raw_of bytes % 0x800)
                  × ((ctx.reserved_cob_ids.truncated ≡ false)
                      × ¬ (Memᴰ (raw_of bytes % 0x800) ctx.reserved_cob_ids.ids)))))
  written_sync_cob_id s request od events ctx idle done =
      let (bytes, value) = committed_value s request od events ctx 0x1005 0 idle done in
      (
        bytes,
        (
          value.0,
          elim (Bool-cases (length bytes == 4)) [
            | inl four ↦ inr (accepted_sync_cob_id dict od ctx bytes (ground arith) value.1)
            | inr other ↦ inl (λ e. ground arith)
          ],
        ),
      )

  -- Whatever transfer a request ends, if it commits a write to one of the consumer entries (`0x1016`)
  -- that this node monitors, then the value that the dictionary was given has another size than
  -- four bytes, or a heartbeat time of 0, or it names a node 1..=127 whose heartbeat COB-ID no SDO
  -- server of this node uses and is not the SYNC COB-ID.
  pub written_heartbeat_consumer :
      (s : SdoServer) (request : Bytes8) (od : O) (events : List OdEvent) (ctx : SdoContext)
      (subindex : ℕ)
      → 1 ≤ subindex
      → subindex ≤ ctx.heartbeat_consumer_count
      → s.committed_write ≡ none
      → (process_with_context dict capacity s request od events ctx).server.committed_write
        ≡ some (0x1016, subindex)
      → let o = process_with_context dict capacity s request od events ctx in
        (bytes : List ℕ) × ((write od 0x1016 subindex bytes ≡ (ok tt, o.od))
          × ((length bytes ≢ 4)
              ⊎ ((raw_of bytes % 0x1_0000 ≡ 0)
                  ⊎ ((1 ≤ raw_of bytes / 0x1_0000 % 0x100)
                      × (raw_of bytes / 0x1_0000 % 0x100 ≤ 127)
                      × IsFree ctx.cob_ids (0x700 + raw_of bytes / 0x1_0000 % 0x100)
                      × (0x700 + raw_of bytes / 0x1_0000 % 0x100 ≢ ctx.sync_cob_id)))))
  written_heartbeat_consumer s request od events ctx subindex pos consumed idle done =
      let (bytes, value) = committed_value s request od events ctx 0x1016 subindex idle done in
      (
        bytes,
        (
          value.0,
          elim (Bool-cases (length bytes == 4)) [
            | inl four ↦ elim (Bool-cases (raw_of bytes % 0x1_0000 == 0)) [
              | inl off ↦ inr (inl (ground (arith, off)))
              | inr on ↦
                  let timed : raw_of bytes % 0x1_0000 ≢ 0 = ground (arith, on) in
                  let size : length bytes ≡ 4 = ground (arith, four) in
                  inr (
                    inr (
                      accepted_heartbeat_consumer dict od ctx subindex bytes pos consumed size timed
                        value.1))
            ]
            | inr other ↦ inl (λ e. ground arith)
          ],
        ),
      )
