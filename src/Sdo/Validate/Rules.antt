-- ===== src/Sdo/Validate/Rules.antt =====
-- What an accepted download guarantees (canopen-core/src/sdo/server.rs, `validate_download`).
use yacob.Base.{
  ℕ, zero, suc, Bool-cases, ◌==◌, ◌∙◌, ap, ◌+◌, ◌/◌, ◌%◌, ◌≤◌, ◌<◌, ◌≡◌, ◌≢◌, ◌⊎◌, inl, inr, refl,
  arith, true, false, ◌&&◌, bit_and, List, [], ◌∷◌, length, get_or, some,
}
use yacob.Base.Bytes.{u16, has_bits, ◌>>>◌}
use yacob.Base.Results.{ok}
use yacob.Sdo.Od.{ReadFits, ObjectDictionary}
use yacob.Sync.{is_supported_sync_cob_id, is_valid_sync_counter_overflow}
use mathlib.Core.List.{Memᴰ}
use yacob.Base.Bits.{bit_and_mask}
use yacob.Sdo.Validate.Plan.{
  IsFree, sdo_claims-IsFree, reserved_claims-free, pdo_mask-low, supported_cob-low,
}
use yacob.Sdo.Validate.{
  heartbeat_scan, SdoContext, sdo_claims, reserved_claims, raw_of, validate_pdo_cob_id_write,
  validate_sync_cob_id_write, validate_sync_counter_overflow_write,
  validate_heartbeat_consumer_write, validate_download,
}

module _ {O : Type 0} (dict : ObjectDictionary O) where
  open dict use {read, sub_count, validate_write}

  -- An accepted download passed every rule.
  all_rules :
      (od : O) (ctx : SdoContext) (index subindex : ℕ) (bytes : List ℕ)
      → validate_download dict od ctx index subindex bytes ≡ ok tt
      → (validate_heartbeat_consumer_write dict od ctx.cob_ids ctx.sync_cob_id
            ctx.heartbeat_consumer_count index subindex bytes
          ≡ ok tt)
        × (validate_pdo_cob_id_write ctx.cob_ids ctx.sync_cob_id index subindex bytes ≡ ok tt)
        × (validate_sync_cob_id_write ctx.cob_ids ctx.reserved_cob_ids index subindex bytes ≡ ok tt)
        × (validate_sync_counter_overflow_write index subindex bytes ≡ ok tt)
        × (validate_write od index subindex bytes ≡ ok tt)
  unfolding validate_download
  all_rules od ctx index subindex bytes h = ground arith

  -- A COB-ID of four bytes that is accepted for a PDO (`0x1400`–`0x15FF` and `0x1800`–`0x19FF`,
  -- subindex 1) has 11 bits, below the two flags. Unless it is 0, no SDO server uses it and it is
  -- not the SYNC COB-ID.
  pub accepted_pdo_cob_id :
      (od : O) (ctx : SdoContext) (index : ℕ) (bytes : List ℕ)
      → ((0x1400 ≤ index) × (index ≤ 0x15FF)) ⊎ ((0x1800 ≤ index) × (index ≤ 0x19FF))
      → length bytes ≡ 4
      → validate_download dict od ctx index 1 bytes ≡ ok tt
      → let cob = raw_of bytes % 0x800 in
        (raw_of bytes % 0x4000_0000 ≡ cob)
        × ((cob ≡ 0) ⊎ (IsFree ctx.cob_ids cob × (cob ≢ ctx.sync_cob_id)))
  unfolding validate_pdo_cob_id_write
  accepted_pdo_cob_id od ctx index bytes range four h =
      let rule = (all_rules od ctx index 1 bytes h).1 in
      let cob = raw_of bytes % 0x800 in
      let short = bit_and_mask 11 (raw_of bytes) 0x7FF refl in
      let masked : has_bits (raw_of bytes) 0x3FFF_F800 ≡ false = ground arith in
      (
        pdo_mask-low (raw_of bytes) masked,
        elim (Bool-cases (cob == 0)) [
          | inl zero_cob ↦ inl (ground arith)
          | inr real ↦
              let unclaimed : sdo_claims ctx.cob_ids cob ≡ false = ground (arith, short) in
              inr
                (sdo_claims-IsFree ctx.cob_ids cob (ground arith) unclaimed, ground (arith, short))
        ],
      )

  -- A SYNC COB-ID of four bytes that is accepted (`0x1005`) is an 11-bit identifier other than 0,
  -- with no flag but bit 30. No SDO server uses it, and neither does another service of the node,
  -- of which the list is complete.
  pub accepted_sync_cob_id :
      (od : O) (ctx : SdoContext) (bytes : List ℕ)
      → length bytes ≡ 4
      → validate_download dict od ctx 0x1005 0 bytes ≡ ok tt
      → let cob = raw_of bytes % 0x800 in
        ((1 ≤ cob) × (raw_of bytes % 0x4000_0000 ≡ cob) × (raw_of bytes / 0x8000_0000 % 2 ≡ 0))
        × IsFree ctx.cob_ids cob
        × ((ctx.reserved_cob_ids.truncated ≡ false) × ¬ (Memᴰ cob ctx.reserved_cob_ids.ids))
  unfolding validate_sync_cob_id_write
  accepted_sync_cob_id od ctx bytes four h =
      let rule = (all_rules od ctx 0x1005 0 bytes h).2 in
      let cob = raw_of bytes % 0x800 in
      let short = bit_and_mask 11 (raw_of bytes) 0x7FF refl in
      let supported : is_supported_sync_cob_id (raw_of bytes) ≡ true = ground arith in
      let low = supported_cob-low (raw_of bytes) supported in
      let unclaimed : sdo_claims ctx.cob_ids cob ≡ false = ground (arith, short) in
      let unreserved : reserved_claims ctx.reserved_cob_ids cob ≡ false = ground (arith, short) in
      let real : cob ≢ 0 = ground (arith, low.0) in
      (
        low,
        sdo_claims-IsFree ctx.cob_ids cob real unclaimed,
        reserved_claims-free ctx.reserved_cob_ids cob real unreserved,
      )

  -- A SYNC counter overflow that is accepted (`0x1019`) is 0 or lies in 2..=240.
  pub accepted_sync_counter :
      (od : O) (ctx : SdoContext) (bytes : List ℕ)
      → 1 ≤ length bytes
      → validate_download dict od ctx 0x1019 0 bytes ≡ ok tt
      → (get_or bytes 0 0 ≡ 0) ⊎ ((2 ≤ get_or bytes 0 0) × (get_or bytes 0 0 ≤ 240))
  unfolding validate_sync_counter_overflow_write is_valid_sync_counter_overflow
  accepted_sync_counter od ctx bytes nonempty h =
      let rule = (all_rules od ctx 0x1019 0 bytes h).3 in ground arith

  scan-IsFree :
      (od : O) (index subindex node left sub : ℕ) (buf : List ℕ)
      → ReadFits dict
      → length buf ≡ 4
      → heartbeat_scan dict od index subindex node left sub buf ≡ ok tt
      → (s : ℕ) → sub ≤ s
      → s < sub + left
      → s ≢ subindex
      → (n : ℕ) (bytes : List ℕ) → ((b : List ℕ) → length b ≡ 4 → read od index s b ≡ (ok n, bytes))
      → (has_bits (raw_of bytes) 0xFFFF && bit_and (raw_of bytes >>> 16) 0xFF == node) ≡ false
  unfolding heartbeat_scan
  scan-IsFree od index subindex node zero sub buf fits four h s p q ne n bytes r =
      absurd (omega arith)
  scan-IsFree od index subindex node (suc left) sub buf fits four h s p q ne n bytes r =
      let step = read od index sub buf in
      elim (Bool-cases (sub == subindex)) [
        | inl same ↦
            scan-IsFree od index subindex node left (sub + 1) buf fits four (ground arith) s
              (ground arith) (ground arith) ne n bytes r
        | inr other ↦ elim (Bool-cases (sub == s)) [
          | inl here ↦
              (let at : sub ≡ s = ground arith in
                let e : read od index sub buf ≡ (ok n, bytes) =
                  ap (λ (k : ℕ). read od index k buf) at ∙ r buf four in
                ground arith)
          | inr later ↦
              scan-IsFree od index subindex node left (sub + 1) step.1 fits
                (fits.keeps_length od index sub buf ∙ four) (ground arith) s (ground arith)
                (ground arith) ne n bytes r
        ]
      ]

  -- A consumer entry (`0x1016`) that this node consumes and that is accepted with a heartbeat time
  -- names a node 1..=127, whose heartbeat COB-ID no SDO server uses and is not the SYNC COB-ID.
  pub accepted_heartbeat_consumer :
      (od : O) (ctx : SdoContext) (subindex : ℕ) (bytes : List ℕ)
      → 1 ≤ subindex
      → subindex ≤ ctx.heartbeat_consumer_count
      → length bytes ≡ 4
      → raw_of bytes % 0x1_0000 ≢ 0
      → validate_download dict od ctx 0x1016 subindex bytes ≡ ok tt
      → let node = raw_of bytes / 0x1_0000 % 0x100 in
        (1 ≤ node)
        × (node ≤ 127)
        × IsFree ctx.cob_ids (0x700 + node)
        × (0x700 + node ≢ ctx.sync_cob_id)
  unfolding validate_heartbeat_consumer_write
  accepted_heartbeat_consumer od ctx subindex bytes pos consumed four on h =
      let rule = (all_rules od ctx 0x1016 subindex bytes h).0 in
      let raw = raw_of bytes in
      let node = raw / 0x1_0000 % 0x100 in
      let time = bit_and_mask 16 raw 0xFFFF refl in
      let byte = bit_and_mask 8 (raw / 0x1_0000) 0xFF refl in
      let same_node : u16 (bit_and (raw >>> 16) 0xFF) ≡ node = omega (arith, byte) in
      let unclaimed : sdo_claims ctx.cob_ids (0x700 + node) ≡ false =
        ground (arith, rule, time, byte, same_node) in
      (
        ground (arith, time, byte),
        ground (arith, time, byte),
        sdo_claims-IsFree ctx.cob_ids (0x700 + node) (omega arith) unclaimed,
        ground (arith, time, byte, same_node),
      )

  -- After a consumer entry (`0x1016`) is accepted with a heartbeat time, no other entry with a
  -- heartbeat time names the same node, for entries that read the same into any buffer of four
  -- bytes.
  pub accepted_heartbeat_unique :
      (od : O) (ctx : SdoContext) (subindex count : ℕ) (bytes : List ℕ) (s n : ℕ) (entry : List ℕ)
      → ReadFits dict
      → 1 ≤ subindex
      → length bytes ≡ 4
      → bit_and (raw_of bytes) 0xFFFF ≢ 0
      → sub_count od 0x1016 ≡ some count
      → validate_download dict od ctx 0x1016 subindex bytes ≡ ok tt
      → 1 ≤ s
      → s ≤ count
      → s ≢ subindex
      → ((b : List ℕ) → length b ≡ 4 → read od 0x1016 s b ≡ (ok n, entry))
      → (has_bits (raw_of entry) 0xFFFF
          && bit_and (raw_of entry >>> 16) 0xFF == bit_and (raw_of bytes >>> 16) 0xFF)
        ≡ false
  unfolding validate_heartbeat_consumer_write
  accepted_heartbeat_unique od ctx subindex count bytes s n entry fits pos four on c h p q ne r =
      let rule = (all_rules od ctx 0x1016 subindex bytes h).0 in
      let node = bit_and (raw_of bytes >>> 16) 0xFF in
      let scanned : heartbeat_scan dict od 0x1016 subindex node count 1 (0 ∷ 0 ∷ 0 ∷ 0 ∷ [])
          ≡ ok tt =
        ground arith in
      scan-IsFree od 0x1016 subindex node count 1 (0 ∷ 0 ∷ 0 ∷ 0 ∷ []) fits refl scanned s p
        (omega arith) ne n entry r
