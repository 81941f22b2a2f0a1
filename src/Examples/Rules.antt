-- ===== src/Examples/Rules.antt =====
-- Downloads that the rules accept.
use yacob.Base.{
  write_at, ◌⊎◌, ◌≤◌, ◌≡◌, ℕ, refl, arith, false, ◌&&◌, ◌==◌, bit_and, List, [], ◌∷◌, length,
  get_or, contains,
}
use yacob.Base.Bytes.{has_bits, ◌>>>◌}
use yacob.Base.Results.{ok}
use yacob.Nmt.{pre_operational}
use yacob.Sync.{is_valid_sync_counter_overflow}
use yacob.Sdo.Validate.{
  heartbeat_scan, raw_of, sdo_claims, validate_download, validate_heartbeat_consumer_write,
  validate_pdo_cob_id_write, validate_sync_cob_id_write, validate_sync_counter_overflow_write,
}
use yacob.Sdo.Validate.Rules.{accepted_sync_counter, accepted_heartbeat_unique}
use yacob.Examples.{strings, strings-ReadFits, text, context, read_string}

-- A consumer entry for node 7 with a heartbeat time of 1000 ms.
abbrev consumer_bytes : List ℕ
consumer_bytes = 0xE8 ∷ 0x03 ∷ 0x07 ∷ 0x00 ∷ []

-- Entry 2 names node 9.
abbrev other_bytes : List ℕ
other_bytes = 0xE8 ∷ 0x03 ∷ 0x09 ∷ 0x00 ∷ []

read_other : (b : List ℕ) → length b ≡ 4 → strings.read other_bytes 0x1016 2 b ≡ (ok 4, other_bytes)
unfolding read_string write_at
read_other [] e = absurd (omega arith)
read_other (a ∷ []) e = absurd (omega arith)
read_other (a ∷ b ∷ []) e = absurd (omega arith)
read_other (a ∷ b ∷ c ∷ []) e = absurd (omega arith)
read_other (a ∷ b ∷ c ∷ d ∷ []) e = refl
read_other (a ∷ b ∷ c ∷ d ∷ x ∷ xs) e = absurd (omega arith)

accepted_heartbeat_unique_example :
    (has_bits (raw_of other_bytes) 0xFFFF
      && bit_and (raw_of other_bytes >>> 16) 0xFF == bit_and (raw_of consumer_bytes >>> 16) 0xFF)
    ≡ false
unfolding validate_download validate_heartbeat_consumer_write validate_pdo_cob_id_write
    validate_sync_cob_id_write validate_sync_counter_overflow_write sdo_claims contains
    heartbeat_scan read_string write_at
accepted_heartbeat_unique_example =
    accepted_heartbeat_unique strings other_bytes (context pre_operational) 1 2 consumer_bytes 2 4
      other_bytes strings-ReadFits (omega arith) refl (λ e. ground arith) refl refl (omega arith)
      (omega arith) (λ e. ground arith) read_other

-- A counter overflow of 10.
abbrev counter_bytes : List ℕ
counter_bytes = 10 ∷ []

accepted_sync_counter_example :
    (get_or counter_bytes 0 0 ≡ 0)
    ⊎ ((2 ≤ get_or counter_bytes 0 0) × (get_or counter_bytes 0 0 ≤ 240))
unfolding validate_download validate_heartbeat_consumer_write validate_pdo_cob_id_write
    validate_sync_cob_id_write validate_sync_counter_overflow_write is_valid_sync_counter_overflow
accepted_sync_counter_example =
    accepted_sync_counter strings text (context pre_operational) counter_bytes (omega arith) refl
