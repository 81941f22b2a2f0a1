-- ===== src/Sdo/Validate/Plan.antt =====
-- The COB-IDs of a node that a download must keep apart (canopen-core/src/sdo/server.rs,
-- `SdoCobIds::claims`, `ReservedCobIds::claims` and the masks of COB-ID entries), said with numbers
-- and membership in lists.
use mathlib.Core.List.{Memᴰ}
use yacob.Base.{
  ℕ, ◌/◌, ◌%◌, ◌≤◌, ◌≡◌, ◌≢◌, refl, arith, true, false, List, [], ◌∷◌, contains, bit_and,
}
use yacob.Base.Bits.{bit_and_mask}
use yacob.Base.Masks.{halve, bit_and-halve, bit_and-low}
use yacob.Base.Bytes.{has_bits}
use yacob.Sync.{is_supported_sync_cob_id}
use yacob.Sdo.Validate.{SdoCobIds, sdo_claims, ReservedCobIds, reserved_claims}

-- A COB-ID that no SDO server of the node receives or sends on.
pub record IsFree (ids : SdoCobIds) (cob : ℕ) : Type 0 where
  pub not_default_rx : cob ≢ ids.default_rx
  pub not_default_tx : cob ≢ ids.default_tx
  pub not_extra_rx : ¬ (Memᴰ cob ids.extra_rx)
  pub not_extra_tx : ¬ (Memᴰ cob ids.extra_tx)

contains-Mem : (xs : List ℕ) (a : ℕ) → Memᴰ a xs → contains xs a ≡ true
unfolding contains
contains-Mem [] a m = elim m [ ]
contains-Mem (x ∷ xs) a (Memᴰ.head e) = ground (arith, e)
contains-Mem (x ∷ xs) a (Memᴰ.tail m) = ground (arith, contains-Mem xs a m)

pub sdo_claims-IsFree :
    (ids : SdoCobIds) (cob : ℕ) → cob ≢ 0 → sdo_claims ids cob ≡ false → IsFree ids cob
unfolding sdo_claims
sdo_claims-IsFree ids cob real free = record {
  not_default_rx = λ e. ground (arith, e);
  not_default_tx = λ e. ground (arith, e);
  not_extra_rx = λ m. ground (arith, contains-Mem ids.extra_rx cob m);
  not_extra_tx = λ m. ground (arith, contains-Mem ids.extra_tx cob m);
}

pub reserved_claims-free :
    (r : ReservedCobIds) (cob : ℕ)
    → cob ≢ 0
    → reserved_claims r cob ≡ false
    → (r.truncated ≡ false) × ¬ (Memᴰ cob r.ids)
unfolding reserved_claims
reserved_claims-free r cob real free = (ground arith, λ m. ground (arith, contains-Mem r.ids cob m))

-- The bits 11 to 29 of a word are zeros where the PDO mask finds nothing.
pub pdo_mask-low : (raw : ℕ) → has_bits raw 0x3FFF_F800 ≡ false → raw % 0x4000_0000 ≡ raw % 0x800
pdo_mask-low raw h =
    let nothing : bit_and raw 0x3FFF_F800 ≡ 0 = ground (arith, h) in
    let high =
      bit_and-low 19 (halve 11 raw) 0x7_FFFF refl (bit_and-halve 11 raw 0x3FFF_F800 nothing) in
    omega (arith, high)

-- A SYNC COB-ID that the node serves is not 0, and has no bit of 11 to 29 nor bit 31.
pub supported_cob-low :
    (raw : ℕ)
    → is_supported_sync_cob_id raw ≡ true
    → (1 ≤ raw % 0x800) × (raw % 0x4000_0000 ≡ raw % 0x800) × (raw / 0x8000_0000 % 2 ≡ 0)
unfolding is_supported_sync_cob_id
supported_cob-low raw h =
    let nothing : bit_and raw 0xBFFF_F800 ≡ 0 = ground (arith, h) in
    let some_bit : bit_and raw 0x7FF ≢ 0 = ground (arith, h) in
    let shifted = bit_and-halve 11 raw 0xBFFF_F800 nothing in
    let high = bit_and-low 19 (halve 11 raw) 0x17_FFFF refl shifted in
    let top = bit_and-low 1 (halve 31 raw) 1 refl (bit_and-halve 31 raw 0xBFFF_F800 nothing) in
    (
      ground (arith, some_bit, bit_and_mask 11 raw 0x7FF refl),
      omega (arith, high),
      omega (arith, top),
    )
