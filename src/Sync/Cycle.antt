-- ===== src/Sync/Cycle.antt =====
-- The SYNC COB-ID entry, and the cycle of the producer (canopen-core/src/sync.rs).
use native.Mathlib.Nat.{div-add-mod', mul-add-mod_self_right, mod-eq_of_lt, mod-lt, mod_self}
use yacob.Base.{
  ℕ, ◌+◌, ◌*◌, ◌/◌, ◌%◌, ◌≤◌, ◌<◌, ◌≡◌, refl, ap, ◌∙◌, arith, Bool, true, false, ◌&&◌, ◌||◌,
  if◌then◌else◌, same, leb, ◌==◌, bit_and, List, [], ◌∷◌, some, Bool-cases, inl, inr,
}
use yacob.Base.Bits.{every, every_holds}
use yacob.Base.Bytes.{has_bits, u16}
use yacob.Can.{CanFrame}
use yacob.Sync.{
  SyncCobId, from_raw, to_raw, is_supported_sync_cob_id, SyncConsumer, consume, SyncProducer,
  is_enabled, peek_counter, poll_sync, confirm_pulse,
}

-- Does the entry for this COB-ID read back?
abbrev reads_back : Bool → ℕ → Bool
reads_back produce cob =
    let raw = to_raw (record { cob_id = cob; produce = produce }) in
    cob == 0
    || (is_supported_sync_cob_id raw
        && (u16 (bit_and raw 0x7FF) == cob && same (has_bits raw 0x4000_0000) produce))

reads_back_table : (produce : Bool) → every (reads_back produce) 0x800 ≡ true
unfolding every to_raw is_supported_sync_cob_id
reads_back_table true = refl
reads_back_table false = refl

-- Encoding the entry 0x1005 of an 11-bit COB-ID other than 0 and decoding it gives it back.
from_raw-to_raw : (s : SyncCobId) → 1 ≤ s.cob_id → s.cob_id ≤ 0x7FF → from_raw (to_raw s) ≡ some s
unfolding from_raw
from_raw-to_raw s p q =
    let row =
      every_holds (reads_back s.produce) 0x800 (reads_back_table s.produce) s.cob_id
        (omega arith) in
    ground (arith, row)

-- `n` pulses that the transport accepts, the last of them first.
unfoldable pub confirm_all : SyncProducer → List ℕ → SyncProducer
confirm_all p [] = p
confirm_all p (t ∷ ts) = confirm_pulse (confirm_all p ts) t

abbrev pub count : List ℕ → ℕ
count [] = 0
count (t ∷ ts) = count ts + 1

pub suc-mod : (k n : ℕ) → 1 ≤ n → (k + 1) % n ≡ (if leb n (k % n + 1) then 0 else k % n + 1)
suc-mod k n h =
    let split : k + 1 ≡ k / n * n + (k % n + 1) = omega (arith, div-add-mod' k n) in
    let reduced : (k + 1) % n ≡ (k % n + 1) % n =
      ap (λ (t : ℕ). t % n) split ∙ mul-add-mod_self_right (k / n) n (k % n + 1) in
    elim (Bool-cases (leb n (k % n + 1))) [
      | inl full ↦
          let top : k % n + 1 ≡ n = ground (arith, mod-lt k h) in
          rw full (reduced ∙ ap (λ (t : ℕ). t % n) top ∙ mod_self n)
      | inr room ↦
          let below : k % n + 1 < n = ground arith in rw room (reduced ∙ mod-eq_of_lt below)
    ]

confirm_all-keeps :
    (p : SyncProducer) (ts : List ℕ)
    → ((confirm_all p ts).overflow ≡ p.overflow) × ((confirm_all p ts).cob_id ≡ p.cob_id)
unfolding confirm_all confirm_pulse
confirm_all-keeps p [] = (refl, refl)
confirm_all-keeps p (t ∷ ts) = confirm_all-keeps p ts

peek_counter-confirm_all :
    (p : SyncProducer) (ts : List ℕ)
    → 2 ≤ p.overflow
    → p.counter ≡ 0
    → peek_counter (confirm_all p ts) ≡ count ts % p.overflow + 1
unfolding confirm_all confirm_pulse peek_counter
peek_counter-confirm_all p [] o z =
    let start : 0 % p.overflow ≡ 0 = mod-eq_of_lt (omega arith) in ground (arith, start)
peek_counter-confirm_all p (t ∷ ts) o z =
    let below : count ts % p.overflow < p.overflow = mod-lt (count ts) (omega arith) in
    ground (
      arith,
      peek_counter-confirm_all p ts o z,
      confirm_all-keeps p ts,
      suc-mod (count ts) p.overflow (omega arith),
      below,
    )

-- A producer whose counter starts at 0 numbers its pulses 1, 2, … up to the overflow value and
-- then from 1 again: after any number of accepted pulses, the next one that is due carries the
-- number of those before it, modulo the overflow value, and one. A consumer on the same COB-ID
-- reports just that counter.
pub poll_sync-counter :
    (p : SyncProducer) (ts : List ℕ) (now : ℕ) (f : CanFrame) (c : SyncConsumer)
    → 2 ≤ p.overflow
    → p.counter ≡ 0
    → c.cob_id ≡ p.cob_id
    → (poll_sync (confirm_all p ts) now).1 ≡ some f
    → (consume c f).1 ≡ some (count ts % p.overflow + 1)
unfolding poll_sync consume is_enabled
poll_sync-counter p ts now f c o z same_id e =
    ground (arith, peek_counter-confirm_all p ts o z, confirm_all-keeps p ts)
