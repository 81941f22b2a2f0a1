-- ===== src/Pdo/Rpdo.antt =====
-- canopen-core/src/pdo/engine.rs: `RpdoEngine`. Its arrays of length `N` are one list of slots.
pub mod Deferred
use yacob.Base.{
  ℕ, zero, suc, ◌+◌, ◌-◌, ◌*◌, ◌/◌, ◌%◌, ◌^◌, ◌≤◌, ◌<◌, ◌≡◌, ◌≢◌, ◌↔◌, ◌⊎◌, min, max, inl, inr,
  refl, sym, ap, ◌∙◌, arith, Bool, true, false, not, ◌&&◌, ◌||◌, if◌then◌else◌, same, ltb, leb,
  ◌==◌, bit_and, bit_or, List, [], ◌∷◌, ◌++◌, map, length, get_or, take, drop, replicate, write_at,
  contains, Option, none, some, Bool-cases, Option-cases, length-append, length-take, length-drop,
  length-replicate, length-write_at, append-nil, take-write_at, take_add, take_all, ltb→lt, lt→ltb,
  ==_iff,
}
use yacob.Base.Bytes.{
  Bytes8, IsBytes8, AllBytes, to_list, of_list, u8, u16, u32, wrapping_sub, ◌<<<◌, ◌>>>◌, has_bits,
  le_bytes32, from_le32, from_le16, low_byte, high_byte, join_bytes, from_le32_bytes,
}
use yacob.Base.Bits.{
  bit_and_mask, bit_or_fields, bit_or_low, bit_or_odd, bit_and_le, every, every_holds,
}
use yacob.Base.Results.{Result, ok, err, ◌>>=◌, ◌>>◌, map_err}
use yacob.Can.{CanFrame, new_frame, frame_data}
use yacob.Sdo.Od.{
  DataType, boolean, int8, int16, int32, uint8, uint16, uint32, real32, visible_string,
  octet_string, domain, int24, uint24, real64, int64, uint64, size, AccessType, ro, wo, const,
  OdEntryMeta, OdError, not_found, read_only, write_only, data_type_mismatch, value_too_long,
  value_range, hardware_error, abort, OdEventSource, OdEvent, ObjectDictionary, ReadFits,
  ReadWithin,
}
use yacob.Pdo.{
  RpdoConfig, mapped_payload_len, raw_is_synchronous, is_rpdo_placeholder, pdo_number,
  pdo_number_for_slot,
}
use yacob.Pdo.Pack.{Sink, apply_mapped, saturating_add32}

pub record RpdoSlot : Type 0 where
  pub pdo : RpdoConfig
  pub pending : Option CanFrame
  pub last_rx_us : ℕ
  pub armed : Bool
  pub expired : Bool

pub record RpdoEngine : Type 0 where
  pub slots : List RpdoSlot
  pub length_errors : ℕ

-- `RpdoEngine::new`.
abbrev pub new_rpdo_slot : RpdoConfig → RpdoSlot
new_rpdo_slot pdo = record {
  pdo = pdo;
  pending = none;
  last_rx_us = 0;
  armed = false;
  expired = false;
}

unfoldable pub new_rpdos : List RpdoConfig → RpdoEngine
new_rpdos pdos = record { slots = map new_rpdo_slot pdos; length_errors = 0 }

-- `slot_for_number` from a slot on, `config_slot` and `config_slot_mut`.
unfoldable pub rpdo_slot_from : ℕ → List RpdoSlot → ℕ → Option ℕ
rpdo_slot_from slot [] number = none
rpdo_slot_from slot (s ∷ ss) number =
    if not (is_rpdo_placeholder s.pdo) && pdo_number_for_slot s.pdo.od_number slot == number
    then some slot
    else rpdo_slot_from (slot + 1) ss number

unfoldable pub slot_at : List RpdoSlot → ℕ → Option RpdoSlot
slot_at [] slot = none
slot_at (s ∷ ss) zero = some s
slot_at (s ∷ ss) (suc slot) = slot_at ss slot

unfoldable pub update_rpdo_config : List RpdoSlot → ℕ → (RpdoConfig → RpdoConfig) → List RpdoSlot
update_rpdo_config [] slot change = []
update_rpdo_config (s ∷ ss) zero change = record s { pdo = change s.pdo } ∷ ss
update_rpdo_config (s ∷ ss) (suc slot) change = s ∷ update_rpdo_config ss slot change

-- The test of `position` in `process_with_drop_count`.
abbrev pub receives : CanFrame → RpdoSlot → Bool
receives f s = s.pdo.enabled && f.id == s.pdo.cob_id

-- `mapped_payload_len(..).is_none_or(|len| frame.data().len() < len)`.
unfoldable pub is_too_short : RpdoConfig → CanFrame → Bool
is_too_short pdo f = elim (mapped_payload_len pdo) [
  | none ↦ true
  | some len ↦ ltb (length (frame_data f)) len
]

-- A reception on the slot: the deadline is stamped, and a synchronous PDO keeps the frame.
unfoldable pub receive_slot : RpdoSlot → CanFrame → ℕ → RpdoSlot
receive_slot s f now_us =
    let stamped : RpdoSlot = record s { last_rx_us = now_us; armed = true; expired = false } in
    if raw_is_synchronous s.pdo.transmission_type
    then record stamped { pending = some f }
    else stamped

-- The outcome of `process_with_drop_count`: the engine, what it changed outside, and whether the
-- frame was consumed.
pub record Received (O : Type 0) : Type 0 where
  pub slots : List RpdoSlot
  pub length_errors : ℕ
  pub sink : Sink O
  pub consumed : Bool

abbrev pub saturating_inc32 : ℕ → ℕ
saturating_inc32 n = min (n + 1) (2 ^ 32 - 1)

-- `process_with_drop_count`, from a slot on.
unfoldable pub receive_rpdo :
    {O : Type 0}
    → ObjectDictionary O
    → ℕ
    → CanFrame
    → ℕ
    → O
    → List OdEvent
    → ℕ
    → List RpdoSlot
    → Received O
receive_rpdo dict capacity f now_us od events errors [] = record {
  slots = [];
  length_errors = errors;
  sink = record { od = od; events = events; dropped = 0 };
  consumed = false;
}
receive_rpdo dict capacity f now_us od events errors (s ∷ ss) =
    let kept : Sink _ = record { od = od; events = events; dropped = 0 } in
    let rest = receive_rpdo dict capacity f now_us od events errors ss in
    if not (receives f s)
    then record rest { slots = s ∷ rest.slots }
    else if is_too_short s.pdo f
    then record {
      slots = s ∷ ss;
      length_errors = saturating_inc32 errors;
      sink = kept;
      consumed = true;
    }
    else record {
      slots = receive_slot s f now_us ∷ ss;
      length_errors = errors;
      sink =
          if raw_is_synchronous s.pdo.transmission_type
          then kept
          else apply_mapped dict capacity s.pdo (frame_data f) od events;
      consumed = true;
    }

unfoldable pub process_rpdo :
    {O : Type 0}
    → ObjectDictionary O
    → ℕ
    → RpdoEngine
    → CanFrame
    → O
    → List OdEvent
    → ℕ
    → RpdoEngine × Sink O × Bool
process_rpdo dict capacity e f od events now_us =
    let r = receive_rpdo dict capacity f now_us od events e.length_errors e.slots in
    (record { slots = r.slots; length_errors = r.length_errors }, r.sink, r.consumed)

-- `RpdoEngine::on_sync`: the buffered frames are applied in slot order.
unfoldable pub rpdo_on_sync :
    {O : Type 0} → ObjectDictionary O → ℕ → List RpdoSlot → Sink O → List RpdoSlot × Sink O
rpdo_on_sync dict capacity [] t = ([], t)
rpdo_on_sync dict capacity (s ∷ ss) t = elim s.pending [
  | none ↦ let (ss', t') = rpdo_on_sync dict capacity ss t in (s ∷ ss', t')
  | some f ↦
      let applied = apply_mapped dict capacity s.pdo (frame_data f) t.od t.events in
      let (ss', t') =
        rpdo_on_sync dict capacity ss
          (record applied { dropped = saturating_add32 t.dropped applied.dropped }) in
      (record s { pending = none } ∷ ss', t')
]

-- `has_pending`, `discard_pending`.
abbrev pub is_some {ℓ} : {A : Type ℓ} → Option A → Bool
is_some none = false
is_some (some a) = true

unfoldable pub has_pending : RpdoEngine → ℕ → Bool
has_pending e number = elim (rpdo_slot_from 0 e.slots number) [
  | none ↦ false
  | some slot ↦ elim (slot_at e.slots slot) [ none ↦ false | some s ↦ is_some s.pending ]
]

abbrev pub discard_pending_slot : RpdoSlot → RpdoSlot
discard_pending_slot s = record s { pending = none }

unfoldable pub discard_pending : RpdoEngine → RpdoEngine
discard_pending e = record e { slots = map discard_pending_slot e.slots }

-- One round of `check_deadlines`: has the deadline just expired?
unfoldable pub newly_expired : RpdoSlot → ℕ → Bool
newly_expired s now_us =
    s.pdo.enabled
    && (not (s.pdo.deadline_ms == 0)
        && (s.armed
            && (not s.expired
                && ltb (s.pdo.deadline_ms * 1000) (wrapping_sub now_us s.last_rx_us))))

unfoldable pub check_slot : RpdoSlot → ℕ → RpdoSlot
check_slot s now_us = if newly_expired s now_us then record s { expired = true } else s

-- `check_deadlines` from a slot on, with the vector of numbers bounded by `capacity`.
abbrev pub push_number : ℕ → List ℕ → Option ℕ → List ℕ
push_number capacity out none = out
push_number capacity out (some n) = if ltb (length out) capacity then out ++ n ∷ [] else out

unfoldable pub check_deadlines : ℕ → ℕ → List RpdoSlot → ℕ → List ℕ → List RpdoSlot × List ℕ
check_deadlines capacity slot [] now_us out = ([], out)
check_deadlines capacity slot (s ∷ ss) now_us out =
    let reported =
      if newly_expired s now_us
      then pdo_number (pdo_number_for_slot s.pdo.od_number slot)
      else none in
    let (ss', out') =
      check_deadlines capacity (slot + 1) ss now_us (push_number capacity out reported) in
    (check_slot s now_us ∷ ss', out')

-- `deadline_expired_slot` on the slot itself, and `deadline_expired`.
unfoldable pub is_deadline_expired : RpdoSlot → Bool
is_deadline_expired s = s.pdo.enabled && (ltb 0 s.pdo.deadline_ms && (not s.armed || s.expired))

unfoldable pub deadline_expired : RpdoEngine → ℕ → Bool
deadline_expired e number = elim (rpdo_slot_from 0 e.slots number) [
  | none ↦ false
  | some slot ↦ elim (slot_at e.slots slot) [ none ↦ false | some s ↦ is_deadline_expired s ]
]

-- `reset_deadline_monitoring`.
abbrev pub reset_deadline_slot : RpdoSlot → RpdoSlot
reset_deadline_slot s = record s { armed = false; expired = false }

unfoldable pub reset_deadline_monitoring : RpdoEngine → RpdoEngine
reset_deadline_monitoring e = record e { slots = map reset_deadline_slot e.slots }
