-- ===== src/Pdo/Tpdo.antt =====
-- canopen-core/src/pdo/engine.rs: `TpdoEngine`. Its arrays of length `N`, one entry per PDO each,
-- are one list of slots here, in order.
pub mod Schedule
pub mod Timing
use yacob.Base.{
  ℕ, zero, suc, ◌+◌, ◌-◌, ◌*◌, ◌/◌, ◌%◌, ◌^◌, ◌≤◌, ◌<◌, ◌≡◌, ◌≢◌, ◌↔◌, ◌⊎◌, min, max, inl, inr,
  refl, sym, ap, ◌∙◌, arith, Bool, true, false, not, ◌&&◌, ◌||◌, if◌then◌else◌, same, ltb, leb,
  ◌==◌, bit_and, bit_or, List, [], ◌∷◌, ◌++◌, map, length, get_or, take, drop, replicate, write_at,
  contains, Option, none, some, Bool-cases, Option-cases, length-append, length-take, length-drop,
  length-replicate, length-write_at, append-nil, take-write_at, take_add, take_all, ltb→lt, lt→ltb,
  ==_iff,
}
use yacob.Base.Bytes.{
  Bytes8, IsBytes8, AllBytes, to_list, of_list, u8, u16, u32, wrapping_sub, ◌<<<◌, ◌>>>◌, has_bits,
  le_bytes32, from_le32, from_le16, low_byte, high_byte, join_bytes, from_le32_bytes,
}
use yacob.Pdo.{PdoMapping, TpdoConfig, is_empty, is_tpdo_placeholder, pdo_number_for_slot}
use yacob.Pdo.Pack.{build_pdo_frame}
use yacob.Base.Bits.{
  bit_and_mask, bit_or_fields, bit_or_low, bit_or_odd, bit_and_le, every, every_holds,
}
use yacob.Base.Results.{Result, ok, err, ◌>>=◌, ◌>>◌, map_err}
use yacob.Can.{CanFrame, new_frame, frame_data}
use yacob.Sdo.Od.{
  DataType, boolean, int8, int16, int32, uint8, uint16, uint32, real32, visible_string,
  octet_string, domain, int24, uint24, real64, int64, uint64, size, AccessType, ro, wo, const,
  OdEntryMeta, OdError, not_found, read_only, write_only, data_type_mismatch, value_too_long,
  value_range, hardware_error, abort, OdEventSource, OdEvent, ObjectDictionary, ReadFits,
  ReadWithin,
}

pub record TpdoSlot : Type 0 where
  pub pdo : TpdoConfig
  pub sync_counter : ℕ
  pub last_send_us : ℕ
  pub sync_event_pending : Bool
  pub async_event_pending : Bool

abbrev pub TpdoEngine : Type 0
TpdoEngine = List TpdoSlot

-- `TpdoEngine::new`.
abbrev pub new_slot : TpdoConfig → TpdoSlot
new_slot pdo = record {
  pdo = pdo;
  sync_counter = 0;
  last_send_us = 0;
  sync_event_pending = false;
  async_event_pending = false;
}

unfoldable pub new_tpdos : List TpdoConfig → TpdoEngine
new_tpdos = map new_slot

-- `slot_for_number` from a slot on, and `config`.
unfoldable pub tpdo_slot_from : ℕ → TpdoEngine → ℕ → Option ℕ
tpdo_slot_from slot [] number = none
tpdo_slot_from slot (s ∷ ss) number =
    if not (is_tpdo_placeholder s.pdo) && pdo_number_for_slot s.pdo.od_number slot == number
    then some slot
    else tpdo_slot_from (slot + 1) ss number

unfoldable pub tpdo_config_slot : TpdoEngine → ℕ → Option TpdoConfig
tpdo_config_slot [] slot = none
tpdo_config_slot (s ∷ ss) zero = some s.pdo
tpdo_config_slot (s ∷ ss) (suc slot) = tpdo_config_slot ss slot

unfoldable pub tpdo_config : TpdoEngine → ℕ → Option TpdoConfig
tpdo_config e number = elim (tpdo_slot_from 0 e number) [
  | none ↦ none
  | some slot ↦ tpdo_config_slot e slot
]

-- `latch_slot_event` on the slot itself, and by its index.
unfoldable pub latch_event : TpdoSlot → TpdoSlot
latch_event s =
    if not s.pdo.enabled
    then s
    else if s.pdo.transmission_type == 0
    then record s { sync_event_pending = true }
    else if s.pdo.transmission_type == 254 || s.pdo.transmission_type == 255
    then record s { async_event_pending = true }
    else s

unfoldable pub latch_slot_event : TpdoEngine → ℕ → TpdoEngine
latch_slot_event [] slot = []
latch_slot_event (s ∷ ss) zero = latch_event s ∷ ss
latch_slot_event (s ∷ ss) (suc slot) = s ∷ latch_slot_event ss slot

-- Does a mapping name the entry, and does any of a list.
abbrev pub maps : ℕ → ℕ → PdoMapping → Bool
maps index subindex m = m.index == index && m.subindex == subindex

abbrev pub any {ℓ} : {A : Type ℓ} → (A → Bool) → List A → Bool
any test [] = false
any test (x ∷ xs) = test x || any test xs

-- `notify_changed`.
unfoldable pub notify_slot : ℕ → ℕ → TpdoSlot → TpdoSlot
notify_slot index subindex s =
    if s.pdo.enabled && any (maps index subindex) s.pdo.mappings then latch_event s else s

unfoldable pub notify_changed : TpdoEngine → ℕ → ℕ → TpdoEngine
notify_changed e index subindex = map (notify_slot index subindex) e

-- `has_dirty_mapping`, with the dirty set as a list of index and subindex.
unfoldable pub has_dirty_mapping : TpdoConfig → List (ℕ × ℕ) → Bool
has_dirty_mapping pdo dirty =
    not (is_empty dirty)
    && any (λ m. any (λ d. d.0 == m.index && d.1 == m.subindex) dirty) pdo.mappings

-- `latch_sync_events`.
unfoldable pub latch_sync_slot : List (ℕ × ℕ) → TpdoSlot → TpdoSlot
latch_sync_slot dirty s =
    if s.pdo.enabled && (s.pdo.transmission_type == 0 && has_dirty_mapping s.pdo dirty)
    then record s { sync_event_pending = true }
    else s

unfoldable pub latch_sync_events : TpdoEngine → List (ℕ × ℕ) → TpdoEngine
latch_sync_events e dirty = if is_empty dirty then e else map (latch_sync_slot dirty) e

-- `discard_sync_events`, `discard_async_events` and `reset_communication_state`.
abbrev pub discard_sync_slot : TpdoSlot → TpdoSlot
discard_sync_slot s = record s { sync_event_pending = false }

abbrev pub discard_async_slot : TpdoSlot → TpdoSlot
discard_async_slot s = record s { async_event_pending = false }

abbrev pub reset_tpdo_slot : TpdoSlot → TpdoSlot
reset_tpdo_slot s = record s {
  sync_counter = 0;
  sync_event_pending = false;
  async_event_pending = false;
}

unfoldable pub discard_sync_events : TpdoEngine → TpdoEngine
discard_sync_events = map discard_sync_slot

unfoldable pub discard_async_events : TpdoEngine → TpdoEngine
discard_async_events = map discard_async_slot

unfoldable pub reset_communication_state : TpdoEngine → TpdoEngine
reset_communication_state = map reset_tpdo_slot

-- One round of `on_sync`: the frame that the SYNC makes the slot send, if any. The counter is a
-- `u8`.
unfoldable pub on_sync_slot :
    {O : Type 0} → ObjectDictionary O → O → TpdoSlot → TpdoSlot × Option CanFrame
on_sync_slot dict od s =
    let counted = u8 (s.sync_counter + 1) in
    if not s.pdo.enabled
    then (s, none)
    else if s.pdo.transmission_type == 0
    then (
      record s { sync_event_pending = false },
      if s.sync_event_pending then build_pdo_frame dict od s.pdo else none,
    )
    else if leb 1 s.pdo.transmission_type && leb s.pdo.transmission_type 240
    then (if leb s.pdo.transmission_type counted
        then (record s { sync_counter = 0 }, build_pdo_frame dict od s.pdo)
        else (record s { sync_counter = counted }, none))
    else (s, none)

-- `let _ = out.push(frame)` for a frame that was built, on a vector of `capacity` entries.
abbrev pub push_frame : ℕ → List CanFrame → Option CanFrame → List CanFrame
push_frame capacity out none = out
push_frame capacity out (some f) = if ltb (length out) capacity then out ++ f ∷ [] else out

-- `TpdoEngine::on_sync`; `capacity` is `N`.
unfoldable pub tpdo_on_sync :
    {O : Type 0}
    → ObjectDictionary O
    → O
    → ℕ
    → TpdoEngine
    → List CanFrame
    → TpdoEngine × List CanFrame
tpdo_on_sync dict od capacity [] out = ([], out)
tpdo_on_sync dict od capacity (s ∷ ss) out =
    let (s', f) = on_sync_slot dict od s in
    let (ss', out') = tpdo_on_sync dict od capacity ss (push_frame capacity out f) in
    (s' ∷ ss', out')

-- The tests of `poll_with`: the event of this cycle is latched first.
abbrev pub latch_dirty : List (ℕ × ℕ) → TpdoSlot → TpdoSlot
latch_dirty dirty s =
    if has_dirty_mapping s.pdo dirty then record s { async_event_pending = true } else s

unfoldable pub timer_trigger : TpdoSlot → ℕ → Bool
timer_trigger s now_us =
    ltb 0 s.pdo.event_timer_ms
    && leb (s.pdo.event_timer_ms * 1000) (wrapping_sub now_us s.last_send_us)

unfoldable pub is_due : TpdoSlot → ℕ → Bool
is_due s now_us =
    (s.async_event_pending || timer_trigger s now_us)
    && leb (s.pdo.inhibit_time_100us * 100) (wrapping_sub now_us s.last_send_us)

-- One round of `poll_with`; `accept` is the transport, with its state.
unfoldable pub poll_slot :
    {O S : Type 0}
    → ObjectDictionary O
    → O
    → ℕ
    → List (ℕ × ℕ)
    → (S → CanFrame → S × Bool)
    → S
    → TpdoSlot
    → TpdoSlot × S
poll_slot dict od now_us dirty accept t s =
    if not s.pdo.enabled || not (s.pdo.transmission_type == 254 || s.pdo.transmission_type == 255)
    then (s, t)
    else let s' = latch_dirty dirty s in
      if is_due s' now_us
      then elim (build_pdo_frame dict od s'.pdo) [
        | none ↦ (s', t)
        | some f ↦
            let (t', accepted) = accept t f in
            (
              (if accepted
                  then record s' { last_send_us = now_us; async_event_pending = false }
                  else s'),
              t',
            )
      ]
      else (s', t)

-- `poll_with`, and `poll` into a vector of `capacity` entries.
unfoldable pub poll_with :
    {O S : Type 0}
    → ObjectDictionary O
    → O
    → ℕ
    → List (ℕ × ℕ)
    → (S → CanFrame → S × Bool)
    → S
    → TpdoEngine
    → TpdoEngine × S
poll_with dict od now_us dirty accept t [] = ([], t)
poll_with dict od now_us dirty accept t (s ∷ ss) =
    let (s', t') = poll_slot dict od now_us dirty accept t s in
    let (ss', t'') = poll_with dict od now_us dirty accept t' ss in (s' ∷ ss', t'')

abbrev pub push_accepts : ℕ → List CanFrame → CanFrame → List CanFrame × Bool
push_accepts capacity out f =
    if ltb (length out) capacity then (out ++ f ∷ [], true) else (out, false)

unfoldable pub poll_tpdos :
    {O : Type 0}
    → ObjectDictionary O
    → O
    → ℕ
    → List (ℕ × ℕ)
    → ℕ
    → List CanFrame
    → TpdoEngine
    → TpdoEngine × List CanFrame
poll_tpdos dict od now_us dirty capacity out e =
    poll_with dict od now_us dirty (push_accepts capacity) out e

-- `config_slot_mut`, as the update that the caller makes through it.
unfoldable pub update_tpdo_config : TpdoEngine → ℕ → (TpdoConfig → TpdoConfig) → TpdoEngine
update_tpdo_config [] slot change = []
update_tpdo_config (s ∷ ss) zero change = record s { pdo = change s.pdo } ∷ ss
update_tpdo_config (s ∷ ss) (suc slot) change = s ∷ update_tpdo_config ss slot change
