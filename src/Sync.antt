-- ===== src/Sync.antt =====
-- canopen-core/src/sync.rs: the SYNC COB-ID, the consumer, the window and the producer.
pub mod Cycle
pub mod Pulses
use yacob.Base.{
  ℕ, ◌+◌, ◌≡◌, Bool, true, false, not, ◌&&◌, ◌||◌, if◌then◌else◌, ltb, leb, ◌==◌, bit_and, bit_or,
  List, [], ◌∷◌, get_or, Option, some, none,
}
use yacob.Base.Bytes.{u8, u16, has_bits, wrapping_sub}
use yacob.Can.{CanFrame, new_frame, frame_data}

-- `is_supported_sync_cob_id`, with the masks
-- `SYNC_FRAME_29BIT | SYNC_COB_ID_RESERVED` joined into one number.
unfoldable pub is_supported_sync_cob_id : ℕ → Bool
is_supported_sync_cob_id raw = not (has_bits raw 0xBFFF_F800) && has_bits raw 0x7FF

unfoldable pub is_valid_sync_counter_overflow : ℕ → Bool
is_valid_sync_counter_overflow value = value == 0 || (leb 2 value && leb value 240)

pub record SyncCobId : Type 0 where
  pub cob_id : ℕ
  pub produce : Bool

-- `SyncCobId::from_raw` and `to_raw`; bit 30 is `SYNC_GEN`.
unfoldable pub from_raw : ℕ → Option SyncCobId
from_raw raw =
    if not (is_supported_sync_cob_id raw)
    then none
    else some (record { cob_id = u16 (bit_and raw 0x7FF); produce = has_bits raw 0x4000_0000 })

unfoldable pub to_raw : SyncCobId → ℕ
to_raw s = bit_or s.cob_id (if s.produce then 0x4000_0000 else 0)

pub record SyncConsumer : Type 0 where
  pub cob_id : ℕ
  pub counter : ℕ

-- `SyncConsumer::new`, `cob_id`, `set_cob_id` and `reset`.
unfoldable pub new_consumer : ℕ → SyncConsumer
new_consumer cob_id = record { cob_id = cob_id; counter = 0 }

unfoldable pub consumer_cob_id : SyncConsumer → Option ℕ
consumer_cob_id c = if c.cob_id == 0 then none else some c.cob_id

unfoldable pub set_cob_id : SyncConsumer → ℕ → SyncConsumer
set_cob_id c cob_id =
    if not (c.cob_id == cob_id) then record { cob_id = cob_id; counter = 0 } else c

unfoldable pub reset_consumer : SyncConsumer → SyncConsumer
reset_consumer c = record c { counter = 0 }

-- `SyncConsumer::process`.
unfoldable pub consume : SyncConsumer → CanFrame → SyncConsumer × Option ℕ
consume c f =
    let carried = get_or (frame_data f) 0 0 in
    let counted = u8 (c.counter + 1) in
    if c.cob_id == 0 || (not (f.id == c.cob_id) || ltb 1 f.dlc)
    then (c, none)
    else if f.dlc == 1
    then (record c { counter = carried }, some carried)
    else (record c { counter = counted }, some counted)

pub record SyncWindow : Type 0 where
  pub length_us : ℕ
  pub opened_at_us : ℕ
  pub active : Bool

-- `SyncWindow::new`, `configure`, `open`, `reset` and `allows_transmit`.
unfoldable pub new_window : SyncWindow
new_window = record { length_us = 0; opened_at_us = 0; active = false }

unfoldable pub configure_window : SyncWindow → ℕ → SyncWindow
configure_window w length_us = record w { length_us = length_us }

unfoldable pub open_window : SyncWindow → ℕ → SyncWindow
open_window w now_us = record w { opened_at_us = now_us; active = true }

unfoldable pub reset_window : SyncWindow → SyncWindow
reset_window w = record w { opened_at_us = 0; active = false }

unfoldable pub allows_transmit : SyncWindow → ℕ → Bool
allows_transmit w now_us =
    w.active && (w.length_us == 0 || leb (wrapping_sub now_us w.opened_at_us) w.length_us)

pub record SyncProducer : Type 0 where
  pub cob_id : ℕ
  pub interval_us : ℕ
  pub overflow : ℕ
  pub last_sent_us : ℕ
  pub armed : Bool
  pub counter : ℕ

-- `SyncProducer::new`, `configure`, `is_enabled`, `interval_us` and `reset`.
unfoldable pub new_sync_producer : SyncProducer
new_sync_producer = record {
  cob_id = 0;
  interval_us = 0;
  overflow = 0;
  last_sent_us = 0;
  armed = false;
  counter = 0;
}

unfoldable pub configure : SyncProducer → ℕ → ℕ → ℕ → SyncProducer
configure p cob_id interval_us overflow =
    if p.cob_id == cob_id && (p.interval_us == interval_us && p.overflow == overflow)
    then p
    else record p {
      cob_id = cob_id;
      interval_us = interval_us;
      overflow = overflow;
      armed = false;
      counter = 0;
    }

unfoldable pub is_enabled : SyncProducer → Bool
is_enabled p = not (p.cob_id == 0) && not (p.interval_us == 0)

unfoldable pub producing_interval_us : SyncProducer → ℕ
producing_interval_us p = if is_enabled p then p.interval_us else 0

unfoldable pub reset_producer : SyncProducer → SyncProducer
reset_producer p = record p { armed = false; last_sent_us = 0; counter = 0 }

-- `peek_counter`; the sum stays below the overflow value, a `u8`.
unfoldable pub peek_counter : SyncProducer → ℕ
peek_counter p = if leb p.overflow p.counter then 1 else p.counter + 1

-- `SyncProducer::poll` and `confirm_sent`.
unfoldable pub poll_sync : SyncProducer → ℕ → SyncProducer × Option CanFrame
poll_sync p now_us =
    if not (is_enabled p)
    then (p, none)
    else if not p.armed
    then (record p { armed = true; last_sent_us = now_us }, none)
    else if ltb (wrapping_sub now_us p.last_sent_us) p.interval_us
    then (p, none)
    else if leb 2 p.overflow
    then (p, new_frame p.cob_id (peek_counter p ∷ []))
    else (p, new_frame p.cob_id [])

unfoldable pub confirm_pulse : SyncProducer → ℕ → SyncProducer
confirm_pulse p now_us = record p {
  last_sent_us = now_us;
  counter = if leb 2 p.overflow then peek_counter p else p.counter;
}
