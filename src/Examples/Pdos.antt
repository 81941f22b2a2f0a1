-- ===== src/Examples/Pdos.antt =====
-- Process data: a dictionary that keeps one 16-bit number, and PDOs that map it.
use yacob.Base.{
  ℕ, ◌/◌, ◌%◌, ◌<◌, ◌≡◌, inl, inr, refl, arith, Bool, true, false, if◌then◌else◌, ltb, List, [],
  ◌∷◌, ◌++◌, length, get_or, write_at, none, length-write_at,
}
use yacob.Base.Bytes.{of_list, from_le16}
use yacob.Base.Results.{Result, ok, err}
use yacob.Can.{CanFrame, frame_data}
use yacob.Sdo.Od.{OdError, value_too_long, ObjectDictionary}
use yacob.Base.Slices.{AllBytes-write_at}
use yacob.Pdo.{
  PdoMapping, TpdoConfig, RpdoConfig, is_dummy_mapping_index, bytes_for_bits, raw_is_synchronous,
}
use yacob.Pdo.Bits.{copy_pdo_bits, copy_each_bit, set_bit, clear_bit}
use yacob.Pdo.Pack.{pack, build_pdo_frame, apply_mapped}
use yacob.Pdo.Payload.{ReadBytes, samples}
use yacob.Pdo.Transfer.{deliver, apply_mapped-build_pdo_frame}
use yacob.Pdo.Tpdo.{TpdoSlot, notify_slot}
use yacob.Pdo.Tpdo.Schedule.{sync_pulses, schedule, sync_pulses-schedule}
use yacob.Pdo.Tpdo.Timing.{Poll, Spaced, poll_all, poll_all-Spaced, poll_all-delivers}
use yacob.Pdo.Rpdo.{RpdoEngine, rpdo_on_sync}
use yacob.Pdo.Rpdo.Deferred.{receive_all, commit_latest, frames, receive_all-Deferred}

unfoldable read_word : ℕ → ℕ → ℕ → List ℕ → Result ℕ OdError × List ℕ
read_word n index subindex buf =
    if ltb (length buf) 2
    then (err value_too_long, buf)
    else (ok 2, write_at buf 0 (n % 256 ∷ n / 256 % 256 ∷ []))

abbrev words : ObjectDictionary ℕ
words = record {
  lookup = λ od index subindex. none;
  read = read_word;
  write = λ od index subindex bytes. (ok tt, from_le16 (get_or bytes 0 0) (get_or bytes 1 0));
  sub_count = λ od index. none;
  validate_write = λ od index subindex bytes. ok tt;
}

words-ReadBytes : ReadBytes words
unfolding read_word
words-ReadBytes = record {
  keeps_length = λ od index subindex buf.
      ground (arith, length-write_at buf 0 (od % 256 ∷ od / 256 % 256 ∷ []));
  keeps_bytes = λ od index subindex buf h. ground (
    arith,
    h,
    AllBytes-write_at buf 0 (od % 256 ∷ od / 256 % 256 ∷ []) h (omega arith, (omega arith, _)),
  );
}

abbrev entry : ℕ → ℕ → PdoMapping
entry index bits = record { index = index; subindex = 1; bit_length = bits }

-- A gap of four bits, and then twelve bits of the word.
abbrev mapped : List PdoMapping
mapped = entry 5 4 ∷ entry 0x6401 12 ∷ []

abbrev transmitter : ℕ → TpdoConfig
transmitter kind = record {
  od_number = 1;
  cob_id = 0x185;
  transmission_type = kind;
  inhibit_time_100us = 50;
  event_timer_ms = 0;
  mappings = mapped;
  enabled = true;
}

abbrev receiver : ℕ → RpdoConfig
receiver kind = record {
  od_number = 1;
  cob_id = 0x185;
  transmission_type = kind;
  deadline_ms = 0;
  mappings = mapped;
  enabled = true;
}

abbrev sample_frame : CanFrame
sample_frame = record { id = 0x185; dlc = 2; bytes = of_list (0x40 ∷ 0x23 ∷ []) }

apply_mapped-build_pdo_frame_example :
    apply_mapped words 4 (receiver 255) (frame_data sample_frame) 0 []
    ≡ deliver words 4 mapped
        (samples words 0x1234 mapped)
        (record { od = 0; events = []; dropped = 0 })
unfolding build_pdo_frame pack copy_pdo_bits copy_each_bit set_bit clear_bit write_at read_word
    is_dummy_mapping_index bytes_for_bits
apply_mapped-build_pdo_frame_example =
    apply_mapped-build_pdo_frame words words 4 (transmitter 255) (receiver 255) 0x1234 0 []
      sample_frame words-ReadBytes (refl, (refl, _)) refl

abbrev slot : ℕ → TpdoSlot
slot kind = record {
  pdo = transmitter kind;
  sync_counter = 1;
  last_send_us = 1000;
  sync_event_pending = true;
  async_event_pending = false;
}

-- One cyclic and one acyclic TPDO, over three pulses.
sync_pulses-schedule_example :
    sync_pulses words 2 (slot 3 ∷ slot 0 ∷ []) (1 ∷ 2 ∷ 3 ∷ [])
    ≡ schedule words (slot 3 ∷ slot 0 ∷ []) 0 (1 ∷ 2 ∷ 3 ∷ [])
sync_pulses-schedule_example =
    sync_pulses-schedule words 2 (slot 3 ∷ slot 0 ∷ []) (1 ∷ 2 ∷ 3 ∷ [])
      (inr (inr (omega arith)), (inl refl, _)) (omega arith)

-- The word changes, too early to be sent and then while the transport is busy.
abbrev cycle : ℕ → Bool → Poll ℕ
cycle now_us takes = record {
  now_us = now_us;
  od = 0x1234;
  dirty = (0x6401, 1) ∷ [];
  takes = takes;
}

poll_all-Spaced_example :
    Spaced 5000 1000 (poll_all words (cycle 2000 true ∷ cycle 6500 true ∷ []) (slot 255) []).1
poll_all-Spaced_example = poll_all-Spaced words (cycle 2000 true ∷ cycle 6500 true ∷ []) (slot 255)

poll_all-delivers_example :
    0
    < length
        (poll_all words
          ((cycle 2000 true ∷ cycle 6500 false ∷ []) ++ cycle 7000 true ∷ [])
          (notify_slot 0x6401 1 (slot 255))
          []).1
unfolding build_pdo_frame pack copy_pdo_bits copy_each_bit set_bit clear_bit write_at read_word
    is_dummy_mapping_index bytes_for_bits
poll_all-delivers_example =
    poll_all-delivers words (cycle 2000 true ∷ cycle 6500 false ∷ []) (cycle 7000 true) (slot 255)
      0x6401 1 sample_frame refl refl refl (omega arith) refl refl

abbrev receiving : RpdoEngine
receiving = record {
  slots =
      record { pdo = receiver 1; pending = none; last_rx_us = 0; armed = false; expired = false }
      ∷ [];
  length_errors = 0;
}

abbrev arrivals : List (CanFrame × ℕ)
arrivals =
    (sample_frame, 10)
    ∷ (record sample_frame { bytes = of_list (0x50 ∷ 0x45 ∷ []) }, 20)
    ∷ (record sample_frame { dlc = 1 }, 30)
    ∷ []

receive_all-Deferred_example :
    let (e, od, events) = receive_all words 4 arrivals receiving 7 [] in
    (od ≡ 7)
    × (events ≡ [])
    × ((rpdo_on_sync words 4 e.slots (record { od = 7; events = []; dropped = 0 })).1
        ≡ commit_latest words 4 receiving.slots
            (frames arrivals)
            (record { od = 7; events = []; dropped = 0 }))
unfolding raw_is_synchronous
receive_all-Deferred_example =
    receive_all-Deferred words 4 arrivals receiving 7 []
      (record { od = 7; events = []; dropped = 0 }) (refl, _)
