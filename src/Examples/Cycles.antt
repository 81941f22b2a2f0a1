-- ===== src/Examples/Cycles.antt =====
-- Heartbeat, SYNC and emergencies.
use yacob.Base.{Bool, false, ℕ, ◌+◌, ◌%◌, ◌≡◌, refl, arith, true, List, [], ◌∷◌, some}
use yacob.Base.Bytes.{of_list}
use yacob.Can.{CanFrame}
use yacob.CobId.{parse, heartbeat, heartbeat_cob, emergency_cob}
use yacob.Nmt.{operational, heartbeat_byte}
use yacob.Heartbeat.{HeartbeatMonitor, waiting, alive, new_monitor, heartbeat_frame}
use yacob.Heartbeat.Supervision.{
  frame, check, observe, observe_all, timeouts, recoveries, starts, down, unstarted, MonitorInput,
  observe_all-counts, heartbeat_frame-observed,
}
use yacob.Emcy.{build_emcy_frame, parse_emcy, vendor_bytes, new_emcy}
use yacob.Emcy.Register.{
  EmcyCall, report, clear, reset, take, call_all, IsSafeCall, parse_emcy-build_emcy_frame,
  call_all-IsSafeCall,
}
use yacob.Sync.{
  reset_producer, SyncProducer, SyncConsumer, poll_sync, confirm_pulse, consume, peek_counter,
  is_enabled,
}
use yacob.Sync.Pulses.{SyncPoll, run_polls, pulse_times, run_polls-pulse_times}
use yacob.Sync.Cycle.{confirm_all, count, poll_sync-counter}

-- Node 9 is seen, falls silent, and is seen again.
abbrev watch : List MonitorInput
watch = frame 9 0x05 100 ∷ check 2000000 ∷ frame 7 0x05 2000001 ∷ frame 9 0x00 2000002 ∷ []

observe_all-counts_example :
    let (m, es) = observe_all (new_monitor 9 500) watch in
    (timeouts es ≡ recoveries es + down m.state) × (starts es + unstarted m.state ≡ 1)
observe_all-counts_example = observe_all-counts 9 500 watch

abbrev monitor : HeartbeatMonitor
monitor = record { node_id = 9; timeout_ms = 500; state = waiting }

abbrev beat : CanFrame
beat = record { id = 0x709; dlc = 1; bytes = of_list (0x05 ∷ []) }

heartbeat_frame-observed_example :
    (parse 0x709 ≡ heartbeat 9)
    × ((observe monitor (frame 9 beat.bytes.b0 100)).0.state ≡ alive operational 100)
unfolding heartbeat_frame heartbeat_cob heartbeat_byte
heartbeat_frame-observed_example =
    heartbeat_frame-observed monitor operational 100 beat (omega arith) (omega arith) refl

abbrev producer : SyncProducer
producer = record {
  cob_id = 0x80;
  interval_us = 1000;
  overflow = 3;
  last_sent_us = 0;
  armed = true;
  counter = 0;
}

abbrev listener : SyncConsumer
listener = record { cob_id = 0x80; counter = 0 }

-- The fourth pulse wraps.
abbrev fourth : CanFrame
fourth = record { id = 0x80; dlc = 1; bytes = of_list (1 ∷ []) }

abbrev sent : List ℕ
sent = 3000 ∷ 2000 ∷ 1000 ∷ []

poll_sync-counter_example : (consume listener fourth).1 ≡ some (count sent % 3 + 1)
unfolding poll_sync confirm_all confirm_pulse peek_counter is_enabled
poll_sync-counter_example =
    poll_sync-counter producer sent 4000 fourth listener (omega arith) refl refl refl

-- Polls of a producer with an interval of 1000: the first starts it, the next comes too early, the
-- transport refuses the third, and takes the fourth.
abbrev at : ℕ → Bool → SyncPoll
at now_us takes = record { now_us = now_us; takes = takes }

run_polls-pulse_times_example :
    (run_polls
      (at 10 true ∷ at 500 true ∷ at 1010 false ∷ at 1300 true ∷ [])
      (reset_producer producer)
      []).1
    ≡ pulse_times 1000 10 (at 500 true ∷ at 1010 false ∷ at 1300 true ∷ []) []
run_polls-pulse_times_example =
    run_polls-pulse_times producer (at 10 true) (at 500 true ∷ at 1010 false ∷ at 1300 true ∷ [])
      (λ e. omega arith) (omega arith) (λ e. omega arith)

abbrev generic_emcy : CanFrame
generic_emcy = record { id = 0x085; dlc = 8; bytes = of_list (0x30 ∷ 0x81 ∷ 0x11 ∷ 9 ∷ []) }

parse_emcy-build_emcy_frame_example :
    parse_emcy generic_emcy
    ≡ some (record {
      node = 5;
      error_code = 0x8130;
      error_register = 0x11;
      vendor_data = vendor_bytes (9 ∷ []);
    })
unfolding build_emcy_frame emergency_cob
parse_emcy-build_emcy_frame_example =
    parse_emcy-build_emcy_frame 5 0x8130 0x11 (9 ∷ []) generic_emcy (omega arith) (omega arith)
      (omega arith) refl

abbrev calls : List EmcyCall
calls = report 0x8130 0x10 (9 ∷ []) ∷ clear 0x01 ∷ take ∷ clear 0x10 ∷ reset ∷ []

call_all-IsSafeCall_example : IsSafeCall (call_all (new_emcy 5) calls)
call_all-IsSafeCall_example = call_all-IsSafeCall 5 calls (omega arith)
