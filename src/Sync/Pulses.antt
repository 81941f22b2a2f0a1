-- ===== src/Sync/Pulses.antt =====
-- When a SYNC producer sends (canopen-core/src/sync.rs, `SyncProducer::poll` and `confirm_sent`).
use yacob.Base.{
  ℕ, ◌≤◌, ◌≡◌, ◌≢◌, refl, arith, Bool, true, ◌&&◌, if◌then◌else◌, leb, List, [], ◌∷◌, Option, none,
  some,
}
use yacob.Base.Bytes.{wrapping_sub}
use yacob.Can.{CanFrame}
use yacob.Sync.{SyncProducer, is_enabled, poll_sync, confirm_pulse, reset_producer}

-- One poll: the time, and whether the transport takes the frame, if there is one.
pub record SyncPoll : Type 0 where
  pub now_us : ℕ
  pub takes : Bool

-- A frame that the transport takes is confirmed, as `Node::process` does. The times of the frames
-- that were taken are logged, the last one first.
abbrev pub offer : SyncProducer → Option CanFrame → SyncPoll → List ℕ → SyncProducer × List ℕ
offer p none poll log = (p, log)
offer p (some f) poll log =
    if poll.takes then (confirm_pulse p poll.now_us, poll.now_us ∷ log) else (p, log)

unfoldable pub run_polls : List SyncPoll → SyncProducer → List ℕ → SyncProducer × List ℕ
run_polls [] p log = (p, log)
run_polls (poll ∷ polls) p log =
    let (p', frame) = poll_sync p poll.now_us in
    let (p'', log') = offer p' frame poll log in run_polls polls p'' log'

-- The times at which pulses are sent: whenever the transport takes a frame and an interval has
-- passed since the last pulse, or since the start where there is none.
abbrev pub last_pulse : ℕ → List ℕ → ℕ
last_pulse start [] = start
last_pulse start (t ∷ log) = t

unfoldable pub pulse_times : ℕ → ℕ → List SyncPoll → List ℕ → List ℕ
pulse_times interval start [] log = log
pulse_times interval start (poll ∷ polls) log =
    if poll.takes && leb interval (wrapping_sub poll.now_us (last_pulse start log))
    then pulse_times interval start polls (poll.now_us ∷ log)
    else pulse_times interval start polls log

-- The state of a running producer, as far as it decides when to send.
record IsRunning (interval start : ℕ) (log : List ℕ) (p : SyncProducer) : Type 0 where
  served : p.cob_id ≤ 0x7FF
  named : p.cob_id ≢ 0
  timed : p.interval_us ≡ interval
  positive : interval ≢ 0
  armed : p.armed ≡ true
  last : p.last_sent_us ≡ last_pulse start log

next_log : ℕ → ℕ → SyncPoll → List ℕ → List ℕ
next_log interval start poll log =
    if poll.takes && leb interval (wrapping_sub poll.now_us (last_pulse start log))
    then poll.now_us ∷ log
    else log

poll-IsRunning :
    (interval start : ℕ) (poll : SyncPoll) (p : SyncProducer) (log : List ℕ)
    → IsRunning interval start log p
    → let (p', frame) = poll_sync p poll.now_us in
      let (p'', log') = offer p' frame poll log in
      (log' ≡ next_log interval start poll log) × IsRunning interval start log' p''
unfolding poll_sync is_enabled confirm_pulse next_log
poll-IsRunning interval start poll p log r =
    ground (arith, r.served, r.named, r.timed, r.positive, r.armed, r.last)

run_polls-IsRunning :
    (interval start : ℕ) (polls : List SyncPoll) (p : SyncProducer) (log : List ℕ)
    → IsRunning interval start log p
    → (run_polls polls p log).1 ≡ pulse_times interval start polls log
unfolding run_polls pulse_times next_log
run_polls-IsRunning interval start [] p log r = refl
run_polls-IsRunning interval start (poll ∷ polls) p log r =
    let (p', frame) = poll_sync p poll.now_us in
    let (p'', log') = offer p' frame poll log in
    let (same, running) = poll-IsRunning interval start poll p log r in
    let rest = run_polls-IsRunning interval start polls p'' log' running in
    ground (arith, rest, same)

-- A producer that is enabled on an 11-bit COB-ID, and that was reset, does not send at its first
-- poll. From then on, whatever the polls and whichever frames the transport takes, it sends at
-- exactly those polls where the transport takes a frame and at least one interval has passed since
-- its last pulse, or since the first poll where there is none.
pub run_polls-pulse_times :
    (p : SyncProducer) (first : SyncPoll) (polls : List SyncPoll)
    → p.cob_id ≢ 0
    → p.cob_id ≤ 0x7FF
    → p.interval_us ≢ 0
    → (run_polls (first ∷ polls) (reset_producer p) []).1
      ≡ pulse_times p.interval_us first.now_us polls []
unfolding run_polls poll_sync is_enabled reset_producer
run_polls-pulse_times p first polls named served positive =
    let armed : SyncProducer = record p {
      armed = true;
      last_sent_us = first.now_us;
      counter = 0;
    } in
    let running = run_polls-IsRunning p.interval_us first.now_us polls armed [] (record {
      served = served;
      named = named;
      timed = refl;
      positive = positive;
      armed = refl;
      last = refl;
    }) in
    ground (arith, named, positive, running)
