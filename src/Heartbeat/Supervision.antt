-- ===== src/Heartbeat/Supervision.antt =====
-- What a heartbeat monitor reports over any sequence of frames and timeout checks
-- (canopen-core/src/heartbeat.rs).
use yacob.Base.{
  ℕ, ◌+◌, ◌≤◌, ◌≡◌, refl, ap, sym, ◌∙◌, arith, ◌==◌, List, [], ◌∷◌, ◌++◌, Option, some, none,
  Bool-cases, Option-cases, inl, inr,
}
use yacob.Can.{CanFrame}
use yacob.CobId.{NodeId, heartbeat, parse, heartbeat_cob}
use yacob.Nmt.{NmtState, heartbeat_byte, from_heartbeat_byte}
use yacob.CobId.RoundTrip.{build, parse-build}
use yacob.Nmt.Codec.{from_heartbeat_byte_iff}
use yacob.Heartbeat.{
  HeartbeatMonitor, HeartbeatMonitorState, disabled, waiting, alive, timed_out, HeartbeatEvent,
  started, state_changed, remote_reset, timeout, recovered, new_monitor, report, process_heartbeat,
  timeout_in, check_monitor, heartbeat_frame,
}

-- What a monitor is fed: a heartbeat frame, whose events the node takes at once, or a check.
pub data MonitorInput : Type 0 where
  frame : (node : NodeId) (state_byte now_us : ℕ) → MonitorInput
  check : (now_us : ℕ) → MonitorInput

abbrev as_list : Option HeartbeatEvent → List HeartbeatEvent
as_list none = []
as_list (some e) = e ∷ []

-- One input: the monitor after it, and the events that it reports.
unfoldable pub observe : HeartbeatMonitor → MonitorInput → HeartbeatMonitor × List HeartbeatEvent
observe m (frame node state_byte now_us) =
    let r = process_heartbeat m node state_byte now_us [] in (r.0, r.1)
observe m (check now_us) = let r = check_monitor m now_us in (r.0, as_list r.1)

unfoldable pub observe_all :
    HeartbeatMonitor → List MonitorInput → HeartbeatMonitor × List HeartbeatEvent
observe_all m [] = (m, [])
observe_all m (i ∷ is) =
    let first = observe m i in let rest = observe_all first.0 is in (rest.0, first.1 ++ rest.1)

-- How many events of a kind a report holds.
unfoldable pub timeouts : List HeartbeatEvent → ℕ
timeouts [] = 0
timeouts (timeout n ∷ es) = 1 + timeouts es
timeouts (started n s ∷ es) = timeouts es
timeouts (state_changed n a b ∷ es) = timeouts es
timeouts (remote_reset n ∷ es) = timeouts es
timeouts (recovered n s ∷ es) = timeouts es

unfoldable pub recoveries : List HeartbeatEvent → ℕ
recoveries [] = 0
recoveries (timeout n ∷ es) = recoveries es
recoveries (started n s ∷ es) = recoveries es
recoveries (state_changed n a b ∷ es) = recoveries es
recoveries (remote_reset n ∷ es) = recoveries es
recoveries (recovered n s ∷ es) = 1 + recoveries es

unfoldable pub starts : List HeartbeatEvent → ℕ
starts [] = 0
starts (timeout n ∷ es) = starts es
starts (started n s ∷ es) = 1 + starts es
starts (state_changed n a b ∷ es) = starts es
starts (remote_reset n ∷ es) = starts es
starts (recovered n s ∷ es) = starts es

-- 1 for a monitor that has timed out, and for one that has not started.
abbrev pub down : HeartbeatMonitorState → ℕ
down disabled = 0
down waiting = 0
down (alive s t) = 0
down (timed_out s t u) = 1

abbrev pub unstarted : HeartbeatMonitorState → ℕ
unstarted disabled = 1
unstarted waiting = 1
unstarted (alive s t) = 0
unstarted (timed_out s t u) = 0

timeouts-append : (xs ys : List HeartbeatEvent) → timeouts (xs ++ ys) ≡ timeouts xs + timeouts ys
unfolding timeouts
timeouts-append [] ys = omega arith
timeouts-append (timeout n ∷ xs) ys = omega (arith, timeouts-append xs ys)
timeouts-append (started n s ∷ xs) ys = timeouts-append xs ys
timeouts-append (state_changed n a b ∷ xs) ys = timeouts-append xs ys
timeouts-append (remote_reset n ∷ xs) ys = timeouts-append xs ys
timeouts-append (recovered n s ∷ xs) ys = timeouts-append xs ys

recoveries-append :
    (xs ys : List HeartbeatEvent) → recoveries (xs ++ ys) ≡ recoveries xs + recoveries ys
unfolding recoveries
recoveries-append [] ys = omega arith
recoveries-append (timeout n ∷ xs) ys = recoveries-append xs ys
recoveries-append (started n s ∷ xs) ys = recoveries-append xs ys
recoveries-append (state_changed n a b ∷ xs) ys = recoveries-append xs ys
recoveries-append (remote_reset n ∷ xs) ys = recoveries-append xs ys
recoveries-append (recovered n s ∷ xs) ys = omega (arith, recoveries-append xs ys)

starts-append : (xs ys : List HeartbeatEvent) → starts (xs ++ ys) ≡ starts xs + starts ys
unfolding starts
starts-append [] ys = omega arith
starts-append (timeout n ∷ xs) ys = starts-append xs ys
starts-append (started n s ∷ xs) ys = omega (arith, starts-append xs ys)
starts-append (state_changed n a b ∷ xs) ys = starts-append xs ys
starts-append (remote_reset n ∷ xs) ys = starts-append xs ys
starts-append (recovered n s ∷ xs) ys = starts-append xs ys

-- How the counts of the events `es` tie the states before and after them together.
record Balances (before after : HeartbeatMonitorState) (es : List HeartbeatEvent) : Type 0 where
  pub timeouts_balance : timeouts es + down before ≡ recoveries es + down after
  pub starts_balance : starts es + unstarted after ≡ unstarted before

report-Balances :
    (node : NodeId) (s : HeartbeatMonitorState) (new : NmtState) (now : ℕ)
    → Balances s (alive new now) (report node s new [])
unfolding report timeouts recoveries starts
report-Balances node disabled new now = record { timeouts_balance = refl; starts_balance = refl }
report-Balances node waiting new now = record { timeouts_balance = refl; starts_balance = refl }
report-Balances node (alive old seen) new now = record {
  timeouts_balance = ground arith;
  starts_balance = ground arith;
}
report-Balances node (timed_out old seen at) new now = record {
  timeouts_balance = ground arith;
  starts_balance = ground arith;
}

check-Balances :
    (m : HeartbeatMonitor) (s : HeartbeatMonitorState) (now : ℕ)
    → m.state ≡ s
    → Balances s (timeout_in m s now).0.state (as_list (timeout_in m s now).1)
unfolding timeout_in timeouts recoveries starts
check-Balances m disabled now e = record {
  timeouts_balance = ground arith;
  starts_balance = ground arith;
}
check-Balances m waiting now e = record {
  timeouts_balance = ground arith;
  starts_balance = ground arith;
}
check-Balances m (alive nmt seen) now e = record {
  timeouts_balance = ground arith;
  starts_balance = ground arith;
}
check-Balances m (timed_out nmt seen at) now e = record {
  timeouts_balance = ground arith;
  starts_balance = ground arith;
}

observe-Balances :
    (m : HeartbeatMonitor) (i : MonitorInput)
    → Balances m.state (observe m i).0.state (observe m i).1
unfolding observe process_heartbeat check_monitor timeouts recoveries starts
observe-Balances m (frame node byte now) = elim (Bool-cases (node == m.node_id)) [
  | inl same ↦ elim (Option-cases (from_heartbeat_byte byte)) [
    | inl unknown ↦
        rw (same, unknown) (record { timeouts_balance = omega arith; starts_balance = omega arith })
    | inr (new, known) ↦ rw (same, known) (report-Balances m.node_id m.state new now)
  ]
  | inr other ↦ rw other (record { timeouts_balance = omega arith; starts_balance = omega arith })
]
observe-Balances m (check now) = check-Balances m m.state now refl

observe_all-Balances :
    (m : HeartbeatMonitor) (is : List MonitorInput)
    → Balances m.state (observe_all m is).0.state (observe_all m is).1
unfolding observe_all timeouts recoveries starts
observe_all-Balances m [] = record { timeouts_balance = omega arith; starts_balance = omega arith }
observe_all-Balances m (i ∷ is) =
    let first = observe m i in
    let rest = observe_all first.0 is in
    let a = observe-Balances m i in
    let b = observe_all-Balances first.0 is in
    record {
      timeouts_balance = omega (
        arith,
        timeouts-append first.1 rest.1,
        recoveries-append first.1 rest.1,
        a.timeouts_balance,
        b.timeouts_balance,
      );
      starts_balance =
          omega (arith, starts-append first.1 rest.1, a.starts_balance, b.starts_balance);
    }

-- Over any sequence of frames and timeout checks, a new monitor reports as many timeouts as
-- recoveries, and one more exactly while it stands in the timed-out state; and it reports the
-- start of monitoring once it has left the waiting state, and never again.
pub observe_all-counts :
    (node : NodeId) (timeout_ms : ℕ) (is : List MonitorInput)
    → let (m, es) = observe_all (new_monitor node timeout_ms) is in
      (timeouts es ≡ recoveries es + down m.state) × (starts es + unstarted m.state ≡ 1)
unfolding new_monitor
observe_all-counts node timeout_ms is =
    let b = observe_all-Balances (new_monitor node timeout_ms) is in
    (omega (arith, b.timeouts_balance), omega (arith, b.starts_balance))

in_range : (node : NodeId) → node ≤ 127 → heartbeat_cob node ≤ 0x7FF
unfolding heartbeat_cob
in_range node h = omega arith

-- The heartbeat frame of a node is recognised by its COB-ID as that node's heartbeat, and a
-- monitor of the node is alive with the state that was sent.
pub heartbeat_frame-observed :
    (m : HeartbeatMonitor) (s : NmtState) (now : ℕ) (f : CanFrame)
    → 1 ≤ m.node_id
    → m.node_id ≤ 127
    → heartbeat_frame m.node_id s ≡ some f
    → (parse f.id ≡ heartbeat m.node_id)
      × ((observe m (frame m.node_id f.bytes.b0 now)).0.state ≡ alive s now)
unfolding heartbeat_frame observe process_heartbeat build
heartbeat_frame-observed m s now f p q e =
    let valid : heartbeat_cob m.node_id ≤ 0x7FF = in_range m.node_id q in
    let id : f.id ≡ heartbeat_cob m.node_id = ground arith in
    let byte : f.bytes.b0 ≡ heartbeat_byte s = ground arith in
    let known : from_heartbeat_byte f.bytes.b0 ≡ some s =
      (from_heartbeat_byte_iff f.bytes.b0 s).1 (sym byte) in
    (
      ap parse id ∙ parse-build (heartbeat m.node_id) (heartbeat_cob m.node_id) (p, q) refl,
      ground (arith, known),
    )
