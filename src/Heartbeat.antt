-- ===== src/Heartbeat.antt =====
-- canopen-core/src/heartbeat.rs: the heartbeat producer and the monitor of one remote node.
-- Where the code unwraps a frame, `none` for the frame is the panic.
pub mod Supervision
use yacob.Base.{
  ℕ, ◌+◌, ◌*◌, ◌/◌, Bool, true, false, not, ◌&&◌, if◌then◌else◌, ltb, leb, ◌==◌, List, [], ◌∷◌,
  ◌++◌, length, Option, some, none,
}
use yacob.Base.Bytes.{u16, wrapping_sub}
use yacob.Can.{CanFrame, new_frame}
use yacob.CobId.{NodeId, heartbeat_cob}
use yacob.Nmt.{NmtState, initializing, heartbeat_byte, from_heartbeat_byte, same_state}

pub record HeartbeatProducer : Type 0 where
  pub node_id : NodeId
  pub interval_us : ℕ
  pub last_sent_us : ℕ

-- `HeartbeatProducer::new`, `set_interval_ms` and `interval_ms`.
unfoldable pub new_producer : NodeId → ℕ → HeartbeatProducer
new_producer node interval_ms = record {
  node_id = node;
  interval_us = interval_ms * 1000;
  last_sent_us = 0;
}

unfoldable pub set_interval_ms : HeartbeatProducer → ℕ → HeartbeatProducer
set_interval_ms p ms = record p { interval_us = ms * 1000 }

unfoldable pub interval_ms : HeartbeatProducer → ℕ
interval_ms p = u16 (p.interval_us / 1000)

-- `CanFrame::new(cob.raw(), &[state.heartbeat_byte()])`.
unfoldable pub heartbeat_frame : NodeId → NmtState → Option CanFrame
heartbeat_frame node state = new_frame (heartbeat_cob node) (heartbeat_byte state ∷ [])

-- `pending`: the frame that is due, if one is.
unfoldable pub pending : HeartbeatProducer → ℕ → NmtState → Option (Option CanFrame)
pending p now_us state =
    if p.interval_us == 0
    then none
    else if leb p.interval_us (wrapping_sub now_us p.last_sent_us)
    then some (heartbeat_frame p.node_id state)
    else none

-- `confirm_sent`.
unfoldable pub confirm_sent : HeartbeatProducer → ℕ → HeartbeatProducer
confirm_sent p now_us = record p { last_sent_us = now_us }

-- `poll`.
unfoldable pub poll :
    HeartbeatProducer → ℕ → NmtState → HeartbeatProducer × Option (Option CanFrame)
poll p now_us state = elim (pending p now_us state) [
  | some f ↦ (confirm_sent p now_us, some f)
  | none ↦ (p, none)
]

-- `send_boot`.
unfoldable pub send_boot : HeartbeatProducer → ℕ → HeartbeatProducer × Option CanFrame
send_boot p now_us = (record p { last_sent_us = now_us }, heartbeat_frame p.node_id initializing)

pub data HeartbeatMonitorState : Type 0 where
  disabled waiting : HeartbeatMonitorState
  alive : (nmt_state : NmtState) (last_seen_us : ℕ) → HeartbeatMonitorState
  timed_out : (last_nmt_state : NmtState) (last_seen_us timed_out_us : ℕ) → HeartbeatMonitorState

unfoldable pub is_alive : HeartbeatMonitorState → Bool
is_alive disabled = false
is_alive waiting = false
is_alive (alive s t) = true
is_alive (timed_out s t u) = false

pub data HeartbeatEvent : Type 0 where
  started : NodeId → NmtState → HeartbeatEvent
  state_changed : (node : NodeId) (old new : NmtState) → HeartbeatEvent
  remote_reset : NodeId → HeartbeatEvent
  timeout : NodeId → HeartbeatEvent
  recovered : NodeId → NmtState → HeartbeatEvent

pub record HeartbeatMonitor : Type 0 where
  pub node_id : NodeId
  pub timeout_ms : ℕ
  pub state : HeartbeatMonitorState

-- `HeartbeatMonitor::new`.
unfoldable pub new_monitor : NodeId → ℕ → HeartbeatMonitor
new_monitor node timeout_ms = record { node_id = node; timeout_ms = timeout_ms; state = waiting }

-- `let _ = events.push(e)` on a vector of two entries: what does not fit is dropped.
abbrev pub push : List HeartbeatEvent → HeartbeatEvent → List HeartbeatEvent
push events e = if ltb (length events) 2 then events ++ e ∷ [] else events

-- What a frame with the state `new` reports to a monitor in a state.
unfoldable pub report :
    NodeId → HeartbeatMonitorState → NmtState → List HeartbeatEvent → List HeartbeatEvent
report node disabled new events = push events (started node new)
report node waiting new events = push events (started node new)
report node (alive old seen) new events =
    if same_state new old
    then events
    else if same_state new initializing
    then push (push events (state_changed node old new)) (remote_reset node)
    else push events (state_changed node old new)
report node (timed_out old seen at) new events =
    if same_state new initializing && not (same_state old initializing)
    then push (push events (recovered node new)) (remote_reset node)
    else push events (recovered node new)

-- `HeartbeatMonitor::process`.
unfoldable pub process_heartbeat :
    HeartbeatMonitor
    → NodeId
    → ℕ
    → ℕ
    → List HeartbeatEvent
    → HeartbeatMonitor × List HeartbeatEvent × Bool
process_heartbeat m node state_byte now_us events =
    if not (node == m.node_id) then (m, events, false) else elim (from_heartbeat_byte state_byte) [
      | none ↦ (m, events, true)
      | some new ↦
          (record m { state = alive new now_us }, report m.node_id m.state new events, true)
    ]

-- `HeartbeatMonitor::check_timeout`, for a monitor in the state `s`.
unfoldable pub timeout_in :
    HeartbeatMonitor → HeartbeatMonitorState → ℕ → HeartbeatMonitor × Option HeartbeatEvent
timeout_in m (alive nmt seen) now_us =
    if not (m.timeout_ms == 0) && ltb (m.timeout_ms * 1000) (wrapping_sub now_us seen)
    then (record m { state = timed_out nmt seen now_us }, some (timeout m.node_id))
    else (m, none)
timeout_in m disabled now_us = (m, none)
timeout_in m waiting now_us = (m, none)
timeout_in m (timed_out nmt seen at) now_us = (m, none)

unfoldable pub check_monitor : HeartbeatMonitor → ℕ → HeartbeatMonitor × Option HeartbeatEvent
check_monitor m now_us = timeout_in m m.state now_us
