-- ===== src/Node/Process.antt =====
-- canopen-core/src/node.rs: `Node::process`, one cycle. `received` is what the transport hands out
-- in the cycle before it reports that there is nothing more.
use yacob.Base.{
  ℕ, ◌+◌, Bool, true, false, not, ◌&&◌, ◌||◌, if◌then◌else◌, ◌==◌, List, [], ◌∷◌, map, length,
  Option, none, some,
}
use yacob.Base.Results.{and_then}
use yacob.Can.{CanFrame}
use yacob.Sdo.Od.{ObjectDictionary}
use yacob.Node.{
  Node, SdoChannel, Sent, taken, would_block, refused, is_taken, leave_operational,
  push_heartbeat_events,
}
use yacob.Nmt.{
  NmtHandler, operational, stopped, same_state, start_remote_node, boot_complete, process_command,
}
use yacob.Sdo.Server.State.{push_event}
use yacob.Sdo.Od.{rpdo_deadline}
use yacob.Sync.{poll_sync, confirm_pulse}
use yacob.Heartbeat.{
  HeartbeatMonitor, HeartbeatEvent, check_monitor, pending, confirm_sent, send_boot,
}
use yacob.Pdo.{od_offset}
use yacob.Pdo.Pack.{saturating_add32}
use yacob.Pdo.Tpdo.{poll_with, latch_sync_events}
use yacob.Pdo.Rpdo.{check_deadlines}
use yacob.Node.Channel.{begin_poll, service, service_all}
use yacob.Node.Pulse.{handle_sync, retry_pending_sync_tpdo}
use yacob.Node.Dispatch.{serves_sdo, dispatch_frame}

-- Expired deadlines as events.
unfoldable pub push_deadlines : {O : Type 0} → Node O → List ℕ → Node O
push_deadlines n [] = n
push_deadlines n (number ∷ numbers) =
    push_deadlines
      (record n {
        event_queue =
            push_event n.event_capacity n.event_queue
              (record { index = 0x1400 + od_offset number; subindex = 0; source = rpdo_deadline });
        event_overflow_count =
            if length n.event_queue == n.event_capacity
            then saturating_add32 n.event_overflow_count 1
            else n.event_overflow_count;
      })
      numbers

-- The timeouts of the monitors, in order, and their events.
unfoldable pub check_monitors :
    List (Option HeartbeatMonitor) → ℕ → List (Option HeartbeatMonitor) × List HeartbeatEvent
check_monitors [] now = ([], [])
check_monitors (none ∷ ms) now = let (ms', events) = check_monitors ms now in (none ∷ ms', events)
check_monitors (some m ∷ ms) now =
    let (m', event) = check_monitor m now in
    let (ms', events) = check_monitors ms now in
    (some m' ∷ ms', elim event [ none ↦ events | some e ↦ e ∷ events ])

unfoldable pub deadlines : {O : Type 0} → Node O → ℕ → Node O
deadlines n now =
    if same_state n.nmt.state operational
    then (let (slots, expired) = check_deadlines (length n.rpdo.slots) 0 n.rpdo.slots now [] in
        push_deadlines (record n { rpdo = record (n.rpdo) { slots = slots } }) expired)
    else leave_operational n

unfoldable pub monitor_timeouts : {O : Type 0} → Node O → ℕ → Node O
monitor_timeouts n now =
    let (ms, events) = check_monitors n.hb_monitors now in
    push_heartbeat_events (record n { hb_monitors = ms }) events

module _ {O : Type 0} (dict : ObjectDictionary O) {T : Type 0}
    (transmit : T → CanFrame → T × Sent) where
  -- The boot sequence: `false` ends the call, since the transport is full.
  abbrev pub booted_node : Node O → Node O
  booted_node n =
      let nmt : NmtHandler = boot_complete n.nmt in
      record n {
        booted = true;
        nmt = if n.auto_start then (process_command nmt start_remote_node 0 n.node_id).0 else nmt;
      }

  unfoldable pub announce_boot : Node O → T → Sent → Node O × T × Bool
  announce_boot n t would_block = (n, t, false)
  announce_boot n t taken = (booted_node n, t, true)
  announce_boot n t refused = (booted_node n, t, true)

  unfoldable pub boot : Node O → ℕ → T → Option (Node O × T × Bool)
  boot n now t =
      if n.booted
      then some (n, t, true)
      else let (heartbeat, frame) = send_boot n.heartbeat now in
        elim frame [
          | none ↦ none
          | some f ↦
              let (t', sent) = transmit t f in
              some (announce_boot (record n { heartbeat = heartbeat }) t' sent)
        ]

  unfoldable pub drain : Node O → List CanFrame → ℕ → T → Option (Node O × T)
  drain n [] now t = some (n, t)
  drain n (f ∷ fs) now t =
      and_then (dispatch_frame dict transmit n f now t) λ r. drain r.0 fs now r.1

  abbrev pub poll_channel : ℕ → SdoChannel → SdoChannel
  poll_channel now c = begin_poll c now

  unfoldable pub begin_polls : Node O → ℕ → Node O
  begin_polls n now = record n {
    default = begin_poll n.default now;
    extra = map (poll_channel now) n.extra;
  }

  unfoldable pub serve_channels : Node O → ℕ → T → Option (Node O × T)
  serve_channels n now t = and_then (service transmit n.default now t) λ d.
      and_then (service_all transmit n.extra now d.1)
        λ e. some (record n { default = d.0; extra = e.0 }, e.1)

  -- SYNC production, with the local pulse.
  unfoldable pub produce_sync : Node O → ℕ → T → Node O × T
  produce_sync n now t =
      let (producer, frame) = poll_sync n.sync_producer now in
      if not n.booted || same_state n.nmt.state stopped then (n, t) else elim frame [
        | none ↦ (record n { sync_producer = producer }, t)
        | some f ↦
            let (t', sent) = transmit t f in
            if is_taken sent
            then handle_sync dict transmit (record n { sync_producer = confirm_pulse producer now })
                now t'
            else (record n { sync_producer = producer }, t')
      ]

  -- The producer heartbeat; `none` is the panic of building its frame.
  unfoldable pub send_heartbeat : Node O → ℕ → T → Option (Node O × T)
  send_heartbeat n now t =
      if not n.booted then some (n, t) else elim (pending n.heartbeat now n.nmt.state) [
        | none ↦ some (n, t)
        | some none ↦ none
        | some (some f) ↦
            let (t', sent) = transmit t f in
            some (
              (if is_taken sent then record n { heartbeat = confirm_sent n.heartbeat now } else n),
              t',
            )
      ]

  -- Emergencies, until the transport refuses one.
  unfoldable pub send_emergencies : List CanFrame → T → List CanFrame × T
  send_emergencies [] t = ([], t)
  send_emergencies (f ∷ fs) t =
      let (t', sent) = transmit t f in
      elim (is_taken sent) [ true ↦ send_emergencies fs t' | false ↦ (f ∷ fs, t') ]

  unfoldable pub flush_emergencies : Node O → T → Node O × T
  flush_emergencies n t =
      let (left, t') = send_emergencies n.emcy.pending t in
      if n.booted && serves_sdo n.nmt.state
      then (record n { emcy = record (n.emcy) { pending = left } }, t')
      else (n, t)

  abbrev pub transmits : T → CanFrame → T × Bool
  transmits t f = ((transmit t f).0, is_taken (transmit t f).1)

  unfoldable pub poll_pdos : Node O → ℕ → T → Node O × T
  poll_pdos n now t =
      let (tpdo, t') = poll_with dict n.od now n.dirty_set transmits t n.tpdo in
      if same_state n.nmt.state operational
      then (record n { tpdo = tpdo; dirty_set = [] }, t')
      else (record n { dirty_set = [] }, t)

  -- What follows the received frames.
  unfoldable pub after_receive : Node O → ℕ → T → Option (Node O × T)
  after_receive n now t = and_then (serve_channels n now t) λ a.
      let (n1, t1) = produce_sync a.0 now a.1 in
      let (n2, t2) = retry_pending_sync_tpdo dict transmit n1 now t1 in
      and_then (send_heartbeat (deadlines n2 now) now t2) λ b.
        let (n3, t3) = flush_emergencies (monitor_timeouts b.0 now) b.1 in
        some (poll_pdos n3 now t3)

  -- `Node::process`.
  unfoldable pub process_node : Node O → ℕ → List CanFrame → T → Option (Node O × T)
  process_node n now received t = and_then (boot n now t) λ b.
      if not b.2
      then some (b.0, b.1)
      else let n' : Node O = b.0 in
        let latched : Node O = record n' { tpdo = latch_sync_events n'.tpdo n'.dirty_set } in
        and_then (drain (begin_polls latched now) received now b.1) λ r. after_receive r.0 now r.1
