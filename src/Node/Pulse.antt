-- ===== src/Node/Pulse.antt =====
-- canopen-core/src/node.rs: a SYNC pulse, and the synchronous TPDOs that the transport refused.
use yacob.Base.{
  ℕ, Bool, false, not, ◌||◌, if◌then◌else◌, ◌==◌, List, [], ◌∷◌, length, Option, none, some,
}
use yacob.Can.{CanFrame}
use yacob.Sdo.Od.{ObjectDictionary}
use yacob.Node.{Node, Sent, is_taken}
use yacob.Nmt.{same_state, operational}
use yacob.Sync.{allows_transmit, open_window}
use yacob.Pdo.{is_empty}
use yacob.Pdo.Pack.{Sink, saturating_add32}
use yacob.Pdo.Tpdo.{tpdo_on_sync}
use yacob.Pdo.Rpdo.{rpdo_on_sync, process_rpdo}

module _ {O : Type 0} (dict : ObjectDictionary O) {T : Type 0}
    (transmit : T → CanFrame → T × Sent) where
  -- The frames that the transport does not take, in order.
  unfoldable pub send_all : List CanFrame → T → List CanFrame × T
  send_all [] t = ([], t)
  send_all (f ∷ fs) t =
      let (t', sent) = transmit t f in
      let (refused, t'') = send_all fs t' in ((if is_taken sent then refused else f ∷ refused), t'')

  abbrev pub attempt_of : List CanFrame → ℕ → Option ℕ
  attempt_of [] now = none
  attempt_of (f ∷ fs) now = some now

  -- `retry_pending_sync_tpdo`.
  unfoldable pub retry_pending_sync_tpdo : Node O → ℕ → T → Node O × T
  retry_pending_sync_tpdo n now t =
      if is_empty n.pending_sync_tpdo
      then (n, t)
      else if not (same_state n.nmt.state operational) || not (allows_transmit n.sync_window now)
      then (record n { pending_sync_tpdo = []; sync_tpdo_last_attempt_us = none }, t)
      else if is_attempt n.sync_tpdo_last_attempt_us now
      then (n, t)
      else let (refused, t') = send_all n.pending_sync_tpdo t in
        (
          record n {
            pending_sync_tpdo = refused;
            sync_tpdo_last_attempt_us = attempt_of refused now;
          },
          t',
        )
    where
      is_attempt : Option ℕ → ℕ → Bool
      is_attempt none now = false
      is_attempt (some at) now = at == now

  -- `handle_sync`.
  unfoldable pub handle_sync : Node O → ℕ → T → Node O × T
  handle_sync n now t =
      let sink : Sink O = record { od = n.od; events = n.event_queue; dropped = 0 } in
      let (slots, applied) = rpdo_on_sync dict n.event_capacity n.rpdo.slots sink in
      let (tpdo, out) = tpdo_on_sync dict applied.od (length n.tpdo) n.tpdo [] in
      let (refused, t') = send_all out t in
      if not (same_state n.nmt.state operational) then (n, t) else (
        record n {
          od = applied.od;
          event_queue = applied.events;
          event_overflow_count = saturating_add32 n.event_overflow_count applied.dropped;
          rpdo = record (n.rpdo) { slots = slots };
          tpdo = tpdo;
          sync_window = open_window n.sync_window now;
          pending_sync_tpdo = refused;
          sync_tpdo_last_attempt_us = attempt_of refused now;
        },
        t',
      )

-- `process_rpdo_frame`.
unfoldable pub process_rpdo_frame :
    {O : Type 0} → ObjectDictionary O → Node O → CanFrame → ℕ → Node O
process_rpdo_frame dict n f now =
    let (rpdo, sink, consumed) =
      process_rpdo dict n.event_capacity n.rpdo f n.od n.event_queue now in
    if same_state n.nmt.state operational
    then record n {
      od = sink.od;
      event_queue = sink.events;
      event_overflow_count = saturating_add32 n.event_overflow_count sink.dropped;
      rpdo = rpdo;
    }
    else n
