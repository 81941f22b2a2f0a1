-- ===== src/Node/Cycle.antt =====
-- One call of `Node::process` on a node that is stopped (canopen-core/src/node.rs).
-- The dictionary, its event queue and the NMT state of a node are as before.
use yacob.Base.{
  ℕ, ◌≡◌, ◌≢◌, inl, inr, refl, ap, ◌∙◌, arith, true, List, [], ◌∷◌, some, Option-cases,
}
use yacob.Can.{CanFrame}
use yacob.Sdo.Od.{ObjectDictionary}
use yacob.Node.{Node, Sent, leave_operational}
use yacob.Nmt.{stopped}
use yacob.Pdo.Tpdo.{latch_sync_events}
use yacob.Node.Gates.{push_heartbeat_events-Untouched, dispatch_frame-Untouched}
use yacob.Node.Dispatch.{dispatch_frame}
use yacob.Node.Pulse.{retry_pending_sync_tpdo}
use yacob.Node.Process.{
  monitor_timeouts, check_monitors, deadlines, drain, serve_channels, produce_sync, send_heartbeat,
  flush_emergencies, poll_pdos, begin_polls, boot, after_receive, process_node,
}

abbrev pub Kept : {O : Type 0} → Node O → Node O → Type 0
Kept n n' = (n'.od ≡ n.od) × (n'.event_queue ≡ n.event_queue) × (n'.nmt ≡ n.nmt)

trans-Kept : {O : Type 0} (n n' n'' : Node O) → Kept n n' → Kept n' n'' → Kept n n''
trans-Kept n n' n'' h k = (k.0 ∙ h.0, k.1 ∙ h.1, k.2 ∙ h.2)

-- No frame is an NMT command.
abbrev pub NoCommand : List CanFrame → Type 0
NoCommand [] = Unit
NoCommand (f ∷ fs) = (f.id ≢ 0) × NoCommand fs

monitor_timeouts-Kept : {O : Type 0} (n : Node O) (now : ℕ) → Kept n (monitor_timeouts n now)
unfolding monitor_timeouts
monitor_timeouts-Kept n now =
    let (ms, events) = check_monitors n.hb_monitors now in
    let kept = push_heartbeat_events-Untouched (record n { hb_monitors = ms }) events in
    (kept.0.0, kept.0.1, kept.1)

deadlines-Kept :
    {O : Type 0} (n : Node O) (now : ℕ) → n.nmt.state ≡ stopped → Kept n (deadlines n now)
unfolding deadlines leave_operational
deadlines-Kept n now s = ground (arith, s)

module _ {O : Type 0} (dict : ObjectDictionary O) {T : Type 0}
    (transmit : T → CanFrame → T × Sent) where
  pub drain-Kept :
      (n : Node O) (fs : List CanFrame) (now : ℕ) (t : T) (r : Node O × T)
      → n.nmt.state ≡ stopped
      → NoCommand fs
      → drain dict transmit n fs now t ≡ some r
      → Kept n r.0
  unfolding drain
  drain-Kept n [] now t r s none_of e = ground arith
  drain-Kept n (f ∷ fs) now t r s none_of e =
      elim (Option-cases (dispatch_frame dict transmit n f now t)) [
        | inl panic ↦ absurd (ground (arith, panic, e))
        | inr (m, found) ↦
            let one =
              dispatch_frame-Untouched dict transmit n f now t m (rw s refl) (inl (rw s refl))
                found in
            let same_nmt : m.0.nmt ≡ n.nmt = elim one.1 [
              | inl command ↦ absurd (none_of.0 command)
              | inr k ↦ k
            ] in
            let rest : drain dict transmit m.0 fs now m.1 ≡ some r = ground (arith, found, e) in
            trans-Kept n m.0 r.0 (one.0.0, one.0.1, same_nmt)
              (drain-Kept m.0 fs now m.1 r (ap (λ h. h.state) same_nmt ∙ s) none_of.1 rest)
      ]

  pub serve_channels-Kept :
      (n : Node O) (now : ℕ) (t : T) (r : Node O × T)
      → serve_channels dict transmit n now t ≡ some r
      → Kept n r.0
  unfolding serve_channels
  serve_channels-Kept n now t r e = ground arith

  pub produce_sync-stopped :
      (n : Node O) (now : ℕ) (t : T)
      → n.nmt.state ≡ stopped
      → produce_sync dict transmit n now t ≡ (n, t)
  unfolding produce_sync
  produce_sync-stopped n now t s = ground (arith, s)

  pub retry_pending_sync_tpdo-Kept :
      (n : Node O) (now : ℕ) (t : T) → Kept n (retry_pending_sync_tpdo dict transmit n now t).0
  unfolding retry_pending_sync_tpdo
  retry_pending_sync_tpdo-Kept n now t = ground arith

  send_heartbeat-Kept :
      (n : Node O) (now : ℕ) (t : T) (r : Node O × T)
      → send_heartbeat dict transmit n now t ≡ some r
      → Kept n r.0
  unfolding send_heartbeat
  send_heartbeat-Kept n now t r e = ground arith

  flush_emergencies-Kept : (n : Node O) (t : T) → Kept n (flush_emergencies dict transmit n t).0
  unfolding flush_emergencies
  flush_emergencies-Kept n t = ground arith

  poll_pdos-Kept : (n : Node O) (now : ℕ) (t : T) → Kept n (poll_pdos dict transmit n now t).0
  unfolding poll_pdos
  poll_pdos-Kept n now t = ground arith

  -- The half of the call behind the received frames: SYNC production does nothing, and the rest
  -- does not touch what is kept.
  pub after_receive-Kept :
      (n : Node O) (now : ℕ) (t : T) (r : Node O × T)
      → n.nmt.state ≡ stopped
      → after_receive dict transmit n now t ≡ some r
      → Kept n r.0
  unfolding after_receive
  after_receive-Kept n now t r s e = elim (Option-cases (serve_channels dict transmit n now t)) [
    | inl panic ↦ absurd (ground (arith, panic, e))
    | inr (a, served) ↦
        let first = serve_channels-Kept n now t a served in
        let still : a.0.nmt.state ≡ stopped = ap (λ h. h.state) first.2 ∙ s in
        let silent = produce_sync-stopped a.0 now a.1 still in
        let second = retry_pending_sync_tpdo-Kept a.0 now a.1 in
        let (n2, t2) = retry_pending_sync_tpdo dict transmit a.0 now a.1 in
        let third = deadlines-Kept n2 now (ap (λ h. h.state) second.2 ∙ still) in
        elim (Option-cases (send_heartbeat dict transmit (deadlines n2 now) now t2)) [
          | inl panic ↦ absurd (ground (arith, served, silent, panic, e))
          | inr (b, sent) ↦
              let fourth = send_heartbeat-Kept (deadlines n2 now) now t2 b sent in
              let fifth = monitor_timeouts-Kept b.0 now in
              let sixth = flush_emergencies-Kept (monitor_timeouts b.0 now) b.1 in
              let (n3, t3) = flush_emergencies dict transmit (monitor_timeouts b.0 now) b.1 in
              let last = poll_pdos-Kept n3 now t3 in
              let done : r ≡ poll_pdos dict transmit n3 now t3 =
                ground (arith, served, silent, sent, e) in
              let d = deadlines n2 now in
              let m = monitor_timeouts b.0 now in
              let to_retried = trans-Kept n a.0 n2 first second in
              let to_deadlines = trans-Kept n n2 d to_retried third in
              let to_sent = trans-Kept n d b.0 to_deadlines fourth in
              let to_monitored = trans-Kept n b.0 m to_sent fifth in
              let to_flushed = trans-Kept n m n3 to_monitored sixth in
              rw done (trans-Kept n n3 (poll_pdos dict transmit n3 now t3).0 to_flushed last)
        ]
  ]

-- If a call on a booted node that is stopped and receives no NMT command returns, the dictionary,
-- its event queue and the NMT state are as before, whatever else is received.
pub process_node-Kept :
    {O T : Type 0} (dict : ObjectDictionary O) (transmit : T → CanFrame → T × Sent) (n : Node O)
    (now : ℕ) (received : List CanFrame) (t : T) (r : Node O × T)
    → n.booted ≡ true
    → n.nmt.state ≡ stopped
    → NoCommand received
    → process_node dict transmit n now received t ≡ some r
    → Kept n r.0
unfolding process_node boot begin_polls
process_node-Kept dict transmit n now received t r b s free e =
    let latched : Node _ = record n { tpdo = latch_sync_events n.tpdo n.dirty_set } in
    let begun = begin_polls dict transmit latched now in
    elim (Option-cases (drain dict transmit begun received now t)) [
      | inl panic ↦ absurd (ground (arith, b, panic, e))
      | inr (m, drained) ↦
          let one = drain-Kept dict transmit begun received now t m s free drained in
          let rest : after_receive dict transmit m.0 now m.1 ≡ some r =
            ground (arith, b, drained, e) in
          trans-Kept n m.0 r.0 one
            (after_receive-Kept dict transmit m.0 now m.1 r (ap (λ h. h.state) one.2 ∙ s) rest)
    ]
