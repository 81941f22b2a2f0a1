-- ===== src/Node/Gates.antt =====
-- When a node touches its dictionary (canopen-core/src/node.rs).
use yacob.Base.{
  ℕ, ◌≡◌, ◌≢◌, ◌⊎◌, inl, inr, refl, ◌∙◌, arith, false, if◌then◌else◌, ◌==◌, List, [], ◌∷◌, none,
  some, Bool-cases, Option-cases,
}
use yacob.Can.{CanFrame}
use yacob.Sdo.Od.{ObjectDictionary}
use yacob.Node.{
  Node, SdoChannel, Sent, application, communication, abort_all_sdo_transfers, leave_operational,
  push_heartbeat_event, push_heartbeat_events,
}
use yacob.Nmt.{
  operational, same_state, from_byte, process_command, NmtTransition, no_change, state_changed,
  reset_application, reset_communication_only,
}
use yacob.Heartbeat.{HeartbeatMonitor, HeartbeatEvent, process_heartbeat}
use yacob.Sync.{consume}
use yacob.Node.Pulse.{handle_sync, process_rpdo_frame}
use yacob.Node.Reset.{reset_services-IsFresh}
use yacob.Node.Dispatch.{
  serves_sdo, handle_sdo_request, handle_nmt, follow_transition, handle_lss, handle_heartbeat,
  handle_other, handle_sync_frame, monitor_for, put_monitor, dispatch_fixed, dispatch_frame,
  channel_for, is_sync_cob,
}

-- The dictionary, its event queue and the NMT state are as before.
abbrev pub Untouched : {O : Type 0} → Node O → Node O → Type 0
Untouched n n' = (n'.od ≡ n.od) × (n'.event_queue ≡ n.event_queue)

push_heartbeat_event-Untouched :
    {O : Type 0} (n : Node O) (e : HeartbeatEvent)
    → Untouched n (push_heartbeat_event n e) × ((push_heartbeat_event n e).nmt ≡ n.nmt)
unfolding push_heartbeat_event
push_heartbeat_event-Untouched n e = ground arith

pub push_heartbeat_events-Untouched :
    {O : Type 0} (n : Node O) (es : List HeartbeatEvent)
    → Untouched n (push_heartbeat_events n es) × ((push_heartbeat_events n es).nmt ≡ n.nmt)
push_heartbeat_events-Untouched n [] = ((refl, refl), refl)
push_heartbeat_events-Untouched n (e ∷ es) =
    let (one, state) = push_heartbeat_event-Untouched n e in
    let (rest, state') = push_heartbeat_events-Untouched (push_heartbeat_event n e) es in
    ((rest.0 ∙ one.0, rest.1 ∙ one.1), state' ∙ state)

module _ {O : Type 0} (dict : ObjectDictionary O) {T : Type 0}
    (transmit : T → CanFrame → T × Sent) where
  pub handle_sync-gated :
      (n : Node O) (now : ℕ) (t : T)
      → same_state n.nmt.state operational ≡ false
      → handle_sync dict transmit n now t ≡ (n, t)
  unfolding handle_sync
  handle_sync-gated n now t h = ground (arith, h)

  pub process_rpdo_frame-gated :
      (n : Node O) (f : CanFrame) (now : ℕ)
      → same_state n.nmt.state operational ≡ false
      → process_rpdo_frame dict n f now ≡ n
  unfolding process_rpdo_frame
  process_rpdo_frame-gated n f now h = ground (arith, h)

  pub handle_sdo_request-gated :
      (n : Node O) (c : SdoChannel) (f : CanFrame) (now : ℕ) (t : T)
      → serves_sdo n.nmt.state ≡ false
      → handle_sdo_request dict transmit n c f now t ≡ some (n, c, t)
  unfolding handle_sdo_request
  handle_sdo_request-gated n c f now t h = ground (arith, h)

  follow_transition-Untouched :
      (n n' : Node O) (r : NmtTransition)
      → follow_transition dict transmit n r ≡ some n'
      → Untouched n n'
  unfolding follow_transition leave_operational abort_all_sdo_transfers
  follow_transition-Untouched n n' no_change e = ground arith
  follow_transition-Untouched n n' state_changed e = ground arith
  follow_transition-Untouched n n' reset_application e =
      let kept = reset_services-IsFresh dict application n n' e in (kept.1, kept.3)
  follow_transition-Untouched n n' reset_communication_only e =
      let kept = reset_services-IsFresh dict communication n n' e in (kept.1, kept.3)

  handle_nmt-Untouched :
      (n n' : Node O) (f : CanFrame) → handle_nmt dict transmit n f ≡ some n' → Untouched n n'
  unfolding handle_nmt
  handle_nmt-Untouched n n' f e = elim (Option-cases (from_byte f.bytes.b0)) [
    | inl unknown ↦ ground arith
    | inr (cmd, known) ↦
        let r = process_command n.nmt cmd f.bytes.b1 n.node_id in
        ground (arith, known, follow_transition-Untouched (record n { nmt = r.0 }) n' r.1)
  ]

  handle_lss-Untouched :
      (n : Node O) (f : CanFrame) (t : T)
      → Untouched n (handle_lss dict transmit n f t).0
        × ((handle_lss dict transmit n f t).0.nmt ≡ n.nmt)
  unfolding handle_lss
  handle_lss-Untouched n f t = ground arith

  handle_heartbeat-Untouched :
      (n : Node O) (m : HeartbeatMonitor) (f : CanFrame) (now : ℕ)
      → Untouched n (handle_heartbeat dict transmit n m f now)
        × ((handle_heartbeat dict transmit n m f now).nmt ≡ n.nmt)
  unfolding handle_heartbeat
  handle_heartbeat-Untouched n m f now =
      let (m', events, known) = process_heartbeat m m.node_id f.bytes.b0 now [] in
      push_heartbeat_events-Untouched (record n { hb_monitors = put_monitor n.hb_monitors f.id m' })
        events

  handle_other-Untouched :
      (n : Node O) (f : CanFrame) (now : ℕ)
      → same_state n.nmt.state operational ≡ false
      → Untouched n (handle_other dict transmit n f now)
        × ((handle_other dict transmit n f now).nmt ≡ n.nmt)
  unfolding handle_other
  handle_other-Untouched n f now h =
      elim (Option-cases (if f.dlc == 1 then monitor_for n.hb_monitors f.id else none)) [
        | inl nobody ↦ ground (arith, nobody, process_rpdo_frame-gated n f now h)
        | inr (m, found) ↦ ground (arith, found, handle_heartbeat-Untouched n m f now)
      ]

  handle_sync_frame-Untouched :
      (n : Node O) (f : CanFrame) (now : ℕ) (t : T)
      → same_state n.nmt.state operational ≡ false
      → Untouched n (handle_sync_frame dict transmit n f now t).0
        × ((handle_sync_frame dict transmit n f now t).0.nmt ≡ n.nmt)
  unfolding handle_sync_frame
  handle_sync_frame-Untouched n f now t h =
      ground (arith, handle_sync-gated (record n { sync = (consume n.sync f).0 }) now t h)

  -- The arms behind SYNC and NMT.
  dispatch_service-Untouched :
      (n : Node O) (f : CanFrame) (now : ℕ) (t : T) (r : Node O × T)
      → same_state n.nmt.state operational ≡ false
      → (serves_sdo n.nmt.state ≡ false) ⊎ (f.id ≢ n.default.rx)
      → is_sync_cob n.sync f.id ≡ false
      → (f.id == 0) ≡ false
      → dispatch_fixed dict transmit n f now t ≡ some r
      → Untouched n r.0 × (r.0.nmt ≡ n.nmt)
  unfolding dispatch_fixed
  dispatch_service-Untouched n f now t r h shut other free e =
      elim (Bool-cases (f.id == n.default.rx)) [
        | inl mine ↦ elim shut [
          | inl closed ↦
              let gated = handle_sdo_request-gated n n.default f now t closed in
              ground (arith, other, free, mine, gated, e)
          | inr away ↦ absurd (ground arith)
        ]
        | inr away ↦ elim (Bool-cases (f.id == 0x7E5)) [
          | inl lss ↦ ground (arith, other, free, away, lss, handle_lss-Untouched n f t, e)
          | inr rest ↦ ground (arith, other, free, away, rest, handle_other-Untouched n f now h, e)
        ]
      ]

  dispatch_fixed-Untouched :
      (n : Node O) (f : CanFrame) (now : ℕ) (t : T) (r : Node O × T)
      → same_state n.nmt.state operational ≡ false
      → (serves_sdo n.nmt.state ≡ false) ⊎ (f.id ≢ n.default.rx)
      → dispatch_fixed dict transmit n f now t ≡ some r
      → Untouched n r.0 × ((f.id ≡ 0) ⊎ (r.0.nmt ≡ n.nmt))
  unfolding dispatch_fixed
  dispatch_fixed-Untouched n f now t r h shut e = elim (Bool-cases (is_sync_cob n.sync f.id)) [
    | inl sync ↦
        let kept = handle_sync_frame-Untouched n f now t h in
        let done : r ≡ handle_sync_frame dict transmit n f now t = ground (arith, sync, e) in
        rw done (kept.0, inr kept.1)
    | inr other ↦ elim (Bool-cases (f.id == 0)) [
      | inl command ↦ elim (Option-cases (handle_nmt dict transmit n f)) [
        | inl panic ↦ absurd (ground (arith, other, command, panic, e))
        | inr (n', ran) ↦
            let done : r ≡ (n', t) = ground (arith, other, command, ran, e) in
            let zero : f.id ≡ 0 = ground arith in
            rw done (handle_nmt-Untouched n n' f ran, inl zero)
      ]
      | inr free ↦
          let kept = dispatch_service-Untouched n f now t r h shut other free e in
          (kept.0, inr kept.1)
    ]
  ]

-- Unless it is operational, a node handles a frame that is no SDO request for it without touching
-- its dictionary or the event queue of it, and its NMT state changes by no frame but an NMT command.
-- A node that is stopped or initializing does not heed an SDO request either.
pub dispatch_frame-Untouched :
    {O T : Type 0} (dict : ObjectDictionary O) (transmit : T → CanFrame → T × Sent) (n : Node O)
    (f : CanFrame) (now : ℕ) (t : T) (r : Node O × T)
    → same_state n.nmt.state operational ≡ false
    → (serves_sdo n.nmt.state ≡ false) ⊎ ((channel_for n.extra f.id ≡ none) × (f.id ≢ n.default.rx))
    → dispatch_frame dict transmit n f now t ≡ some r
    → Untouched n r.0 × ((f.id ≡ 0) ⊎ (r.0.nmt ≡ n.nmt))
unfolding dispatch_frame
dispatch_frame-Untouched dict transmit n f now t r h shut e =
    elim (Option-cases (channel_for n.extra f.id)) [
      | inl nobody ↦
          let fixed : dispatch_fixed dict transmit n f now t ≡ some r = ground (arith, nobody, e) in
          let closed : (serves_sdo n.nmt.state ≡ false) ⊎ (f.id ≢ n.default.rx) = elim shut [
            | inl s ↦ inl s
            | inr both ↦ inr both.1
          ] in
          dispatch_fixed-Untouched dict transmit n f now t r h closed fixed
      | inr (c, mine) ↦ elim shut [
        | inl closed ↦
            let gated = handle_sdo_request-gated dict transmit n c f now t closed in
            ground (arith, mine, gated, e)
        | inr both ↦ absurd (cc (mine, both.0))
      ]
    ]
