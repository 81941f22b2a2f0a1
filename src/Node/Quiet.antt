-- ===== src/Node/Quiet.antt =====
-- A stopped node without SDO transfers gets through a call of `Node::process`
-- (canopen-core/src/node.rs).
use yacob.Base.{
  ℕ, suc, ◌≤◌, ◌≡◌, ◌≢◌, inl, inr, refl, arith, false, if◌then◌else◌, ◌==◌, List, [], ◌∷◌, none,
  some, Bool-cases, Option-cases,
}
use yacob.Can.{CanFrame}
use yacob.Sdo.Od.{ObjectDictionary}
use yacob.CobId.{heartbeat_cob}
use yacob.Nmt.{stopped, same_state, operational}
use yacob.Sync.{consume}
use yacob.Heartbeat.{HeartbeatEvent, process_heartbeat, pending, heartbeat_frame}
use yacob.Sdo.Server.State.{SdoServer, silent, check_timeout}
use yacob.Sdo.Server.Block.{poll_block_upload}
use yacob.Node.{push_heartbeat_event, push_heartbeat_events, Node, SdoChannel, Sent}
use yacob.Node.Channel.{begin_poll, try_send, send_block, service, service_all}
use yacob.Node.Dispatch.{
  monitor_for, put_monitor, channel_for, put_channel, dispatch_fixed, dispatch_frame, handle_lss,
  handle_heartbeat, handle_other, handle_sync_frame, is_sync_cob,
}
use yacob.Node.Process.{serve_channels, send_heartbeat}
use yacob.Node.Reset.{IsIdleChannel, All}
use yacob.Node.Gates.{handle_sync-gated, process_rpdo_frame-gated, handle_sdo_request-gated}

-- A channel that is idle stays idle at the start of a call, and has nothing to send.
pub begin_poll-idle :
    (c : SdoChannel) (now : ℕ) → IsIdleChannel c → IsIdleChannel (begin_poll c now)
unfolding begin_poll check_timeout
begin_poll-idle c now idle = ground (arith, idle)

poll_block_upload-idle :
    (s : SdoServer) (now : ℕ) → s.transfer ≡ none → (poll_block_upload s now).1 ≡ silent
unfolding poll_block_upload
poll_block_upload-idle s now idle = ground (arith, idle)

put_channel-same :
    (cs : List SdoChannel) (id : ℕ) (c : SdoChannel)
    → channel_for cs id ≡ some c
    → put_channel cs id c ≡ cs
unfolding channel_for put_channel
put_channel-same [] id c e = refl
put_channel-same (d ∷ cs) id c e = elim (Bool-cases (d.rx == id)) [
  | inl here ↦ let same : d ≡ c = ground (arith, here, e) in ground (arith, here, same)
  | inr there ↦
      let rest : channel_for cs id ≡ some c = ground (arith, there, e) in
      ground (arith, there, put_channel-same cs id c rest)
]

-- Nothing that an SDO server or the producer heartbeat needs is different.
abbrev pub Alike : {O : Type 0} → Node O → Node O → Type 0
Alike n n' = (n'.default ≡ n.default) × (n'.extra ≡ n.extra) × (n'.heartbeat ≡ n.heartbeat)

push_heartbeat_events-Alike :
    {O : Type 0} (n : Node O) (es : List HeartbeatEvent) → Alike n (push_heartbeat_events n es)
unfolding push_heartbeat_event
push_heartbeat_events-Alike n [] = (refl, refl, refl)
push_heartbeat_events-Alike n (e ∷ es) =
    let rest = push_heartbeat_events-Alike (push_heartbeat_event n e) es in ground (arith, rest)

module _ {O : Type 0} (dict : ObjectDictionary O) {T : Type 0}
    (transmit : T → CanFrame → T × Sent) where
  try_send-idle : (c : SdoChannel) (t : T) → c.pending.frame ≡ none → try_send transmit c t ≡ (c, t)
  unfolding try_send
  try_send-idle c t idle = ground (arith, idle)

  send_block-returns :
      (rounds : ℕ) (c : SdoChannel) (now : ℕ) (t : T)
      → IsIdleChannel c
      → send_block transmit (suc rounds) c now t ≢ none
  unfolding send_block
  send_block-returns rounds c now t idle panic =
      ground (arith, idle.1, panic, poll_block_upload-idle c.server now idle.0)

  service-returns :
      (c : SdoChannel) (now : ℕ) (t : T) → IsIdleChannel c → service transmit c now t ≢ none
  unfolding service
  service-returns c now t idle = rw (try_send-idle c t idle.1) (send_block-returns 126 c now t idle)

  service_all-returns :
      (cs : List SdoChannel) (now : ℕ) (t : T)
      → All IsIdleChannel cs
      → service_all transmit cs now t ≢ none
  unfolding service_all
  service_all-returns [] now t idle panic = absurd (ground arith)
  service_all-returns (c ∷ cs) now t idle panic = elim (Option-cases (service transmit c now t)) [
    | inl stuck ↦ service-returns c now t idle.0 stuck
    | inr (r, served) ↦ elim (Option-cases (service_all transmit cs now r.1)) [
      | inl stuck ↦ service_all-returns cs now r.1 idle.1 stuck
      | inr (rs, all) ↦ ground (arith, served, all, panic)
    ]
  ]

  pub serve_channels-returns :
      (n : Node O) (now : ℕ) (t : T)
      → IsIdleChannel n.default
      → All IsIdleChannel n.extra
      → serve_channels dict transmit n now t ≢ none
  unfolding serve_channels
  serve_channels-returns n now t d e panic =
      elim (Option-cases (service transmit n.default now t)) [
        | inl stuck ↦ service-returns n.default now t d stuck
        | inr (r, served) ↦ elim (Option-cases (service_all transmit n.extra now r.1)) [
          | inl stuck ↦ service_all-returns n.extra now r.1 e stuck
          | inr (rs, all) ↦ ground (arith, served, all, panic)
        ]
      ]

  pub send_heartbeat-returns :
      (n : Node O) (now : ℕ) (t : T)
      → n.heartbeat.node_id ≤ 127
      → send_heartbeat dict transmit n now t ≢ none
  unfolding send_heartbeat pending heartbeat_frame heartbeat_cob
  send_heartbeat-returns n now t low panic = ground (arith, low, panic)

  handle_lss-Alike :
      (n : Node O) (f : CanFrame) (t : T) → Alike n (handle_lss dict transmit n f t).0
  unfolding handle_lss
  handle_lss-Alike n f t = ground arith

  handle_other-Alike :
      (n : Node O) (f : CanFrame) (now : ℕ)
      → same_state n.nmt.state operational ≡ false
      → Alike n (handle_other dict transmit n f now)
  unfolding handle_other handle_heartbeat
  handle_other-Alike n f now h =
      elim (Option-cases (if f.dlc == 1 then monitor_for n.hb_monitors f.id else none)) [
        | inl nobody ↦ ground (arith, nobody, process_rpdo_frame-gated dict transmit n f now h)
        | inr (m, found) ↦
            let (m', events, known) = process_heartbeat m m.node_id f.bytes.b0 now [] in
            let alike =
              push_heartbeat_events-Alike
                (record n { hb_monitors = put_monitor n.hb_monitors f.id m' }) events in
            ground (arith, found, alike)
      ]

  handle_sync_frame-Alike :
      (n : Node O) (f : CanFrame) (now : ℕ) (t : T)
      → same_state n.nmt.state operational ≡ false
      → Alike n (handle_sync_frame dict transmit n f now t).0
  unfolding handle_sync_frame
  handle_sync_frame-Alike n f now t h =
      ground
        (arith, handle_sync-gated dict transmit (record n { sync = (consume n.sync f).0 }) now t h)

  -- A frame that is no NMT command is handled, by a node that is stopped, and the SDO channels stay.
  dispatch_fixed-returns :
      (n : Node O) (f : CanFrame) (now : ℕ) (t : T)
      → n.nmt.state ≡ stopped
      → f.id ≢ 0
      → (r : Node O × T) × ((dispatch_fixed dict transmit n f now t ≡ some r) × Alike n r.0)
  unfolding dispatch_fixed
  dispatch_fixed-returns n f now t s free = elim (Bool-cases (is_sync_cob n.sync f.id)) [
    | inl sync ↦ (
      handle_sync_frame dict transmit n f now t,
      (ground (arith, sync), handle_sync_frame-Alike n f now t (rw s refl)),
    )
    | inr other ↦ elim (Bool-cases (f.id == n.default.rx)) [
      | inl mine ↦
          let gated = handle_sdo_request-gated dict transmit n n.default f now t (rw s refl) in
          ((n, t), (ground (arith, other, free, mine, gated), (refl, refl, refl)))
      | inr away ↦ elim (Bool-cases (f.id == 0x7E5)) [
        | inl lss ↦ (
          handle_lss dict transmit n f t,
          (ground (arith, other, free, away, lss), handle_lss-Alike n f t),
        )
        | inr rest ↦ (
          (handle_other dict transmit n f now, t),
          (ground (arith, other, free, away, rest), handle_other-Alike n f now (rw s refl)),
        )
      ]
    ]
  ]

  pub dispatch_frame-returns :
      (n : Node O) (f : CanFrame) (now : ℕ) (t : T)
      → n.nmt.state ≡ stopped
      → f.id ≢ 0
      → (r : Node O × T) × ((dispatch_frame dict transmit n f now t ≡ some r) × Alike n r.0)
  unfolding dispatch_frame
  dispatch_frame-returns n f now t s free = elim (Option-cases (channel_for n.extra f.id)) [
    | inl nobody ↦
        let (r, both) = dispatch_fixed-returns n f now t s free in
        (r, (ground (arith, nobody, both.0), both.1))
    | inr (c, mine) ↦
        let gated = handle_sdo_request-gated dict transmit n c f now t (rw s refl) in
        let same_extra = put_channel-same n.extra f.id c mine in
        ((n, t), (ground (arith, mine, gated, same_extra), (refl, refl, refl)))
  ]
