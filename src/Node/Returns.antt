-- ===== src/Node/Returns.antt =====
-- A call of `Node::process` on a stopped node, whole (canopen-core/src/node.rs).
use yacob.Base.{
  ℕ, ◌≤◌, ◌≡◌, ◌≢◌, inl, inr, refl, ap, ◌∙◌, arith, true, List, [], ◌∷◌, map, none, some,
  Option-cases,
}
use yacob.Can.{CanFrame}
use yacob.Sdo.Od.{ObjectDictionary}
use yacob.Nmt.{stopped}
use yacob.Node.{Node, SdoChannel, Sent, leave_operational}
use yacob.Node.Channel.{begin_poll}
use yacob.Node.Pulse.{retry_pending_sync_tpdo}
use yacob.Node.Process.{
  drain, begin_polls, serve_channels, send_heartbeat, deadlines, after_receive, process_node, boot,
}
use yacob.Pdo.Tpdo.{latch_sync_events}
use yacob.Node.Reset.{IsIdleChannel, All}
use yacob.Node.Gates.{dispatch_frame-Untouched}
use yacob.Node.Cycle.{
  Kept, NoCommand, drain-Kept, serve_channels-Kept, retry_pending_sync_tpdo-Kept,
  produce_sync-stopped, process_node-Kept,
}
use yacob.Node.Quiet.{
  Alike, begin_poll-idle, serve_channels-returns, send_heartbeat-returns, dispatch_frame-returns,
}

-- No SDO server has a transfer or a response, and the heartbeat has a node ID.
abbrev pub IsQuiet : {O : Type 0} → Node O → Type 0
IsQuiet n = IsIdleChannel n.default × All IsIdleChannel n.extra × (n.heartbeat.node_id ≤ 127)

IsQuiet-Alike : {O : Type 0} (n n' : Node O) → Alike n n' → IsQuiet n → IsQuiet n'
IsQuiet-Alike n n' same q = rw (same.0, same.1, same.2) q

polls_idle :
    (cs : List SdoChannel) (now : ℕ)
    → All IsIdleChannel cs
    → All IsIdleChannel (map (λ c. begin_poll c now) cs)
polls_idle [] now idle = _
polls_idle (c ∷ cs) now idle = (begin_poll-idle c now idle.0, polls_idle cs now idle.1)

module _ {O : Type 0} (dict : ObjectDictionary O) {T : Type 0}
    (transmit : T → CanFrame → T × Sent) where
  begin_polls-IsQuiet :
      (n : Node O) (now : ℕ) → IsQuiet n → IsQuiet (begin_polls dict transmit n now)
  unfolding begin_polls
  begin_polls-IsQuiet n now q = (begin_poll-idle n.default now q.0, polls_idle n.extra now q.1, q.2)

  drain-returns :
      (n : Node O) (fs : List CanFrame) (now : ℕ) (t : T)
      → n.nmt.state ≡ stopped
      → NoCommand fs
      → (r : Node O × T) × ((drain dict transmit n fs now t ≡ some r) × Alike n r.0)
  unfolding drain
  drain-returns n [] now t s free = ((n, t), (refl, (refl, refl, refl)))
  drain-returns n (f ∷ fs) now t s free =
      let (m, both) = dispatch_frame-returns dict transmit n f now t s free.0 in
      let gated =
        dispatch_frame-Untouched dict transmit n f now t m (rw s refl) (inl (rw s refl)) both.0 in
      let same_nmt : m.0.nmt ≡ n.nmt = elim gated.1 [
        | inl command ↦ absurd (free.0 command)
        | inr k ↦ k
      ] in
      let still : m.0.nmt.state ≡ stopped = ap (λ h. h.state) same_nmt ∙ s in
      let (r, rest) = drain-returns m.0 fs now m.1 still free.1 in
      let (d, e, h) = both.1 in
      let (d', e', h') = rest.1 in (r, (ground (arith, both.0, rest.0), (d' ∙ d, e' ∙ e, h' ∙ h)))

  serve_channels-heartbeat :
      (n : Node O) (now : ℕ) (t : T) (r : Node O × T)
      → serve_channels dict transmit n now t ≡ some r
      → r.0.heartbeat ≡ n.heartbeat
  unfolding serve_channels
  serve_channels-heartbeat n now t r e = ground arith

  retry-heartbeat :
      (n : Node O) (now : ℕ) (t : T)
      → (retry_pending_sync_tpdo dict transmit n now t).0.heartbeat ≡ n.heartbeat
  unfolding retry_pending_sync_tpdo
  retry-heartbeat n now t = ground arith

  deadlines-heartbeat :
      (n : Node O) (now : ℕ) → n.nmt.state ≡ stopped → (deadlines n now).heartbeat ≡ n.heartbeat
  unfolding deadlines leave_operational
  deadlines-heartbeat n now s = ground (arith, s)

  after_receive-returns :
      (n : Node O) (now : ℕ) (t : T)
      → n.nmt.state ≡ stopped
      → IsQuiet n
      → after_receive dict transmit n now t ≢ none
  unfolding after_receive
  after_receive-returns n now t s q panic =
      elim (Option-cases (serve_channels dict transmit n now t)) [
        | inl stuck ↦ serve_channels-returns dict transmit n now t q.0 q.1 stuck
        | inr (a, served) ↦
            let kept = serve_channels-Kept dict transmit n now t a served in
            let still : a.0.nmt.state ≡ stopped = ap (λ h. h.state) kept.2 ∙ s in
            let nothing = produce_sync-stopped dict transmit a.0 now a.1 still in
            let (n2, t2) = retry_pending_sync_tpdo dict transmit a.0 now a.1 in
            let stays : n2.nmt.state ≡ stopped =
              ap (λ h. h.state) (retry_pending_sync_tpdo-Kept dict transmit a.0 now a.1).2
              ∙ still in
            let low : (deadlines n2 now).heartbeat.node_id ≤ 127 =
              rw
                (
                  deadlines-heartbeat n2 now stays,
                  retry-heartbeat a.0 now a.1,
                  serve_channels-heartbeat n now t a served,
                )
                q.2 in
            elim (Option-cases (send_heartbeat dict transmit (deadlines n2 now) now t2)) [
              | inl stuck ↦ send_heartbeat-returns dict transmit (deadlines n2 now) now t2 low stuck
              | inr (b, sent) ↦ ground (arith, served, nothing, sent, panic)
            ]
      ]

  process_node-returns :
      (n : Node O) (now : ℕ) (received : List CanFrame) (t : T)
      → n.booted ≡ true
      → n.nmt.state ≡ stopped
      → NoCommand received
      → IsQuiet n
      → process_node dict transmit n now received t ≢ none
  unfolding process_node boot begin_polls
  process_node-returns n now received t b s free q panic =
      let latched : Node O = record n { tpdo = latch_sync_events n.tpdo n.dirty_set } in
      let begun = begin_polls dict transmit latched now in
      let (m, drained) = drain-returns begun received now t s free in
      let kept = drain-Kept dict transmit begun received now t m s free drained.0 in
      let quiet = IsQuiet-Alike begun m.0 drained.1 (begin_polls-IsQuiet latched now q) in
      after_receive-returns m.0 now m.1 (ap (λ h. h.state) kept.2 ∙ s) quiet
        (ground (arith, b, drained.0, panic))

-- A call on a booted node that is stopped, whose SDO servers are idle, and that receives no NMT
-- command does not panic, and leaves the dictionary, its event queue and the NMT state as they
-- are, whatever else is received and whatever the transport says.
pub process_node_stopped :
    {O T : Type 0} (dict : ObjectDictionary O) (transmit : T → CanFrame → T × Sent) (n : Node O)
    (now : ℕ) (received : List CanFrame) (t : T)
    → n.booted ≡ true
    → n.nmt.state ≡ stopped
    → NoCommand received
    → IsQuiet n
    → (r : Node O × T) × ((process_node dict transmit n now received t ≡ some r) × Kept n r.0)
process_node_stopped dict transmit n now received t b s free q =
    elim (Option-cases (process_node dict transmit n now received t)) [
      | inl panic ↦ absurd (process_node-returns dict transmit n now received t b s free q panic)
      | inr (r, done) ↦
          (r, (done, process_node-Kept dict transmit n now received t r b s free done))
    ]
