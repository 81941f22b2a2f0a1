-- ===== src/Node/Dispatch.antt =====
-- canopen-core/src/node.rs: an SDO request, and the service that a received frame goes to.
use yacob.Base.{
  ℕ, min, Bool, true, false, not, ◌&&◌, ◌||◌, if◌then◌else◌, ltb, leb, ◌==◌, List, [], ◌∷◌, ◌++◌,
  length, contains, Option, none, some,
}
use yacob.Can.{CanFrame}
use yacob.Sdo.Od.{ObjectDictionary}
use yacob.Node.{
  Node, SdoChannel, Sent, application, communication, abort_all_sdo_transfers, leave_operational,
  push_heartbeat_events,
}
use yacob.CobId.{emergency_cob, heartbeat_cob}
use yacob.Nmt.{
  NmtState, initializing, pre_operational, operational, stopped, same_state, NmtTransition,
  no_change, state_changed, reset_application, reset_communication_only, from_byte, process_command,
}
use yacob.Sdo.Server.State.{Reply, respond, silent, panicked, take_committed_write}
use yacob.Sdo.Server.Process.{process_with_context}
use yacob.Sdo.Validate.{SdoContext}
use yacob.Sync.{SyncConsumer, consumer_cob_id, consume}
use yacob.Heartbeat.{HeartbeatMonitor, process_heartbeat}
use yacob.Lss.{process_lss}
use yacob.Pdo.Pack.{saturating_add32}
use yacob.Pdo.Tpdo.{TpdoEngine}
use yacob.Pdo.Rpdo.{RpdoSlot, is_some}
use yacob.Node.Config.{
  sync_pdo_from_od, sync_heartbeat_from_od, sync_config_from_od, reset_services,
}
use yacob.Node.Channel.{queue_response, try_send}
use yacob.Node.Pulse.{handle_sync, process_rpdo_frame}

-- `reserved_cob_ids`: a list of 32, and whether everything fitted.
abbrev pub tpdo_cobs : TpdoEngine → List ℕ
tpdo_cobs [] = []
tpdo_cobs (s ∷ ss) = s.pdo.cob_id ∷ tpdo_cobs ss

abbrev pub rpdo_cobs : List RpdoSlot → List ℕ
rpdo_cobs [] = []
rpdo_cobs (s ∷ ss) = s.pdo.cob_id ∷ rpdo_cobs ss

abbrev pub monitor_cobs : List (Option HeartbeatMonitor) → List ℕ
monitor_cobs [] = []
monitor_cobs (none ∷ ms) = monitor_cobs ms
monitor_cobs (some m ∷ ms) = heartbeat_cob m.node_id ∷ monitor_cobs ms

unfoldable pub reserve : List ℕ → List ℕ → Bool → List ℕ × Bool
reserve [] out complete = (out, complete)
reserve (cob ∷ cobs) out complete =
    if cob == 0 || contains out cob
    then reserve cobs out complete
    else if ltb (length out) 32
    then reserve cobs (out ++ cob ∷ []) complete
    else reserve cobs out false

abbrev pub rx_cobs : List SdoChannel → List ℕ
rx_cobs [] = []
rx_cobs (c ∷ cs) = c.rx ∷ rx_cobs cs

abbrev pub tx_cobs : List SdoChannel → List ℕ
tx_cobs [] = []
tx_cobs (c ∷ cs) = c.tx ∷ tx_cobs cs

-- The first channel, and the first monitor, that a COB-ID belongs to, and its replacement.
unfoldable pub channel_for : List SdoChannel → ℕ → Option SdoChannel
channel_for [] id = none
channel_for (c ∷ cs) id = if c.rx == id then some c else channel_for cs id

unfoldable pub put_channel : List SdoChannel → ℕ → SdoChannel → List SdoChannel
put_channel [] id c' = []
put_channel (c ∷ cs) id c' = if c.rx == id then c' ∷ cs else c ∷ put_channel cs id c'

unfoldable pub monitor_for : List (Option HeartbeatMonitor) → ℕ → Option HeartbeatMonitor
monitor_for [] id = none
monitor_for (none ∷ ms) id = monitor_for ms id
monitor_for (some m ∷ ms) id = if heartbeat_cob m.node_id == id then some m else monitor_for ms id

unfoldable pub put_monitor :
    List (Option HeartbeatMonitor) → ℕ → HeartbeatMonitor → List (Option HeartbeatMonitor)
put_monitor [] id m' = []
put_monitor (none ∷ ms) id m' = none ∷ put_monitor ms id m'
put_monitor (some m ∷ ms) id m' =
    if heartbeat_cob m.node_id == id then some m' ∷ ms else some m ∷ put_monitor ms id m'

-- Pre-Operational or Operational.
abbrev pub serves_sdo : NmtState → Bool
serves_sdo pre_operational = true
serves_sdo operational = true
serves_sdo initializing = false
serves_sdo stopped = false

abbrev pub is_sync_cob : SyncConsumer → ℕ → Bool
is_sync_cob s id = elim (consumer_cob_id s) [ none ↦ false | some cob ↦ cob == id ]

module _ {O : Type 0} (dict : ObjectDictionary O) {T : Type 0}
    (transmit : T → CanFrame → T × Sent) where
  -- The context of a request.
  unfoldable pub sdo_context : Node O → ℕ → SdoContext
  sdo_context n now =
      let fixed = emergency_cob n.node_id ∷ heartbeat_cob n.node_id ∷ 0x7E5 ∷ 0x7E4 ∷ [] in
      let (ids, complete) =
        reserve (fixed ++ tpdo_cobs n.tpdo ++ rpdo_cobs n.rpdo.slots ++ monitor_cobs n.hb_monitors)
          [] true in
      record {
        nmt_state = n.nmt.state;
        now_us = now;
        heartbeat_consumer_count =
            min (elim (dict.sub_count n.od 0x1016) [ none ↦ 0 | some count ↦ count ]) 8;
        cob_ids = record {
          default_rx = n.default.rx;
          default_tx = n.default.tx;
          extra_rx = rx_cobs n.extra;
          extra_tx = tx_cobs n.extra;
        };
        reserved_cob_ids = record { ids = ids; truncated = not complete };
        sync_cob_id = elim (consumer_cob_id n.sync) [ none ↦ 0 | some cob ↦ cob ];
      }

  -- What a committed write makes the node re-read; `none` is a failed assertion.
  unfoldable pub resync : Node O → Option (ℕ × ℕ) → Option (Node O)
  resync n none = some n
  resync n (some c) =
      let n' = if leb 0x1400 c.0 && leb c.0 0x1BFF then sync_pdo_from_od dict n else n in
      let n'' =
        if c.0 == 0x1016 || c.0 == 0x1017 then sync_heartbeat_from_od dict n' true else n' in
      if c.0 == 0x1005 || (c.0 == 0x1006 || (c.0 == 0x1007 || c.0 == 0x1019))
      then sync_config_from_od dict n''
      else some n''

  -- The response of a server, queued and offered to the transport; `none` is a panic.
  unfoldable pub answer : SdoChannel → Reply → ℕ → T → Option (SdoChannel × T)
  answer c silent now t = some (c, t)
  answer c panicked now t = none
  answer c (respond r) now t = some (try_send transmit (queue_response c r now) t)

  -- `handle_sdo_request` on the channel that was selected, which comes back beside the node.
  unfoldable pub handle_sdo_request :
      Node O → SdoChannel → CanFrame → ℕ → T → Option (Node O × SdoChannel × T)
  handle_sdo_request n c f now t =
      let cleared : SdoChannel = record c {
        pending = record { frame = none; refused_this_poll = c.pending.refused_this_poll };
      } in
      if not (serves_sdo n.nmt.state) || not (f.dlc == 8)
      then some (n, c, t)
      else if not (f.bytes.b0 == 0x80) && is_some c.pending.frame
      then some (n, c, t)
      else let o =
          process_with_context dict n.event_capacity cleared.server f.bytes n.od n.event_queue
            (sdo_context n now) in
        let (committed, server) = take_committed_write o.server in
        let overflow =
          if length n.event_queue == n.event_capacity && is_some committed
          then saturating_add32 n.event_overflow_count 1
          else n.event_overflow_count in
        elim (answer (record cleared { server = server }) o.reply now t) [
          | none ↦ none
          | some (c', t') ↦
              elim (resync
                (record n { od = o.od; event_queue = o.events; event_overflow_count = overflow })
                committed) [ none ↦ none | some n' ↦ some (n', c', t') ]
        ]

  -- The arms behind an NMT command.
  unfoldable pub follow_transition : Node O → NmtTransition → Option (Node O)
  follow_transition n reset_application = reset_services dict application n
  follow_transition n reset_communication_only = reset_services dict communication n
  follow_transition n no_change = some n
  follow_transition n state_changed =
      if same_state n.nmt.state operational
      then some n
      else let n' = leave_operational n in
        some (if same_state n.nmt.state stopped then abort_all_sdo_transfers n' else n')

  unfoldable pub handle_nmt : Node O → CanFrame → Option (Node O)
  handle_nmt n f = if not (f.dlc == 2) then some n else elim (from_byte f.bytes.b0) [
    | none ↦ some n
    | some cmd ↦
        let (nmt, transition) = process_command n.nmt cmd f.bytes.b1 n.node_id in
        follow_transition (record n { nmt = nmt }) transition
  ]

  -- An LSS request, a heartbeat, and what is left for the RPDO engine.
  unfoldable pub handle_lss : Node O → CanFrame → T → Node O × T
  handle_lss n f t =
      let (lss, response) = process_lss n.lss f in
      elim response [
        | none ↦ (record n { lss = lss }, t)
        | some r ↦ (record n { lss = lss }, (transmit t r).0)
      ]

  unfoldable pub handle_heartbeat : Node O → HeartbeatMonitor → CanFrame → ℕ → Node O
  handle_heartbeat n m f now =
      let (m', events, known) = process_heartbeat m m.node_id f.bytes.b0 now [] in
      push_heartbeat_events (record n { hb_monitors = put_monitor n.hb_monitors f.id m' }) events

  unfoldable pub handle_other : Node O → CanFrame → ℕ → Node O
  handle_other n f now = elim (if f.dlc == 1 then monitor_for n.hb_monitors f.id else none) [
    | some m ↦ handle_heartbeat n m f now
    | none ↦ process_rpdo_frame dict n f now
  ]

  -- `dispatch_frame` behind the additional SDO servers.
  unfoldable pub handle_sync_frame : Node O → CanFrame → ℕ → T → Node O × T
  handle_sync_frame n f now t =
      let (sync, counter) = consume n.sync f in
      elim counter [
        | none ↦ (record n { sync = sync }, t)
        | some k ↦ handle_sync dict transmit (record n { sync = sync }) now t
      ]

  unfoldable pub dispatch_fixed : Node O → CanFrame → ℕ → T → Option (Node O × T)
  dispatch_fixed n f now t =
      if is_sync_cob n.sync f.id
      then some (handle_sync_frame n f now t)
      else if f.id == 0x000
      then elim (handle_nmt n f) [ none ↦ none | some n' ↦ some (n', t) ]
      else if f.id == n.default.rx
      then elim (handle_sdo_request n n.default f now t) [
        | none ↦ none
        | some (n', c, t') ↦ some (record n' { default = c }, t')
      ]
      else if f.id == 0x7E5
      then some (handle_lss n f t)
      else some (handle_other n f now, t)

  -- `dispatch_frame`.
  unfoldable pub dispatch_frame : Node O → CanFrame → ℕ → T → Option (Node O × T)
  dispatch_frame n f now t = elim (channel_for n.extra f.id) [
    | none ↦ dispatch_fixed n f now t
    | some c ↦ elim (handle_sdo_request n c f now t) [
      | none ↦ none
      | some (n', c', t') ↦ some (record n' { extra = put_channel n'.extra f.id c' }, t')
    ]
  ]
