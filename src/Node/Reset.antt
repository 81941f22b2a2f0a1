-- ===== src/Node/Reset.antt =====
-- What a reset leaves of a node (canopen-core/src/node.rs, `request_reset` and `dispatch_frame`).
use yacob.Base.{
  ℕ, ◌≡◌, ◌⊎◌, inl, inr, refl, ◌∙◌, arith, false, List, [], ◌∷◌, map, none, some, Option-cases,
}
use yacob.Can.{CanFrame}
use yacob.Sdo.Od.{ObjectDictionary}
use yacob.Node.{
  Node, SdoChannel, Sent, ResetType, application, communication, abort_channel,
  abort_all_sdo_transfers,
}
use yacob.Nmt.{NmtHandler, initializing, same_state, from_byte, process_command, new_nmt}
use yacob.Sdo.Server.State.{abort_transfer}
use yacob.Sync.{reset_window, reset_consumer, reset_producer}
use yacob.Pdo.Tpdo.{TpdoEngine, TpdoSlot, reset_communication_state}
use yacob.Pdo.Rpdo.{
  RpdoSlot, RpdoEngine, reset_deadline_monitoring, discard_pending, reset_deadline_slot,
  discard_pending_slot,
}
use yacob.Node.Config.{
  sync_pdo_from_od, sync_heartbeat_from_od, sync_config_from_od, clear_sync_state, reset_sync_state,
  reset_services, request_reset,
}
use yacob.Node.Dispatch.{handle_nmt, follow_transition}

-- A channel without a transfer or a response; a TPDO without an event or a count; an RPDO without
-- a frame or a deadline.
abbrev pub IsIdleChannel : SdoChannel → Type 0
IsIdleChannel c = (c.server.transfer ≡ none) × (c.pending.frame ≡ none)

abbrev pub IsQuietTpdo : TpdoSlot → Type 0
IsQuietTpdo s =
    (s.sync_counter ≡ 0) × (s.sync_event_pending ≡ false) × (s.async_event_pending ≡ false)

abbrev pub IsQuietRpdo : RpdoSlot → Type 0
IsQuietRpdo s = (s.pending ≡ none) × (s.armed ≡ false) × (s.expired ≡ false)

abbrev pub All : {A : Type 0} → (A → Type 0) → List A → Type 0
All P [] = Unit
All P (x ∷ xs) = P x × All P xs

-- The transfers, the process data and the SYNC phase of a node that was reset, or is new.
pub record IsFresh {O : Type 0} (n : Node O) : Type 0 where
  pub default_idle : IsIdleChannel n.default
  pub extra_idle : All IsIdleChannel n.extra
  pub tpdo_quiet : All IsQuietTpdo n.tpdo
  pub rpdo_quiet : All IsQuietRpdo n.rpdo.slots
  pub no_dirty : n.dirty_set ≡ []
  pub no_refused : n.pending_sync_tpdo ≡ []
  pub window_shut : n.sync_window.active ≡ false
  pub counter_zero : n.sync.counter ≡ 0
  pub producer_unarmed : n.sync_producer.armed ≡ false
  pub unbooted : n.booted ≡ false

channels_idle : (cs : List SdoChannel) → All IsIdleChannel (map abort_channel cs)
unfolding abort_transfer
channels_idle [] = _
channels_idle (c ∷ cs) = ((refl, refl), channels_idle cs)

tpdos_quiet : (ss : TpdoEngine) → All IsQuietTpdo (reset_communication_state ss)
unfolding reset_communication_state
tpdos_quiet [] = _
tpdos_quiet (s ∷ ss) = ((refl, refl, refl), tpdos_quiet ss)

rpdos_quiet :
    (e : RpdoEngine) → All IsQuietRpdo (reset_deadline_monitoring (discard_pending e)).slots
unfolding reset_deadline_monitoring discard_pending
rpdos_quiet e = go e.slots
  where
    go :
        (ss : List RpdoSlot)
        → All IsQuietRpdo (map reset_deadline_slot (map discard_pending_slot ss))
    go [] = _
    go (s ∷ ss) = ((refl, refl, refl), go ss)

module _ {O : Type 0} (dict : ObjectDictionary O) where
  clear_sync_state-IsFresh :
      (n : Node O)
      → IsIdleChannel n.default
      → All IsIdleChannel n.extra
      → n.booted ≡ false
      → IsFresh (clear_sync_state dict n)
  unfolding reset_window reset_consumer reset_producer
  clear_sync_state-IsFresh n d e b = record {
    default_idle = d;
    extra_idle = e;
    tpdo_quiet = tpdos_quiet n.tpdo;
    rpdo_quiet = rpdos_quiet n.rpdo;
    no_dirty = refl;
    no_refused = refl;
    window_shut = refl;
    counter_zero = refl;
    producer_unarmed = refl;
    unbooted = b;
  }

  -- Re-reading the SYNC objects changes nothing else.
  sync_config_from_od-keeps :
      (n n' : Node O)
      → sync_config_from_od dict n ≡ some n'
      → (n'.default ≡ n.default)
        × (n'.extra ≡ n.extra)
        × (n'.booted ≡ n.booted)
        × (n'.nmt ≡ n.nmt)
        × (n'.od ≡ n.od)
        × (n'.reset_event ≡ n.reset_event)
        × (n'.event_queue ≡ n.event_queue)
  unfolding sync_config_from_od
  sync_config_from_od-keeps n n' e = ground arith

  -- The node on which the SYNC objects are re-read.
  unfoldable pub prepared : ResetType → Node O → Node O
  prepared kind n =
      sync_heartbeat_from_od dict
        (sync_pdo_from_od dict
          (abort_all_sdo_transfers (record n { reset_event = some kind; booted = false })))
        false

  pub prepared-idle :
      (kind : ResetType) (n : Node O)
      → IsIdleChannel (prepared kind n).default
        × All IsIdleChannel (prepared kind n).extra
        × ((prepared kind n).booted ≡ false)
        × ((prepared kind n).od ≡ n.od)
        × ((prepared kind n).reset_event ≡ some kind)
        × ((prepared kind n).event_queue ≡ n.event_queue)
        × ((prepared kind n).nmt ≡ n.nmt)
  unfolding prepared sync_heartbeat_from_od sync_pdo_from_od abort_all_sdo_transfers abort_transfer
  prepared-idle kind n = ((refl, refl), channels_idle n.extra, refl, refl, refl, refl, refl)

  reset_services-split :
      (kind : ResetType) (n n' : Node O)
      → reset_services dict kind n ≡ some n'
      → (m : Node O) × ((sync_config_from_od dict (prepared kind n) ≡ some m)
          × (n' ≡ clear_sync_state dict m))
  unfolding reset_services reset_sync_state prepared
  reset_services-split kind n n' e =
      elim (Option-cases (sync_config_from_od dict (prepared kind n))) [
        | inl failed ↦ absurd (cc (e, failed))
        | inr (m, found) ↦ (m, (found, cc (e, found)))
      ]

  pub reset_services-IsFresh :
      (kind : ResetType) (n n' : Node O)
      → reset_services dict kind n ≡ some n'
      → IsFresh n'
        × (n'.od ≡ n.od)
        × (n'.reset_event ≡ some kind)
        × (n'.event_queue ≡ n.event_queue)
  reset_services-IsFresh kind n n' e =
      let (m, split) = reset_services-split kind n n' e in
      let before = prepared-idle kind n in
      let kept = sync_config_from_od-keeps (prepared kind n) m split.0 in
      rw split.1 (
        clear_sync_state-IsFresh m (rw kept.0 before.0) (rw kept.1 before.1) (kept.2 ∙ before.2),
        kept.4 ∙ before.3,
        kept.5 ∙ before.4,
        kept.6 ∙ before.5,
      )

  reset_services-nmt :
      (kind : ResetType) (n : Node O) (h : NmtHandler)
      → reset_services dict kind (record n { nmt = h })
        ≡ elim (reset_services dict kind n) [ none ↦ none | some n' ↦ some (record n' { nmt = h }) ]
  unfolding reset_services reset_sync_state sync_config_from_od sync_heartbeat_from_od
      sync_pdo_from_od abort_all_sdo_transfers
  reset_services-nmt kind n h = ground arith

-- The command byte of a reset.
abbrev pub reset_byte : ResetType → ℕ
reset_byte application = 0x81
reset_byte communication = 0x82

-- After a reset that succeeds there is no SDO transfer or response
-- on any channel, no latched event or cycle count of a TPDO, no buffered frame or deadline of an
-- RPDO, and no SYNC phase. The dictionary and its event queue stay, the application can ask
-- which reset it was, and the node waits to boot.
pub succeeded-IsFresh :
    {O : Type 0} (dict : ObjectDictionary O) (n n' : Node O) (kind : ResetType)
    → request_reset dict n kind ≡ some n'
    → IsFresh n'
      × (n'.od ≡ n.od)
      × (n'.reset_event ≡ some kind)
      × (n'.event_queue ≡ n.event_queue)
      × (n'.nmt.state ≡ initializing)
unfolding request_reset new_nmt
succeeded-IsFresh dict n n' kind e = elim (Option-cases (reset_services dict kind n)) [
  | inl failed ↦ absurd (cc (e, failed))
  | inr (m, found) ↦
      let done : n' ≡ record m { nmt = new_nmt } = cc (e, found) in
      let (w, od, event, events) = reset_services-IsFresh dict kind n m found in
      rw done (
        record {
          default_idle = w.default_idle;
          extra_idle = w.extra_idle;
          tpdo_quiet = w.tpdo_quiet;
          rpdo_quiet = w.rpdo_quiet;
          no_dirty = w.no_dirty;
          no_refused = w.no_refused;
          window_shut = w.window_shut;
          counter_zero = w.counter_zero;
          producer_unarmed = w.producer_unarmed;
          unbooted = w.unbooted;
        },
        od,
        event,
        events,
        refl,
      )
]

-- A reset command of the master, for this node or for all, does what a request of the application
-- does, unless the node is still initializing after a reset.
pub handle_nmt-request_reset :
    {O T : Type 0} (dict : ObjectDictionary O) (transmit : T → CanFrame → T × Sent) (n : Node O)
    (f : CanFrame) (kind : ResetType)
    → f.dlc ≡ 2
    → f.bytes.b0 ≡ reset_byte kind
    → (f.bytes.b1 ≡ 0) ⊎ (f.bytes.b1 ≡ n.node_id)
    → same_state n.nmt.state initializing ≡ false
    → handle_nmt dict transmit n f ≡ request_reset dict n kind
unfolding handle_nmt follow_transition request_reset process_command from_byte new_nmt
handle_nmt-request_reset dict transmit n f application len cmd target up =
    ground (arith, len, cmd, target, up, reset_services-nmt dict application n new_nmt)
handle_nmt-request_reset dict transmit n f communication len cmd target up =
    ground (arith, len, cmd, target, up, reset_services-nmt dict communication n new_nmt)
