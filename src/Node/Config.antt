-- ===== src/Node/Config.antt =====
-- canopen-core/src/node.rs: what the node re-reads from its dictionary. A read gets the buffer
-- that the one before it left, as in the source.
use yacob.Base.{
  ℕ, zero, suc, ◌+◌, ◌-◌, min, Bool, true, false, not, ◌&&◌, if◌then◌else◌, ◌==◌, bit_and, List, [],
  ◌∷◌, get_or, replicate, Option, none, some,
}
use yacob.Base.Bytes.{u8, u16, ◌>>>◌, has_bits, from_le32, from_le16}
use yacob.Base.Results.{Result, ok, err}
use yacob.Sdo.Od.{OdError, ObjectDictionary}
use yacob.CobId.{NodeId, new_node_id}
use yacob.Nmt.{new_nmt}
use yacob.Node.{Node, ResetType, abort_all_sdo_transfers}
use yacob.Pdo.{PdoMapping, from_mapping_value}
use yacob.Pdo.Tpdo.{TpdoEngine, TpdoSlot, reset_communication_state}
use yacob.Pdo.Rpdo.{RpdoSlot, discard_pending, reset_deadline_monitoring}
use yacob.Sync.{
  SyncCobId, from_raw, is_supported_sync_cob_id, is_valid_sync_counter_overflow, reset_window,
  set_cob_id, configure_window, configure, reset_consumer, reset_producer,
}
use yacob.Heartbeat.{HeartbeatMonitor, set_interval_ms, new_monitor}

-- `self.od.read(..).is_ok()`, and the buffer after it.
abbrev pub is_ok : Result ℕ OdError → Bool
is_ok (ok n) = true
is_ok (err e) = false

abbrev pub le32_of : List ℕ → ℕ
le32_of buf = from_le32 (get_or buf 0 0) (get_or buf 1 0) (get_or buf 2 0) (get_or buf 3 0)

abbrev pub le16_of : List ℕ → ℕ
le16_of buf = from_le16 (get_or buf 0 0) (get_or buf 1 0)

unfoldable pub pdo_od_offset : ℕ → ℕ → ℕ
pdo_od_offset od_number slot = if od_number == 0 then u16 slot else od_number - 1

module _ {O : Type 0} (dict : ObjectDictionary O) where
  unfoldable pub read_buf : O → ℕ → ℕ → List ℕ → Bool × List ℕ
  read_buf od index subindex buf =
      (is_ok (dict.read od index subindex buf).0, (dict.read od index subindex buf).1)

  -- The loop over the mapping entries: `count` are left, from `sub` on.
  unfoldable pub read_mappings : O → ℕ → ℕ → ℕ → List ℕ → List PdoMapping × List ℕ
  read_mappings od map_idx sub zero buf = ([], buf)
  read_mappings od map_idx sub (suc count) buf =
      let (found, buf') = read_buf od map_idx sub buf in
      let (rest, buf'') = read_mappings od map_idx (sub + 1) count buf' in
      ((if found then from_mapping_value (le32_of buf') ∷ rest else rest), buf'')

  unfoldable pub mappings_from_od : O → ℕ → List ℕ → List PdoMapping × List ℕ
  mappings_from_od od map_idx buf =
      let (found, buf') = read_buf od map_idx 0 buf in
      if found then read_mappings od map_idx 1 (min (get_or buf' 0 0) 64) buf' else ([], buf')

  -- The COB-ID entry of a PDO: whether it is enabled, and the COB-ID.
  abbrev pub cob_entry_enabled : ℕ → Bool
  cob_entry_enabled word = not (has_bits word 0x8000_0000) && has_bits word 0x7FF

  -- One round of the first loop of `sync_pdo_from_od`, with both buffers.
  unfoldable pub tpdo_from_od : O → ℕ → TpdoSlot → List ℕ → List ℕ → TpdoSlot × List ℕ × List ℕ
  tpdo_from_od od slot s buf4 buf2 =
      let off = pdo_od_offset s.pdo.od_number slot in
      let (has_cob, cob) = read_buf od (0x1800 + off) 1 buf4 in
      let (has_type, kind) = read_buf od (0x1800 + off) 2 cob in
      let (has_inhibit, inhibit) = read_buf od (0x1800 + off) 3 buf2 in
      let (has_timer, timer) = read_buf od (0x1800 + off) 5 inhibit in
      let (entries, buf4') = mappings_from_od od (0x1A00 + off) kind in
      (
        record s {
          pdo = record {
            od_number = s.pdo.od_number;
            cob_id = if has_cob then u16 (bit_and (le32_of cob) 0x7FF) else s.pdo.cob_id;
            transmission_type = if has_type then get_or kind 0 0 else s.pdo.transmission_type;
            inhibit_time_100us = if has_inhibit then le16_of inhibit else s.pdo.inhibit_time_100us;
            event_timer_ms = if has_timer then le16_of timer else s.pdo.event_timer_ms;
            mappings = entries;
            enabled = if has_cob then cob_entry_enabled (le32_of cob) else s.pdo.enabled;
          };
        },
        buf4',
        timer,
      )

  unfoldable pub tpdos_from_od : O → ℕ → TpdoEngine → List ℕ → List ℕ → TpdoEngine × List ℕ × List ℕ
  tpdos_from_od od slot [] buf4 buf2 = ([], buf4, buf2)
  tpdos_from_od od slot (s ∷ ss) buf4 buf2 =
      let (s', b4, b2) = tpdo_from_od od slot s buf4 buf2 in
      let (ss', b4', b2') = tpdos_from_od od (slot + 1) ss b4 b2 in (s' ∷ ss', b4', b2')

  -- The second loop.
  unfoldable pub rpdo_from_od : O → ℕ → RpdoSlot → List ℕ → List ℕ → RpdoSlot × List ℕ × List ℕ
  rpdo_from_od od slot s buf4 buf2 =
      let off = pdo_od_offset s.pdo.od_number slot in
      let (has_cob, cob) = read_buf od (0x1400 + off) 1 buf4 in
      let (has_type, kind) = read_buf od (0x1400 + off) 2 cob in
      let (has_deadline, deadline) = read_buf od (0x1400 + off) 5 buf2 in
      let (entries, buf4') = mappings_from_od od (0x1600 + off) kind in
      (
        record s {
          pdo = record {
            od_number = s.pdo.od_number;
            cob_id = if has_cob then u16 (bit_and (le32_of cob) 0x7FF) else s.pdo.cob_id;
            transmission_type = if has_type then get_or kind 0 0 else s.pdo.transmission_type;
            deadline_ms = if has_deadline then le16_of deadline else s.pdo.deadline_ms;
            mappings = entries;
            enabled = if has_cob then cob_entry_enabled (le32_of cob) else s.pdo.enabled;
          };
        },
        buf4',
        deadline,
      )

  unfoldable pub rpdos_from_od :
      O → ℕ → List RpdoSlot → List ℕ → List ℕ → List RpdoSlot × List ℕ × List ℕ
  rpdos_from_od od slot [] buf4 buf2 = ([], buf4, buf2)
  rpdos_from_od od slot (s ∷ ss) buf4 buf2 =
      let (s', b4, b2) = rpdo_from_od od slot s buf4 buf2 in
      let (ss', b4', b2') = rpdos_from_od od (slot + 1) ss b4 b2 in (s' ∷ ss', b4', b2')

  -- `sync_pdo_from_od`.
  unfoldable pub sync_pdo_from_od : Node O → Node O
  sync_pdo_from_od n =
      let (tpdo, b4, b2) = tpdos_from_od n.od 0 n.tpdo (replicate 4 0) (replicate 2 0) in
      let (slots, b4', b2') = rpdos_from_od n.od 0 n.rpdo.slots b4 b2 in
      record n { tpdo = tpdo; rpdo = record (n.rpdo) { slots = slots } }

  -- The monitor that an entry of 0x1016 asks for.
  unfoldable pub monitor_entry : ℕ → Option (NodeId × ℕ)
  monitor_entry word =
      let time_ms = u16 (bit_and word 0xFFFF) in
      if time_ms == 0 then none else elim (new_node_id (u8 (bit_and (word >>> 16) 0xFF))) [
        | none ↦ none
        | some node ↦ some (node, time_ms)
      ]

  -- One slot of the monitors: the one that is there stays if it may and nothing changed.
  unfoldable pub configure_monitor :
      Bool → Option (NodeId × ℕ) → Option HeartbeatMonitor → Option HeartbeatMonitor
  configure_monitor preserve none existing = none
  configure_monitor preserve (some c) none = some (new_monitor c.0 c.1)
  configure_monitor preserve (some c) (some m) =
      if preserve && (m.node_id == c.0 && m.timeout_ms == c.1)
      then some m
      else some (new_monitor c.0 c.1)

  unfoldable pub monitors_from_od :
      O → Bool → ℕ → List (Option HeartbeatMonitor) → List ℕ → List (Option HeartbeatMonitor)
  monitors_from_od od preserve slot [] buf = []
  monitors_from_od od preserve slot (m ∷ ms) buf =
      let (found, buf') = read_buf od 0x1016 (u8 (slot + 1)) buf in
      configure_monitor preserve (if found then monitor_entry (le32_of buf') else none) m
      ∷ monitors_from_od od preserve (slot + 1) ms buf'

  -- `sync_heartbeat_from_od`.
  unfoldable pub sync_heartbeat_from_od : Node O → Bool → Node O
  sync_heartbeat_from_od n preserve =
      let (found, buf) = read_buf n.od 0x1017 0 (replicate 2 0) in
      record n {
        heartbeat = if found then set_interval_ms n.heartbeat (le16_of buf) else n.heartbeat;
        hb_monitors = monitors_from_od n.od preserve 0 n.hb_monitors (replicate 4 0);
      }

  -- The SYNC object: what 0x1005 says, or the default; `none` is the failed assertion.
  unfoldable pub sync_object : O → List ℕ → Option SyncCobId
  sync_object od buf =
      let (found, buf') = read_buf od 0x1005 0 buf in
      if found
      then (if is_supported_sync_cob_id (le32_of buf') then from_raw (le32_of buf') else none)
      else some (record { cob_id = 0x80; produce = false })

  -- A 32-bit entry, or 0, and the buffer.
  abbrev pub word_or_zero : O → ℕ → List ℕ → ℕ × List ℕ
  word_or_zero od index buf =
      let (found, buf') = read_buf od index 0 buf in ((if found then le32_of buf' else 0), buf')

  -- `sync_config_from_od`; `none` is a failed assertion.
  unfoldable pub sync_config_from_od : Node O → Option (Node O)
  sync_config_from_od n =
      let buf = (read_buf n.od 0x1005 0 (replicate 4 0)).1 in
      let (period_us, buf') = word_or_zero n.od 0x1006 buf in
      let (window_us, buf'') = word_or_zero n.od 0x1007 buf' in
      let (counted, buf1) = read_buf n.od 0x1019 0 (replicate 1 0) in
      let overflow = if counted then get_or buf1 0 0 else 0 in
      elim (sync_object n.od (replicate 4 0)) [
        | none ↦ none
        | some s ↦
            if is_valid_sync_counter_overflow overflow
            then some (record n {
              sync = set_cob_id n.sync s.cob_id;
              sync_window = configure_window n.sync_window window_us;
              sync_producer =
                  configure n.sync_producer (if s.produce then s.cob_id else 0) period_us overflow;
            })
            else none
      ]

  -- `reset_sync_state`.
  abbrev pub clear_sync_state : Node O → Node O
  clear_sync_state n = record n {
    sync = reset_consumer n.sync;
    sync_producer = reset_producer n.sync_producer;
    sync_window = reset_window n.sync_window;
    pending_sync_tpdo = [];
    sync_tpdo_last_attempt_us = none;
    rpdo = reset_deadline_monitoring (discard_pending n.rpdo);
    dirty_set = [];
    tpdo = reset_communication_state n.tpdo;
  }

  unfoldable pub reset_sync_state : Node O → Option (Node O)
  reset_sync_state n = elim (sync_config_from_od n) [
    | none ↦ none
    | some n' ↦ some (clear_sync_state n')
  ]

  -- What a reset does before the state machine: `request_reset`, and the arms of `dispatch_frame`.
  unfoldable pub reset_services : ResetType → Node O → Option (Node O)
  reset_services kind n = reset_sync_state (
      sync_heartbeat_from_od
        (sync_pdo_from_od
          (abort_all_sdo_transfers (record n { reset_event = some kind; booted = false })))
        false)

  -- `request_reset`.
  unfoldable pub request_reset : Node O → ResetType → Option (Node O)
  request_reset n kind = elim (reset_services kind n) [
    | none ↦ none
    | some n' ↦ some (record n' { nmt = new_nmt })
  ]
