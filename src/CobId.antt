-- ===== src/CobId.antt =====
-- canopen-core/src/cobid.rs: node ids, COB-IDs and the pre-defined connection set.
pub mod RoundTrip
use yacob.Base.{ℕ, ◌+◌, ◌-◌, ◌*◌, Bool, ◌&&◌, if◌then◌else◌, leb, ◌==◌, bit_and, Option, none, some}
use yacob.Base.Bytes.{u8}

-- `NodeId(u8)` and `CobId(u16)`, by the number inside.
abbrev pub NodeId : Type 0
NodeId = ℕ

abbrev pub CobId : Type 0
CobId = ℕ

-- `NodeId::new`.
unfoldable pub new_node_id : ℕ → Option NodeId
new_node_id id = if leb 1 id && leb id 127 then some id else none

-- `CobId::new`.
unfoldable pub new_cob_id : ℕ → Option CobId
new_cob_id raw = if leb raw 0x7FF then some raw else none

pub data ParsedCobId : Type 0 where
  nmt sync : ParsedCobId
  emergency : NodeId → ParsedCobId
  tpdo rpdo : ℕ → NodeId → ParsedCobId
  sdo_response sdo_request heartbeat : NodeId → ParsedCobId
  unknown : ℕ → ParsedCobId

-- A range pattern `lo..=hi`.
abbrev within : ℕ → ℕ → ℕ → Bool
within lo hi raw = leb lo raw && leb raw hi

-- `match NodeId::new(id) { Some(n) => make(n), None => Unknown(raw) }`.
abbrev with_node : ℕ → ℕ → (NodeId → ParsedCobId) → ParsedCobId
with_node raw id make = elim (new_node_id id) [ some n ↦ make n | none ↦ unknown raw ]

-- `CobId::parse`, the arms in the order of the source; the later arms are functions of their own.
unfoldable pub parse_sdo : CobId → ParsedCobId
unfolding new_node_id
parse_sdo raw =
    if within 0x581 0x5FF raw
    then with_node raw (u8 (raw - 0x580)) sdo_response
    else if within 0x601 0x67F raw
    then with_node raw (u8 (raw - 0x600)) sdo_request
    else if within 0x701 0x77F raw
    then with_node raw (u8 (raw - 0x700)) heartbeat
    else unknown raw

unfoldable pub parse_high_pdo : CobId → ParsedCobId
unfolding new_node_id
parse_high_pdo raw =
    if within 0x381 0x3FF raw
    then with_node raw (u8 (raw - 0x380)) (tpdo 2)
    else if within 0x401 0x47F raw
    then with_node raw (u8 (raw - 0x400)) (rpdo 2)
    else if within 0x481 0x4FF raw
    then with_node raw (u8 (raw - 0x480)) (tpdo 3)
    else if within 0x501 0x57F raw
    then with_node raw (u8 (raw - 0x500)) (rpdo 3)
    else parse_sdo raw

unfoldable pub parse_low_pdo : CobId → ParsedCobId
unfolding new_node_id
parse_low_pdo raw =
    if within 0x181 0x1FF raw
    then with_node raw (u8 (raw - 0x180)) (tpdo 0)
    else if within 0x201 0x27F raw
    then with_node raw (u8 (raw - 0x200)) (rpdo 0)
    else if within 0x281 0x2FF raw
    then with_node raw (u8 (raw - 0x280)) (tpdo 1)
    else if within 0x301 0x37F raw
    then with_node raw (u8 (raw - 0x300)) (rpdo 1)
    else parse_high_pdo raw

unfoldable pub parse : CobId → ParsedCobId
unfolding new_node_id
parse raw =
    if raw == 0x000
    then nmt
    else if raw == 0x080
    then sync
    else if within 0x081 0x0FF raw
    then with_node raw (u8 (bit_and raw 0x7F)) emergency
    else parse_low_pdo raw

unfoldable pub nmt_cob : CobId
nmt_cob = 0x000

unfoldable pub sync_cob : CobId
sync_cob = 0x080

unfoldable pub emergency_cob : NodeId → CobId
emergency_cob node = 0x080 + node

-- The argument is a `PdoNumber`, 1 to 512.
unfoldable pub tpdo_cob : ℕ → NodeId → Option CobId
tpdo_cob n node = if within 1 4 n then some (0x80 + 0x100 * n + node) else none

unfoldable pub rpdo_cob : ℕ → NodeId → Option CobId
rpdo_cob n node = if within 1 4 n then some (0x100 + 0x100 * n + node) else none

unfoldable pub sdo_tx_cob : NodeId → CobId
sdo_tx_cob node = 0x580 + node

unfoldable pub sdo_rx_cob : NodeId → CobId
sdo_rx_cob node = 0x600 + node

unfoldable pub heartbeat_cob : NodeId → CobId
heartbeat_cob node = 0x700 + node
