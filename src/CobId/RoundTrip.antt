-- ===== src/CobId/RoundTrip.antt =====
-- Building a COB-ID and parsing it are inverse (canopen-core/src/cobid.rs).
use yacob.Base.{zero, suc, ◌+◌, ◌≤◌, ◌<◌, ◌≡◌, refl, arith, Option, some}
use yacob.Base.Bits.{bit_and_mask}
use yacob.CobId.{
  CobId, ParsedCobId, nmt, sync, emergency, tpdo, rpdo, sdo_response, sdo_request, heartbeat,
  unknown, parse, parse_sdo, parse_high_pdo, parse_low_pdo, nmt_cob, sync_cob, emergency_cob,
  tpdo_cob, rpdo_cob, sdo_tx_cob, sdo_rx_cob, heartbeat_cob,
}

-- A service of the connection set is built by the constructor of its COB-ID.
unfoldable pub build : ParsedCobId → Option CobId
build nmt = some nmt_cob
build sync = some sync_cob
build (emergency n) = some (emergency_cob n)
build (tpdo p n) = tpdo_cob (p + 1) n
build (rpdo p n) = rpdo_cob (p + 1) n
build (sdo_response n) = some (sdo_tx_cob n)
build (sdo_request n) = some (sdo_rx_cob n)
build (heartbeat n) = some (heartbeat_cob n)
build (unknown raw) = some raw

build-parse_sdo : (raw : CobId) → build (parse_sdo raw) ≡ some raw
unfolding build parse_sdo sdo_tx_cob sdo_rx_cob heartbeat_cob
build-parse_sdo raw = ground arith

build-parse_high_pdo : (raw : CobId) → build (parse_high_pdo raw) ≡ some raw
unfolding build parse_high_pdo tpdo_cob rpdo_cob
build-parse_high_pdo raw = ground (arith, build-parse_sdo raw)

build-parse_low_pdo : (raw : CobId) → build (parse_low_pdo raw) ≡ some raw
unfolding build parse_low_pdo tpdo_cob rpdo_cob
build-parse_low_pdo raw = ground (arith, build-parse_high_pdo raw)

-- Parsing any number and building the result again gives the number back.
pub build-parse : (raw : CobId) → build (parse raw) ≡ some raw
unfolding build parse nmt_cob sync_cob emergency_cob
build-parse raw = ground (arith, bit_and_mask 7 raw 0x7F refl, build-parse_low_pdo raw)

-- What `parse` may be given back: a service of a node that exists, or an 11-bit number that
-- belongs to no service.
abbrev pub IsService : ParsedCobId → Type 0
IsService nmt = Unit
IsService sync = Unit
IsService (emergency n) = (1 ≤ n) × (n ≤ 127)
IsService (tpdo p n) = (p < 4) × (1 ≤ n) × (n ≤ 127)
IsService (rpdo p n) = (p < 4) × (1 ≤ n) × (n ≤ 127)
IsService (sdo_response n) = (1 ≤ n) × (n ≤ 127)
IsService (sdo_request n) = (1 ≤ n) × (n ≤ 127)
IsService (heartbeat n) = (1 ≤ n) × (n ≤ 127)
IsService (unknown raw) = ⊥

-- Building the COB-ID of a service of a valid node and parsing it gives the service back.
pub parse-build : (p : ParsedCobId) (raw : CobId) → IsService p → build p ≡ some raw → parse raw ≡ p
unfolding build parse parse_low_pdo parse_high_pdo parse_sdo nmt_cob sync_cob emergency_cob tpdo_cob
    rpdo_cob sdo_tx_cob sdo_rx_cob heartbeat_cob
parse-build nmt raw v e = ground arith
parse-build sync raw v e = ground arith
parse-build (emergency n) raw v e = ground (arith, bit_and_mask 7 raw 0x7F refl)
parse-build (tpdo zero n) raw v e = ground arith
parse-build (tpdo (suc zero) n) raw v e = ground arith
parse-build (tpdo (suc (suc zero)) n) raw v e = ground arith
parse-build (tpdo (suc (suc (suc zero))) n) raw v e = ground arith steps 10000000
parse-build (tpdo (suc (suc (suc (suc p)))) n) raw v e = absurd (omega arith)
parse-build (rpdo zero n) raw v e = ground arith
parse-build (rpdo (suc zero) n) raw v e = ground arith
parse-build (rpdo (suc (suc zero)) n) raw v e = ground arith steps 10000000
parse-build (rpdo (suc (suc (suc zero))) n) raw v e = ground arith steps 10000000
parse-build (rpdo (suc (suc (suc (suc p)))) n) raw v e = absurd (omega arith)
parse-build (sdo_response n) raw v e = ground arith
parse-build (sdo_request n) raw v e = ground arith
parse-build (heartbeat n) raw v e = ground arith
parse-build (unknown r) raw v e = absurd v
