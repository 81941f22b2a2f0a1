-- ===== src/Events/Frames.antt =====
-- The frame that an event of canopen-core/src/events.rs stands for.
use yacob.Base.{
  ℕ, ◌+◌, ◌*◌, ◌≤◌, ◌<◌, ◌≡◌, refl, arith, List, length, get_or, drop, Option, none, some,
}
use yacob.Base.Bytes.{of_list, from_le16}
use yacob.Base.Bits.{bit_and_mask}
use yacob.Can.{CanFrame, frame_data}
use yacob.CobId.{
  parse_sdo, parse_high_pdo, parse_low_pdo, NodeId, ParsedCobId, nmt, sync, emergency, tpdo, rpdo,
  sdo_response, sdo_request, heartbeat, unknown, new_cob_id, parse, nmt_cob, sync_cob,
  emergency_cob, tpdo_cob, rpdo_cob, sdo_tx_cob, sdo_rx_cob, heartbeat_cob,
}
use yacob.CobId.RoundTrip.{parse-build, build}
use yacob.Nmt.{heartbeat_byte}
use yacob.Emcy.{vendor_bytes, EmcyMessage}
use yacob.Events.{
  CanOpenEvent, nmt_event, sync_event, emcy_event, heartbeat_event, tpdo_event, rpdo_event,
  sdo_response_event, sdo_request_event,
}

-- What a frame has to be for an event: the COB-ID that the service has on the node, and its data.
abbrev pub target_byte : Option NodeId → ℕ
target_byte none = 0
target_byte (some node) = node

abbrev pub IsNode : NodeId → Type 0
IsNode node = (1 ≤ node) × (node ≤ 127)

abbrev pub IsTarget : Option NodeId → Type 0
IsTarget none = Unit
IsTarget (some node) = IsNode node

-- The data of an emergency frame.
abbrev pub EmergencyData : EmcyMessage → List ℕ → Type 0
EmergencyData m xs =
    (8 ≤ length xs)
    × (m.error_code ≡ from_le16 (get_or xs 0 0) (get_or xs 1 0))
    × (m.error_register ≡ get_or xs 2 0)
    × (m.vendor_data ≡ vendor_bytes (drop 3 xs))

unfoldable pub Carries : CanFrame → CanOpenEvent → Type 0
Carries f (nmt_event command target) =
    (f.id ≡ 0)
    × IsTarget target
    × (2 ≤ length (frame_data f))
    × (get_or (frame_data f) 0 0 ≡ command)
    × (get_or (frame_data f) 1 0 ≡ target_byte target)
Carries f sync_event = f.id ≡ 0x080
Carries f (emcy_event m) = (f.id ≡ 0x080 + m.node) × IsNode m.node × EmergencyData m (frame_data f)
Carries f (heartbeat_event node state) =
    (f.id ≡ 0x700 + node)
    × IsNode node
    × (1 ≤ length (frame_data f))
    × (get_or (frame_data f) 0 0 ≡ heartbeat_byte state)
Carries f (tpdo_event p node payload len) =
    (f.id ≡ 0x180 + 0x100 * p + node)
    × IsNode node
    × (p < 4)
    × (len ≡ length (frame_data f))
    × (payload ≡ of_list (frame_data f))
Carries f (rpdo_event p node payload len) =
    (f.id ≡ 0x200 + 0x100 * p + node)
    × IsNode node
    × (p < 4)
    × (len ≡ length (frame_data f))
    × (payload ≡ of_list (frame_data f))
Carries f (sdo_response_event node d) =
    (f.id ≡ 0x580 + node) × IsNode node × (length (frame_data f) ≡ 8) × (d ≡ of_list (frame_data f))
Carries f (sdo_request_event node d) =
    (f.id ≡ 0x600 + node) × IsNode node × (length (frame_data f) ≡ 8) × (d ≡ of_list (frame_data f))

-- The nodes of what `parse` gives exist.
unfoldable pub IsValid : ParsedCobId → Type 0
IsValid nmt = Unit
IsValid sync = Unit
IsValid (emergency n) = IsNode n
IsValid (tpdo p n) = (p < 4) × IsNode n
IsValid (rpdo p n) = (p < 4) × IsNode n
IsValid (sdo_response n) = IsNode n
IsValid (sdo_request n) = IsNode n
IsValid (heartbeat n) = IsNode n
IsValid (unknown raw) = Unit

parse_sdo-IsValid : (raw : ℕ) → IsValid (parse_sdo raw)
unfolding IsValid parse_sdo
parse_sdo-IsValid raw = ground arith

parse_high_pdo-IsValid : (raw : ℕ) → IsValid (parse_high_pdo raw)
unfolding IsValid parse_high_pdo
parse_high_pdo-IsValid raw = ground (arith, parse_sdo-IsValid raw)

parse_low_pdo-IsValid : (raw : ℕ) → IsValid (parse_low_pdo raw)
unfolding IsValid parse_low_pdo
parse_low_pdo-IsValid raw = ground (arith, parse_high_pdo-IsValid raw)

pub parse-IsValid : (raw : ℕ) → IsValid (parse raw)
unfolding IsValid parse
parse-IsValid raw = ground (arith, bit_and_mask 7 raw 0x7F refl, parse_low_pdo-IsValid raw)

-- The service of an event.
unfoldable pub service : CanOpenEvent → ParsedCobId
service (nmt_event command target) = nmt
service sync_event = sync
service (emcy_event m) = emergency m.node
service (heartbeat_event node state) = heartbeat node
service (tpdo_event p node payload len) = tpdo p node
service (rpdo_event p node payload len) = rpdo p node
service (sdo_response_event node d) = sdo_response node
service (sdo_request_event node d) = sdo_request node

pub service-parse : (f : CanFrame) (e : CanOpenEvent) → Carries f e → parse f.id ≡ service e
unfolding Carries service build nmt_cob sync_cob emergency_cob tpdo_cob rpdo_cob sdo_tx_cob
    sdo_rx_cob heartbeat_cob
service-parse f (nmt_event command target) c = parse-build nmt f.id _ (ground arith)
service-parse f sync_event c = parse-build sync f.id _ (ground arith)
service-parse f (emcy_event m) c = parse-build (emergency m.node) f.id c.1 (ground arith)
service-parse f (heartbeat_event node state) c =
    parse-build (heartbeat node) f.id c.1 (ground arith)
service-parse f (tpdo_event p node payload len) c =
    parse-build (tpdo p node) f.id (c.2, c.1.0, c.1.1) (ground arith)
service-parse f (rpdo_event p node payload len) c =
    parse-build (rpdo p node) f.id (c.2, c.1.0, c.1.1) (ground arith)
service-parse f (sdo_response_event node d) c =
    parse-build (sdo_response node) f.id c.1 (ground arith)
service-parse f (sdo_request_event node d) c =
    parse-build (sdo_request node) f.id c.1 (ground arith)

pub Carries-low : (f : CanFrame) (e : CanOpenEvent) → Carries f e → new_cob_id f.id ≡ some f.id
unfolding Carries new_cob_id
Carries-low f (nmt_event command target) c = ground arith
Carries-low f sync_event c = ground arith
Carries-low f (emcy_event m) c = ground arith
Carries-low f (heartbeat_event node state) c = ground arith
Carries-low f (tpdo_event p node payload len) c = ground arith
Carries-low f (rpdo_event p node payload len) c = ground arith
Carries-low f (sdo_response_event node d) c = ground arith
Carries-low f (sdo_request_event node d) c = ground arith
