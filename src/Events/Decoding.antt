-- ===== src/Events/Decoding.antt =====
-- What `decode` makes of a frame (canopen-core/src/events.rs).
use yacob.Base.{
  ℕ, ◌+◌, ◌≤◌, ◌≡◌, ◌↔◌, min, inl, inr, refl, arith, List, [], ◌∷◌, length, Option, none, some,
  Option-cases, length-take, take_all,
}
use yacob.Base.Bytes.{to_list, of_list}
use yacob.Can.{CanFrame, frame_data}
use yacob.CobId.{
  NodeId, ParsedCobId, nmt, sync, emergency, tpdo, rpdo, sdo_response, sdo_request, heartbeat,
  unknown, new_node_id, new_cob_id, parse, nmt_cob, sync_cob, emergency_cob, tpdo_cob, rpdo_cob,
  sdo_tx_cob, sdo_rx_cob, heartbeat_cob,
}
use yacob.CobId.RoundTrip.{build, build-parse}
use yacob.Nmt.Codec.{from_heartbeat_byte_iff}
use yacob.Nmt.{NmtState, from_heartbeat_byte, heartbeat_byte}
use yacob.Emcy.{EmcyMessage, parse_emcy, emergency_node}
use yacob.Events.{
  CanOpenEvent, nmt_event, sync_event, emcy_event, heartbeat_event, tpdo_event, rpdo_event,
  sdo_response_event, sdo_request_event, copy_payload, nmt_target, decode_nmt, decode_heartbeat,
  decode_service, decode_event,
}
use yacob.Events.Frames.{
  IsNode, EmergencyData, Carries, IsValid, parse-IsValid, service, service-parse, Carries-low,
}

decode_nmt-Carries :
    (f : CanFrame) (xs : List ℕ) (e : CanOpenEvent)
    → f.id ≡ 0
    → frame_data f ≡ xs
    → decode_nmt xs ≡ some e
    → Carries f e
unfolding decode_nmt nmt_target new_node_id Carries
decode_nmt-Carries f [] e id data_is h = absurd (ground arith)
decode_nmt-Carries f (b ∷ []) e id data_is h = absurd (ground arith)
decode_nmt-Carries f (b ∷ c ∷ xs) (nmt_event k none) id data_is h = ground arith
decode_nmt-Carries f (b ∷ c ∷ xs) (nmt_event k (some n)) id data_is h = ground arith
decode_nmt-Carries f (b ∷ c ∷ xs) e id data_is h = ground arith

decode_heartbeat-Carries :
    (f : CanFrame) (node : NodeId) (xs : List ℕ) (e : CanOpenEvent)
    → f.id ≡ 0x700 + node
    → IsNode node
    → frame_data f ≡ xs
    → decode_heartbeat node xs ≡ some e
    → Carries f e
unfolding decode_heartbeat Carries
decode_heartbeat-Carries f node [] e id valid data_is h = absurd (ground arith)
decode_heartbeat-Carries f node (b ∷ xs) e id valid data_is h =
    elim (Option-cases (from_heartbeat_byte b)) [
      | inl bad ↦ absurd (ground (arith, bad, h))
      | inr (state, good) ↦
          let done : e ≡ heartbeat_event node state = ground (arith, good, h) in
          let byte = (from_heartbeat_byte_iff b state).0 good in
          rw done (id, valid, ground (arith, data_is), ground (arith, data_is, byte))
    ]

length-frame_data : (f : CanFrame) → length (frame_data f) ≤ 8
length-frame_data f = ground (arith, length-take f.dlc (to_list f.bytes))

-- A payload that fits is copied whole.
copy_payload-fits : (xs : List ℕ) → length xs ≤ 8 → copy_payload xs ≡ (of_list xs, length xs)
unfolding copy_payload
copy_payload-fits xs short =
    let all : min (length xs) 8 ≡ length xs = ground arith in
    rw (all, take_all (length xs) xs (omega arith)) refl

parse_emcy-carries :
    (f : CanFrame) (m : EmcyMessage) (node : NodeId)
    → parse f.id ≡ emergency node
    → parse_emcy f ≡ some m
    → (m.node ≡ node) × EmergencyData m (frame_data f)
unfolding parse_emcy emergency_node new_cob_id
parse_emcy-carries f m node is h = ground (arith, is)

parse_emcy_complete :
    (f : CanFrame) (m : EmcyMessage)
    → parse f.id ≡ emergency m.node
    → new_cob_id f.id ≡ some f.id
    → EmergencyData m (frame_data f)
    → parse_emcy f ≡ some m
unfolding parse_emcy emergency_node
parse_emcy_complete f m is low c = ground (arith, is, low, c)

decode_service-Carries :
    (f : CanFrame) (p : ParsedCobId) (e : CanOpenEvent)
    → build p ≡ some f.id
    → IsValid p
    → parse f.id ≡ p
    → decode_service f p ≡ some e
    → Carries f e
unfolding decode_service build nmt_cob sync_cob emergency_cob tpdo_cob rpdo_cob sdo_tx_cob
    sdo_rx_cob heartbeat_cob Carries IsValid
decode_service-Carries f nmt e id v is h =
    decode_nmt-Carries f (frame_data f) e (ground arith) refl h
decode_service-Carries f sync e id v is h = ground arith
decode_service-Carries f (emergency node) e id v is h = elim (Option-cases (parse_emcy f)) [
  | inl bad ↦ absurd (ground (arith, bad, h))
  | inr (m, good) ↦
      let (same_node, carried) = parse_emcy-carries f m node is good in
      let done : e ≡ emcy_event m = ground (arith, good, h) in
      rw done (ground (arith, same_node), rw same_node v, carried)
]
decode_service-Carries f (heartbeat node) e id v is h =
    decode_heartbeat-Carries f node (frame_data f) e (ground arith) v refl h
decode_service-Carries f (tpdo p node) e id v is h =
    ground (arith, copy_payload-fits (frame_data f) (length-frame_data f))
decode_service-Carries f (rpdo p node) e id v is h =
    ground (arith, copy_payload-fits (frame_data f) (length-frame_data f))
decode_service-Carries f (sdo_response node) e id v is h = ground arith
decode_service-Carries f (sdo_request node) e id v is h = ground arith
decode_service-Carries f (unknown raw) e id v is h = absurd (ground arith)

decode_event-Carries : (f : CanFrame) (e : CanOpenEvent) → decode_event f ≡ some e → Carries f e
unfolding decode_event new_cob_id
decode_event-Carries f e h =
    decode_service-Carries f (parse f.id) e (build-parse f.id) (parse-IsValid f.id) refl
      (ground (arith, h))

decode_nmt_complete :
    (f : CanFrame) (xs : List ℕ) (command : ℕ) (target : Option NodeId)
    → frame_data f ≡ xs
    → Carries f (nmt_event command target)
    → decode_nmt xs ≡ some (nmt_event command target)
unfolding decode_nmt nmt_target new_node_id Carries
decode_nmt_complete f [] command target data_is c = absurd (ground arith)
decode_nmt_complete f (b ∷ []) command target data_is c = absurd (ground arith)
decode_nmt_complete f (b0 ∷ b1 ∷ xs) command none data_is c = ground arith
decode_nmt_complete f (b0 ∷ b1 ∷ xs) command (some node) data_is c = ground arith

decode_heartbeat_complete :
    (f : CanFrame) (xs : List ℕ) (node : NodeId) (state : NmtState)
    → frame_data f ≡ xs
    → Carries f (heartbeat_event node state)
    → decode_heartbeat node xs ≡ some (heartbeat_event node state)
unfolding decode_heartbeat Carries
decode_heartbeat_complete f [] node state data_is c = absurd (ground arith)
decode_heartbeat_complete f (b ∷ xs) node state data_is c =
    let byte : heartbeat_byte state ≡ b = ground (arith, data_is, c) in
    ground (arith, (from_heartbeat_byte_iff b state).1 byte)

decode_service_complete :
    (f : CanFrame) (e : CanOpenEvent)
    → Carries f e
    → parse f.id ≡ service e
    → new_cob_id f.id ≡ some f.id
    → decode_service f (service e) ≡ some e
unfolding decode_service service Carries
decode_service_complete f (nmt_event command target) c is low =
    decode_nmt_complete f (frame_data f) command target refl c
decode_service_complete f sync_event c is low = refl
decode_service_complete f (emcy_event m) c is low =
    ground (arith, parse_emcy_complete f m is low (c.2.0, c.2.1, c.2.2, c.2.3))
decode_service_complete f (heartbeat_event node state) c is low =
    decode_heartbeat_complete f (frame_data f) node state refl c
decode_service_complete f (tpdo_event p node payload len) c is low =
    ground (arith, copy_payload-fits (frame_data f) (length-frame_data f))
decode_service_complete f (rpdo_event p node payload len) c is low =
    ground (arith, copy_payload-fits (frame_data f) (length-frame_data f))
decode_service_complete f (sdo_response_event node d) c is low = ground arith
decode_service_complete f (sdo_request_event node d) c is low = ground arith

-- A frame is decoded as an event exactly when it carries it: its COB-ID is that of the event's
-- service on a node that exists, where PDOs are counted from 0, and the event has the frame's data.
-- An emergency and a PDO have all of it, an SDO frame eight bytes; an NMT command and a heartbeat
-- are read from the first bytes of as many as there are, and a SYNC is a frame on 0x080 with any
-- data.
pub decode_event_iff : (f : CanFrame) (e : CanOpenEvent) → (decode_event f ≡ some e) ↔ Carries f e
unfolding decode_event
decode_event_iff f e = (
  decode_event-Carries f e,
  λ c.
      let low = Carries-low f e c in
      let is = service-parse f e c in ground (arith, low, is, decode_service_complete f e c is low),
)
