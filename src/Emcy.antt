-- ===== src/Emcy.antt =====
-- canopen-core/src/emcy.rs: emergency frames, their consumer and the producer. Where the code
-- unwraps a frame, `none` is the panic.
pub mod Register
use yacob.Base.{
  ℕ, ◌+◌, ◌-◌, ◌^◌, Bool, not, ◌&&◌, if◌then◌else◌, ltb, ◌==◌, min, bit_and, bit_or, List, [], ◌∷◌,
  ◌++◌, length, get_or, drop, Option, some, none,
}
use yacob.Base.Bytes.{has_bits, low_byte, high_byte, from_le16}
use yacob.Can.{CanFrame, new_frame, frame_data}
use yacob.CobId.{
  NodeId, ParsedCobId, nmt, sync, emergency, tpdo, rpdo, sdo_response, sdo_request, heartbeat,
  unknown, new_cob_id, emergency_cob, parse,
}

-- The five vendor bytes of a frame: what is given, filled with zeros and cut after five.
abbrev pub vendor_bytes : List ℕ → List ℕ
vendor_bytes v = get_or v 0 0 ∷ get_or v 1 0 ∷ get_or v 2 0 ∷ get_or v 3 0 ∷ get_or v 4 0 ∷ []

-- `build_emcy_frame`.
unfoldable pub build_emcy_frame : NodeId → ℕ → ℕ → List ℕ → Option CanFrame
build_emcy_frame node error_code error_register vendor =
    new_frame (emergency_cob node)
      (low_byte error_code ∷ high_byte error_code ∷ error_register ∷ vendor_bytes vendor)

pub record EmcyMessage : Type 0 where
  pub node : NodeId
  pub error_code : ℕ
  pub error_register : ℕ
  pub vendor_data : List ℕ

-- The node of an emergency COB-ID.
unfoldable pub emergency_node : ParsedCobId → Option NodeId
emergency_node (emergency n) = some n
emergency_node nmt = none
emergency_node sync = none
emergency_node (tpdo p n) = none
emergency_node (rpdo p n) = none
emergency_node (sdo_response n) = none
emergency_node (sdo_request n) = none
emergency_node (heartbeat n) = none
emergency_node (unknown raw) = none

-- `EmcyMessage::parse`.
unfoldable pub parse_emcy : CanFrame → Option EmcyMessage
parse_emcy f = elim (new_cob_id f.id) [
  | none ↦ none
  | some raw ↦ elim (emergency_node (parse raw)) [
    | none ↦ none
    | some n ↦
        let bytes = frame_data f in
        if ltb (length bytes) 8
        then none
        else some (record {
          node = n;
          error_code = from_le16 (get_or bytes 0 0) (get_or bytes 1 0);
          error_register = get_or bytes 2 0;
          vendor_data = vendor_bytes (drop 3 bytes);
        })
  ]
]

pub record EmcyProducer : Type 0 where
  pub node_id : NodeId
  pub error_register : ℕ
  pub pending : List CanFrame
  pub dropped : ℕ

-- `EmcyProducer::new`.
unfoldable pub new_emcy : NodeId → EmcyProducer
new_emcy node = record { node_id = node; error_register = 0; pending = []; dropped = 0 }

-- `queue`, on a deque of four frames.
unfoldable pub queue : EmcyProducer → CanFrame → EmcyProducer
queue p f =
    if length p.pending == 4
    then record p {
      pending = drop 1 p.pending ++ f ∷ [];
      dropped = min (p.dropped + 1) (2 ^ 32 - 1);
    }
    else record p { pending = p.pending ++ f ∷ [] }

-- A frame is built and queued.
abbrev pub announce : EmcyProducer → ℕ → ℕ → List ℕ → Option EmcyProducer
announce p code register vendor = elim (build_emcy_frame p.node_id code register vendor) [
  | some f ↦ some (queue p f)
  | none ↦ none
]

-- `set_error`; `GENERIC` is bit 0.
unfoldable pub set_error : EmcyProducer → ℕ → ℕ → List ℕ → Option EmcyProducer
set_error p error_code register_bits vendor =
    let register = bit_or p.error_register (bit_or register_bits 1) in
    announce (record p { error_register = register }) error_code register vendor

-- The register after `clear_error`; `!bits` of a byte is `255 - bits`.
unfoldable pub cleared : ℕ → ℕ → ℕ
cleared before register_bits =
    let categories = bit_and (bit_and before register_bits) 0xFE in
    let left = bit_and before (255 - register_bits) in
    if has_bits left 0xFE then bit_or left 1 else if not (categories == 0) then 0 else left

-- `clear_error`.
unfoldable pub clear_error : EmcyProducer → ℕ → Option EmcyProducer
clear_error p register_bits =
    let register = cleared p.error_register register_bits in
    let p' = record p { error_register = register } in
    if not (p.error_register == 0) && register == 0 then announce p' 0 0 [] else some p'

-- `clear_all` and `take_pending`.
unfoldable pub clear_all : EmcyProducer → Option EmcyProducer
clear_all p = announce (record p { error_register = 0 }) 0 0 []

unfoldable pub take_pending : EmcyProducer → EmcyProducer × Option CanFrame
take_pending p = elim p.pending [ [] ↦ (p, none) | f ∷ fs ↦ (record p { pending = fs }, some f) ]
