-- ===== src/Examples/Wires.antt =====
-- LSS, and the encodings of frames outside of the bus.
use yacob.Base.{ℕ, ◌≡◌, ◌↔◌, inl, inr, refl, arith, List, [], ◌∷◌, ◌++◌, take, replicate, some}
use yacob.Base.Bytes.{of_list, le_bytes32}
use yacob.Base.Results.{ok}
use yacob.Can.{CanFrame, new_frame}
use yacob.Nmt.{operational}
use yacob.Events.{heartbeat_event, decode_event}
use yacob.Events.Frames.{Carries}
use yacob.Events.Decoding.{decode_event_iff}
use yacob.Lss.{LssIdentity, new_slave, waiting}
use yacob.Lss.Identity.{request, event_taken, lss_all, IsLssNodeId, Announces, lss_all-keeps}
use yacob.Lss.Selection.{lss_trace, specified_trace, lss_trace-refines}
use yacob.Slcan.{parse_hex_digit, slcan_line, encode_slcan_frame, parse_slcan_frame}
use yacob.Slcan.RoundTrip.{IsFrame, parse_slcan_frame-encode}
use yacob.Canwsd.{WireFrame, decode_wire}
use yacob.Canwsd.Codec.{IsWireFrame, message, decode_wire_iff}

abbrev identity : LssIdentity
identity = record { vendor_id = 0xCAFE; product_code = 1; revision = 0x10000; serial = 7 }

abbrev node_id_request : ℕ → CanFrame
node_id_request n = record { id = 0x7E5; dlc = 8; bytes = of_list (0x11 ∷ n ∷ []) }

abbrev configuration_request : CanFrame
configuration_request = record { id = 0x7E5; dlc = 8; bytes = of_list (0x04 ∷ 1 ∷ []) }

-- Node 200 is no valid ID, and node 5 is.
lss_all-keeps_example :
    let s = lss_all (new_slave identity 1) (
      request configuration_request
      ∷ request (node_id_request 200)
      ∷ request (node_id_request 5)
      ∷ event_taken
      ∷ []) in
    IsLssNodeId s.node_id × Announces s.node_id s.pending_event × (s.identity ≡ identity)
unfolding new_slave
lss_all-keeps_example =
    lss_all-keeps
      (request configuration_request
        ∷ request (node_id_request 200)
        ∷ request (node_id_request 5)
        ∷ event_taken
        ∷ [])
      (new_slave identity 1) (inl (omega arith, omega arith)) _

abbrev selection : ℕ → ℕ → CanFrame
selection cmd val = record { id = 0x7E5; dlc = 8; bytes = of_list (cmd ∷ le_bytes32 val) }

-- A foreign revision interrupts the sequence, and a whole one follows.
abbrev attempts : List CanFrame
attempts =
    selection 0x40 0xCAFE
    ∷ selection 0x41 1
    ∷ selection 0x42 0x10001
    ∷ selection 0x43 7
    ∷ selection 0x40 0xCAFE
    ∷ selection 0x41 1
    ∷ selection 0x42 0x10000
    ∷ selection 0x43 7
    ∷ []

lss_trace-refines_example :
    lss_trace (new_slave identity 1) attempts
    ≡ specified_trace identity (record { mode = waiting; history = [] }) attempts
lss_trace-refines_example = lss_trace-refines identity 1 attempts

-- t701105, and the time stamp 4d67.
abbrev beat : CanFrame
beat = record { id = 0x701; dlc = 1; bytes = of_list (0x05 ∷ []) }

beat-IsFrame : IsFrame beat
beat-IsFrame = record {
  id_fits = omega arith;
  dlc_fits = omega arith;
  bytes_fit = record {
    lt0 = omega arith;
    lt1 = omega arith;
    lt2 = omega arith;
    lt3 = omega arith;
    lt4 = omega arith;
    lt5 = omega arith;
    lt6 = omega arith;
    lt7 = omega arith;
  };
}

abbrev stamp : List ℕ
stamp = 52 ∷ 100 ∷ 54 ∷ 55 ∷ []

parse_slcan_frame-encode_example :
    let (n, out) = encode_slcan_frame beat (replicate 32 0) in
    (n ≡ some 8)
    × (parse_slcan_frame (take 8 out) ≡ new_frame 0x701 (0x05 ∷ []))
    × (parse_slcan_frame (slcan_line beat ++ stamp) ≡ new_frame 0x701 (0x05 ∷ []))
    × (parse_slcan_frame ((slcan_line beat ++ stamp) ++ 13 ∷ []) ≡ new_frame 0x701 (0x05 ∷ []))
unfolding parse_hex_digit
parse_slcan_frame-encode_example =
    parse_slcan_frame-encode beat (replicate 32 0) stamp beat-IsFrame (inr (refl, refl))
      (omega arith)

-- An extended frame of two bytes.
abbrev extended : WireFrame
extended = record { id_word = 0x9234_5678; dlc = 2; bytes = of_list (0xAA ∷ 0xBB ∷ []) }

abbrev extended_message : List ℕ
extended_message = 0x78 ∷ 0x56 ∷ 0x34 ∷ 0x92 ∷ 2 ∷ 0xAA ∷ 0xBB ∷ []

decode_wire_iff_example :
    (decode_wire extended_message ≡ ok extended)
    ↔ (IsWireFrame extended × (message extended ≡ extended_message))
decode_wire_iff_example = decode_wire_iff extended_message extended (ground arith)

-- A heartbeat on the bus, for an observer.
abbrev heartbeat_of_7 : CanFrame
heartbeat_of_7 = record { id = 0x707; dlc = 1; bytes = of_list (5 ∷ []) }

decode_event_iff_example :
    (decode_event heartbeat_of_7 ≡ some (heartbeat_event 7 operational))
    ↔ Carries heartbeat_of_7 (heartbeat_event 7 operational)
decode_event_iff_example = decode_event_iff heartbeat_of_7 (heartbeat_event 7 operational)
