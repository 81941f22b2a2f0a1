-- ===== src/Canwsd/Codec.antt =====
-- Messages and frames determine each other (canwsd-proto/src/wire.rs).
use yacob.Base.{
  ℕ, ◌+◌, ◌^◌, ◌≤◌, ◌<◌, ◌≡◌, ◌↔◌, refl, sym, ap, ◌∙◌, arith, List, [], ◌∷◌, ◌++◌, length, take,
  replicate, write_at, length-take, take-write_at, take_all,
}
use yacob.Base.Bytes.{AllBytes, to_list, of_list, le_bytes32, from_le32, from_le32_bytes}
use yacob.Can.{bytes_of_list}
use yacob.Base.Results.{ok}
use yacob.Canwsd.{WireFrame, wire_data, encode_wire, decode_wire}

-- A frame as the program builds it: what lies behind the data is zero.
pub record IsWireFrame (f : WireFrame) : Type 0 where
  pub word : f.id_word < 2 ^ 32
  pub dlc_fits : f.dlc ≤ 8
  pub padded : of_list (wire_data f) ≡ f.bytes

-- The message of a frame.
unfoldable pub message : WireFrame → List ℕ
message f = take (encode_wire f).1 (encode_wire f).0

length-wire_data : (f : WireFrame) → f.dlc ≤ 8 → length (wire_data f) ≡ f.dlc
length-wire_data f h = omega (arith, length-take f.dlc (to_list f.bytes))

header : WireFrame → List ℕ
header f = write_at (write_at (replicate 13 0) 0 (le_bytes32 f.id_word)) 4 (f.dlc ∷ [])

take-header : (f : WireFrame) → take 5 (header f) ≡ le_bytes32 f.id_word ++ f.dlc ∷ []
unfolding header write_at
take-header f = refl

length-header : (f : WireFrame) → length (header f) ≡ 13
unfolding header write_at
length-header f = refl

message_lem : (f : WireFrame) → f.dlc ≤ 8 → message f ≡ le_bytes32 f.id_word ++ f.dlc ∷ wire_data f
unfolding message encode_wire header
message_lem f h =
    let cut : message f ≡ take 5 (header f) ++ wire_data f =
      take-write_at (header f) 5 (wire_data f) (5 + f.dlc) (omega (arith, length-wire_data f h))
        (omega (arith, length-header f)) in
    rw (take-header f) at cut

decode_wire-message : (f : WireFrame) → IsWireFrame f → decode_wire (message f) ≡ ok f
unfolding decode_wire
decode_wire-message f w =
    let len = length-wire_data f w.dlc_fits in
    rw (message_lem f w.dlc_fits) (
      ground (
        arith,
        len,
        w.dlc_fits,
        from_le32_bytes f.id_word w.word,
        take_all f.dlc (wire_data f),
        w.padded,
      ))

-- The parts of a message that is decoded.
decoded :
    (a b c d dlc : ℕ) (rest : List ℕ) (f : WireFrame)
    → decode_wire (a ∷ b ∷ c ∷ d ∷ dlc ∷ rest) ≡ ok f
    → (dlc ≤ 8)
      × (length rest ≡ dlc)
      × (f ≡ record { id_word = from_le32 a b c d; dlc = dlc; bytes = of_list (take dlc rest) })
unfolding decode_wire
decoded a b c d dlc rest f e = ground arith

message_of :
    (a b c d : ℕ) (rest : List ℕ)
    → AllBytes (a ∷ b ∷ c ∷ d ∷ length rest ∷ rest)
    → length rest ≤ 8
    → let f : WireFrame = record {
      id_word = from_le32 a b c d;
      dlc = length rest;
      bytes = of_list rest;
    } in
      IsWireFrame f × (message f ≡ a ∷ b ∷ c ∷ d ∷ length rest ∷ rest)
message_of a b c d rest h short =
    let f : WireFrame = record {
      id_word = from_le32 a b c d;
      dlc = length rest;
      bytes = of_list rest;
    } in
    let kept : wire_data f ≡ rest = bytes_of_list rest short in
    let w : IsWireFrame f = record {
      word = omega (arith, h.0, h.1.0, h.1.1.0, h.1.1.1.0);
      dlc_fits = short;
      padded = ap of_list kept;
    } in
    (w, ground (arith, message_lem f short, kept, h.0, h.1.0, h.1.1.0, h.1.1.1.0))

message-decode_wire :
    (buf : List ℕ) (f : WireFrame)
    → AllBytes buf
    → decode_wire buf ≡ ok f
    → IsWireFrame f × (message f ≡ buf)
message-decode_wire [] f h e = absurd (unfold decode_wire in ground arith)
message-decode_wire (a ∷ []) f h e = absurd (unfold decode_wire in ground arith)
message-decode_wire (a ∷ b ∷ []) f h e = absurd (unfold decode_wire in ground arith)
message-decode_wire (a ∷ b ∷ c ∷ []) f h e = absurd (unfold decode_wire in ground arith)
message-decode_wire (a ∷ b ∷ c ∷ d ∷ []) f h e = absurd (unfold decode_wire in ground arith)
message-decode_wire (a ∷ b ∷ c ∷ d ∷ dlc ∷ rest) f h e =
    let (small, exact, parts) = decoded a b c d dlc rest f e in
    let all : take dlc rest ≡ rest = take_all dlc rest (omega (arith, exact)) in
    let g : WireFrame = record {
      id_word = from_le32 a b c d;
      dlc = length rest;
      bytes = of_list rest;
    } in
    let same_frame : f ≡ g = parts ∙ rw (all, sym exact) refl in
    let made = message_of a b c d rest (rw exact h) (omega (arith, exact, small)) in
    rw (same_frame, sym exact) made

-- A message decodes as a frame exactly when it is the encoding of that frame, so that every frame
-- has one message, no two frames share one, and any other sequence of bytes is refused.
pub decode_wire_iff :
    (buf : List ℕ) (f : WireFrame)
    → AllBytes buf
    → (decode_wire buf ≡ ok f) ↔ (IsWireFrame f × (message f ≡ buf))
decode_wire_iff buf f h =
    (message-decode_wire buf f h, λ p. rw (sym p.1) (decode_wire-message f p.0))
