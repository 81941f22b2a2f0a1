-- ===== src/Sdo/Frames.antt =====
-- Reading back the SDO frames (canopen-core/src/sdo/protocol.rs).
use yacob.Base.{
  ◌^◌, ℕ, ◌≤◌, ◌<◌, ◌≡◌, refl, arith, Bool, true, false, ◌&&◌, same, ◌==◌, bit_and, List, [], ◌∷◌,
  length, take, drop,
}
use yacob.Base.Bits.{every, every_holds}
use yacob.Base.Bytes.{has_bits, ◌>>>◌, to_list, join_bytes_lem}
use yacob.Sdo.Protocol.{
  segment_head, command_specifier, segment_frame, object_frame, parse_index_sub,
}

-- The fields of a segment's command byte, as either side reads them.
abbrev pub HasFields : ℕ → ℕ → Bool → ℕ → Bool → Type 0
HasFields head specifier toggle n last =
    (command_specifier head ≡ specifier)
    × (has_bits head 0x10 ≡ toggle)
    × (bit_and (head >>> 1) 0x07 ≡ n)
    × (has_bits head 0x01 ≡ last)

abbrev fields_match : ℕ → Bool → Bool → ℕ → Bool
fields_match specifier toggle last n =
    let head = segment_head specifier toggle n last in
    bit_and (head >>> 5) 0x07 == specifier
    && (same (has_bits head 0x10) toggle
        && (bit_and (head >>> 1) 0x07 == n && same (has_bits head 0x01) last))

fields_table : (toggle last : Bool) → every (fields_match 0 toggle last) 8 ≡ true
unfolding every segment_head
fields_table true true = refl
fields_table true false = refl
fields_table false true = refl
fields_table false false = refl

fields_of_match :
    (specifier head n : ℕ) (toggle last : Bool)
    → (command_specifier head == specifier
        && (same (has_bits head 0x10) toggle
            && (bit_and (head >>> 1) 0x07 == n && same (has_bits head 0x01) last)))
      ≡ true
    → HasFields head specifier toggle n last
fields_of_match specifier head n toggle last h = ground arith

-- The command byte of a segment, in either direction (both specifiers are 0), gives back the
-- specifier, the toggle bit, the number of unused bytes and the end flag.
pub segment_head-HasFields :
    (toggle last : Bool) (n : ℕ) → n < 8 → HasFields (segment_head 0 toggle n last) 0 toggle n last
unfolding command_specifier
segment_head-HasFields toggle last n h =
    fields_of_match 0 (segment_head 0 toggle n last) n toggle last
      (every_holds (fields_match 0 toggle last) 8 (fields_table toggle last) n h)

-- The bytes behind the command byte.
pub segment_frame_payload :
    (head : ℕ) (xs : List ℕ)
    → length xs ≤ 7
    → take (length xs) (drop 1 (to_list (segment_frame head xs))) ≡ xs
segment_frame_payload head [] h = refl
segment_frame_payload head (a ∷ []) h = refl
segment_frame_payload head (a ∷ b ∷ []) h = refl
segment_frame_payload head (a ∷ b ∷ c ∷ []) h = refl
segment_frame_payload head (a ∷ b ∷ c ∷ d ∷ []) h = refl
segment_frame_payload head (a ∷ b ∷ c ∷ d ∷ e ∷ []) h = refl
segment_frame_payload head (a ∷ b ∷ c ∷ d ∷ e ∷ f ∷ []) h = refl
segment_frame_payload head (a ∷ b ∷ c ∷ d ∷ e ∷ f ∷ g ∷ []) h = refl
segment_frame_payload head (a ∷ b ∷ c ∷ d ∷ e ∷ f ∷ g ∷ x ∷ xs) h = absurd (omega arith)

pub object_frame_payload :
    (head index subindex : ℕ) (xs : List ℕ)
    → length xs ≤ 4
    → take (length xs) (drop 4 (to_list (object_frame head index subindex xs))) ≡ xs
object_frame_payload head index subindex [] h = refl
object_frame_payload head index subindex (a ∷ []) h = refl
object_frame_payload head index subindex (a ∷ b ∷ []) h = refl
object_frame_payload head index subindex (a ∷ b ∷ c ∷ []) h = refl
object_frame_payload head index subindex (a ∷ b ∷ c ∷ d ∷ []) h = refl
object_frame_payload head index subindex (a ∷ b ∷ c ∷ d ∷ x ∷ xs) h = absurd (omega arith)

-- Every frame that names an object gives its index and subindex back.
pub parse-object_frame :
    (head index subindex : ℕ) (payload : List ℕ)
    → index < 2 ^ 16
    → parse_index_sub (object_frame head index subindex payload) ≡ (index, subindex)
unfolding parse_index_sub
parse-object_frame head index subindex payload h = ground (arith, join_bytes_lem index h)
