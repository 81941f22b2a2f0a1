-- ===== src/Pdo/Pack.antt =====
-- canopen-core/src/pdo/engine.rs: the payload of a TPDO, and what an RPDO writes of one. The
-- transmit buffer of 8 zeros that a read fills is `zeros8`.
use yacob.Base.{
  ℕ, ◌+◌, ◌-◌, ◌*◌, ◌^◌, min, true, false, ◌&&◌, ◌||◌, if◌then◌else◌, ltb, leb, ◌==◌, List, [], ◌∷◌,
  length, take, replicate, Option, none, some,
}
use yacob.Pdo.{
  PdoMapping, TpdoConfig, RpdoConfig, is_dummy_mapping_index, bytes_for_bits, is_signed_integer,
}
use yacob.Pdo.Bits.{copy_pdo_bits, sign_extend_pdo_bits}
use yacob.Sdo.Server.State.{push_event}
use yacob.Base.Results.{ok, err}
use yacob.Can.{CanFrame, new_frame}
use yacob.Sdo.Od.{size, rpdo, OdEvent, ObjectDictionary}

abbrev pub zeros8 : List ℕ
zeros8 = replicate 8 0

-- The loop of `build_pdo_frame`: the payload so far, and its length in bits.
unfoldable pub pack :
    {O : Type 0} → ObjectDictionary O → O → List PdoMapping → List ℕ → ℕ → Option (List ℕ × ℕ)
pack dict od [] payload bit_offset = some (payload, bit_offset)
pack dict od (m ∷ ms) payload bit_offset =
    let end_bit = bit_offset + m.bit_length in
    elim (ltb 64 end_bit) [
      | true ↦ none
      | false ↦ elim (is_dummy_mapping_index m.index) [
        | true ↦ pack dict od ms payload end_bit
        | false ↦
            let (result, object_data) = dict.read od m.index m.subindex zeros8 in
            elim result [
              | err e ↦ none
              | ok read_len ↦ elim (ltb (read_len * 8) m.bit_length) [
                | true ↦ none
                | false ↦
                    pack dict od ms (copy_pdo_bits object_data 0 payload bit_offset m.bit_length)
                      end_bit
              ]
            ]
      ]
    ]

-- `TpdoEngine::build_pdo_frame`.
unfoldable pub build_pdo_frame :
    {O : Type 0} → ObjectDictionary O → O → TpdoConfig → Option CanFrame
build_pdo_frame dict od pdo = elim (pack dict od pdo.mappings zeros8 0) [
  | none ↦ none
  | some (payload, bit_offset) ↦ new_frame pdo.cob_id (take (bytes_for_bits bit_offset) payload)
]

-- The value that `apply_mapped` writes for the bits of an entry: widened to the object's size.
unfoldable pub widen : {O : Type 0} → ObjectDictionary O → O → PdoMapping → List ℕ → List ℕ
widen dict od m object_data =
    let object_len = bytes_for_bits m.bit_length in
    elim (dict.lookup od m.index m.subindex) [
      | none ↦ take object_len object_data
      | some entry ↦ elim (size entry.data_type) [
        | none ↦ take object_len object_data
        | some width ↦
            if leb object_len width && leb width 8
            then (if is_signed_integer entry.data_type
                then sign_extend_pdo_bits (take width object_data) m.bit_length
                else take width object_data)
            else take object_len object_data
      ]
    ]

-- What the RPDO engine changes outside of itself: the dictionary, the event queue, and the count
-- of events that the queue dropped (a `u32`).
pub record Sink (O : Type 0) : Type 0 where
  pub od : O
  pub events : List OdEvent
  pub dropped : ℕ

abbrev pub saturating_add32 : ℕ → ℕ → ℕ
saturating_add32 a b = min (a + b) (2 ^ 32 - 1)

-- One OD write of `apply_mapped`, with its event; `capacity` is the queue's.
unfoldable pub write_mapped :
    {O : Type 0} → ObjectDictionary O → ℕ → PdoMapping → List ℕ → Sink O → Sink O
write_mapped dict capacity m object_data s =
    let event : OdEvent = record { index = m.index; subindex = m.subindex; source = rpdo } in
    let (result, od) = dict.write s.od m.index m.subindex (widen dict s.od m object_data) in
    elim result [
      | err e ↦ record s { od = od }
      | ok _ ↦ record {
        od = od;
        events = push_event capacity s.events event;
        dropped = if length s.events == capacity then saturating_add32 s.dropped 1 else s.dropped;
      }
    ]

-- The loop of `apply_mapped`, from a bit offset on.
unfoldable pub unpack :
    {O : Type 0} → ObjectDictionary O → ℕ → List PdoMapping → List ℕ → ℕ → Sink O → Sink O
unpack dict capacity [] payload bit_offset s = s
unpack dict capacity (m ∷ ms) payload bit_offset s =
    let end_bit = bit_offset + m.bit_length in
    elim (ltb (length payload * 8) end_bit || ltb 8 (bytes_for_bits m.bit_length)) [
      | true ↦ s
      | false ↦ elim (is_dummy_mapping_index m.index) [
        | true ↦ unpack dict capacity ms payload end_bit s
        | false ↦ unpack dict capacity ms payload end_bit (
            write_mapped dict capacity m (copy_pdo_bits payload bit_offset zeros8 0 m.bit_length) s)
      ]
    ]

-- `apply_mapped`.
unfoldable pub apply_mapped :
    {O : Type 0} → ObjectDictionary O → ℕ → RpdoConfig → List ℕ → O → List OdEvent → Sink O
apply_mapped dict capacity pdo payload od events =
    unpack dict capacity pdo.mappings payload 0 (record { od = od; events = events; dropped = 0 })
