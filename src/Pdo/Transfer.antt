-- ===== src/Pdo/Transfer.antt =====
-- A frame that a TPDO builds, taken apart by an RPDO (canopen-core/src/pdo/engine.rs).
use yacob.Base.{
  ℕ, ◌+◌, ◌*◌, ◌/◌, ◌%◌, ◌≤◌, ◌<◌, ◌≡◌, inl, inr, refl, sym, ◌∙◌, arith, true, false, if◌then◌else◌,
  same, ltb, bit_and, List, [], ◌∷◌, length, take, some, Option-cases, length-take,
}
use yacob.Base.Bytes.{AllBytes, ◌>>>◌}
use yacob.Base.Bits.{bit_and_mask}
use yacob.Can.{frame_data-new_frame, CanFrame, new_frame, frame_data}
use yacob.Sdo.Od.{OdEvent, ObjectDictionary}
use yacob.Pdo.{PdoMapping, TpdoConfig, RpdoConfig, is_dummy_mapping_index, bytes_for_bits}
use yacob.Pdo.Bits.{copy_pdo_bits, bit_at}
use yacob.Base.Slices.{get_or-take, AllBytes-take}
use yacob.Pdo.Bits.Copy.{copy_pdo_bits-Copies, copy_pdo_bits-AllBytes, length-copy_pdo_bits}
use yacob.Pdo.Bits.Low.{bytes_ext}
use yacob.Pdo.Payload.{
  ReadBytes, sample, samples, place, zeros8-AllBytes, at-zeros8, pack_step, pack-Fits, pack_below,
  clear_after, at-place, place-AllBytes, length-place, sample-clear, sample-AllBytes, length-sample,
}
use yacob.Pdo.Pack.{zeros8, pack, build_pdo_frame, Sink, write_mapped, unpack, apply_mapped}

-- One OD write for each entry of an RPDO that is no dummy, in order.
unfoldable pub deliver :
    {O : Type 0} → ObjectDictionary O → ℕ → List PdoMapping → List (List ℕ) → Sink O → Sink O
deliver dict capacity [] values s = s
deliver dict capacity (r ∷ rs) [] s = s
deliver dict capacity (r ∷ rs) (v ∷ vs) s =
    deliver dict capacity rs vs
      (if is_dummy_mapping_index r.index then s else write_mapped dict capacity r v s)

-- The RPDO maps as many bits as the TPDO, entry by entry; it may map fewer entries.
abbrev pub SameWidths : List PdoMapping → List PdoMapping → Type 0
SameWidths ms [] = Unit
SameWidths [] (r ∷ rs) = false ≡ true
SameWidths (m ∷ ms) (r ∷ rs) = (m.bit_length ≡ r.bit_length) × SameWidths ms rs

module _ {O : Type 0} (dict : ObjectDictionary O) (reads : ReadBytes dict) (od : O) where
  at-take :
      (k : ℕ) (xs : List ℕ) (j : ℕ)
      → bit_at (take k xs) j ≡ (if ltb j (8 * k) then bit_at xs j else 0)
  at-take k xs j =
      let nothing : bit_and (0 >>> (j % 8)) 1 ≡ 0 =
        omega (arith, bit_and_mask 1 (0 >>> (j % 8)) 1 refl) in
      ground (arith, get_or-take k xs (j / 8), nothing)

  -- The field of an entry, taken out of the transmitted bytes, is the sample.
  field :
      (m : PdoMapping) (out : List ℕ) (offset k : ℕ)
      → AllBytes out
      → length out ≡ 8
      → k ≤ 8
      → offset + m.bit_length ≤ 8 * k
      → ((j : ℕ) → j < m.bit_length → bit_at out (offset + j) ≡ bit_at (sample dict od m) j)
      → copy_pdo_bits (take k out) offset zeros8 0 m.bit_length ≡ sample dict od m
  field m out offset k h len small fits same =
      bytes_ext _ _
        (length-copy_pdo_bits (take k out) offset zeros8 0 m.bit_length
          ∙ sym (length-sample dict reads od m))
        (copy_pdo_bits-AllBytes (take k out) offset zeros8 0 m.bit_length (AllBytes-take k out h)
          zeros8-AllBytes (omega arith))
        (sample-AllBytes dict reads od m)
        λ j. ground (
          arith,
          copy_pdo_bits-Copies (take k out) offset zeros8 0 m.bit_length j zeros8-AllBytes
              (omega (arith, length-take k out)) (omega arith),
          at-take k out (offset + j),
          at-zeros8 j,
          same j,
          sample-clear dict reads od m j,
        )

  unpack_step :
      {P : Type 0} (dict' : ObjectDictionary P) (capacity : ℕ) (r : PdoMapping)
      (rs : List PdoMapping) (payload : List ℕ) (offset : ℕ) (s : Sink P)
      → offset + r.bit_length ≤ length payload * 8
      → bytes_for_bits r.bit_length ≤ 8
      → unpack dict' capacity (r ∷ rs) payload offset s
        ≡ unpack dict' capacity rs payload (offset + r.bit_length) (
            if is_dummy_mapping_index r.index
            then s
            else write_mapped dict' capacity r
                (copy_pdo_bits payload offset zeros8 0 r.bit_length)
                s)
  unfolding unpack
  unpack_step dict' capacity r rs payload offset s fits small = ground arith

  unpack-pack :
      {P : Type 0} (dict' : ObjectDictionary P) (capacity : ℕ) (ms rs : List PdoMapping)
      (payload out : List ℕ) (offset n : ℕ) (s : Sink P)
      → pack dict od ms payload offset ≡ some (out, n)
      → AllBytes payload
      → length payload ≡ 8
      → offset ≤ 64
      → ((k : ℕ) → offset ≤ k → bit_at payload k ≡ 0)
      → SameWidths ms rs
      → unpack dict' capacity rs (take (bytes_for_bits n) out) offset s
        ≡ deliver dict' capacity rs (samples dict od ms) s
  unfolding unpack deliver bytes_for_bits
  unpack-pack dict' capacity ms [] payload out offset n s e h len room clear widths = refl
  unpack-pack dict' capacity [] (r ∷ rs) payload out offset n s e h len room clear widths =
      absurd (ground arith)
  unpack-pack dict' capacity (m ∷ ms) (r ∷ rs) payload out offset n s e h len room clear widths =
      let step = pack_step dict reads od m ms payload offset (out, n) e in
      let all = pack-Fits dict reads od (m ∷ ms) payload out offset n e h len room in
      let bytes = place-AllBytes dict reads od m payload offset h (omega (arith, step)) in
      let len' = length-place dict reads od m payload offset ∙ len in
      let rest =
        pack-Fits dict reads od ms (place dict od m payload offset) out (offset + m.bit_length) n
          step.1 bytes len' step.0 in
      let value =
        field m out offset ((n + 7) / 8) all.3 all.2 (omega (arith, all)) (omega (arith, rest))
          λ j p. ground (
            arith,
            pack_below dict reads od ms (place dict od m payload offset) out (offset + m.bit_length)
                n (offset + j) step.1 bytes len'
                (λ k q. clear_after dict reads od m payload offset k h len step.0 clear q)
                (omega (arith, p)),
            at-place dict reads od m payload offset (offset + j) h len step.0 clear,
          ) in
      let later : (t : Sink _) → _ = λ t.
        unpack-pack dict' capacity ms rs (place dict od m payload offset) out
          (offset + m.bit_length) n t step.1 bytes len' step.0
          (λ k q. clear_after dict reads od m payload offset k h len step.0 clear q) widths.1 in
      let reached : unpack dict' capacity (r ∷ rs) (take (bytes_for_bits n) out) offset s
          ≡ unpack dict' capacity rs (take (bytes_for_bits n) out) (offset + r.bit_length) (
              if is_dummy_mapping_index r.index
              then s
              else write_mapped dict' capacity r
                  (copy_pdo_bits (take (bytes_for_bits n) out) offset zeros8 0 r.bit_length) s) =
        unpack_step dict' capacity r rs (take (bytes_for_bits n) out) offset s
          (omega (arith, all, rest, widths.0, length-take ((n + 7) / 8) out))
          (omega (arith, all, rest, widths.0)) in
      let written : (if is_dummy_mapping_index r.index
            then s
            else write_mapped dict' capacity r
                (copy_pdo_bits (take (bytes_for_bits n) out) offset zeros8 0 r.bit_length) s)
          ≡ (if is_dummy_mapping_index r.index
              then s
              else write_mapped dict' capacity r (sample dict od m) s) =
        rw (sym widths.0, value) refl in
      let moved : offset + r.bit_length ≡ offset + m.bit_length = omega (arith, widths.0) in
      reached ∙ rw (written, moved) (later _)

-- The frame that a TPDO builds makes an RPDO that maps as many bits, entry by entry, write the
-- sampled values: each is the low bits of the object that the TPDO read, or zeros for a dummy, and
-- neither the packing nor the truncation to whole bytes shows. The RPDO may map fewer entries.
-- The two dictionaries are unrelated; reading keeps a buffer's size and fills it with bytes.
pub apply_mapped-build_pdo_frame :
    {O P : Type 0} (dict : ObjectDictionary O) (dict' : ObjectDictionary P) (capacity : ℕ)
    (tpdo : TpdoConfig) (rpdo : RpdoConfig) (od : O) (od' : P) (events : List OdEvent)
    (f : CanFrame)
    → ReadBytes dict
    → SameWidths tpdo.mappings rpdo.mappings
    → build_pdo_frame dict od tpdo ≡ some f
    → apply_mapped dict' capacity rpdo (frame_data f) od' events
      ≡ deliver dict' capacity rpdo.mappings
          (samples dict od tpdo.mappings)
          (record { od = od'; events = events; dropped = 0 })
unfolding apply_mapped build_pdo_frame
apply_mapped-build_pdo_frame dict dict' capacity tpdo rpdo od od' events f reads widths e =
    elim (Option-cases (pack dict od tpdo.mappings zeros8 0)) [
      | inl failed ↦ absurd (ground arith)
      | inr (p, packed) ↦
          let built : new_frame tpdo.cob_id (take (bytes_for_bits p.1) p.0) ≡ some f =
            ground arith in
          rw (frame_data-new_frame tpdo.cob_id (take (bytes_for_bits p.1) p.0) f built) (
            unpack-pack dict reads od dict' capacity tpdo.mappings rpdo.mappings zeros8 p.0 0 p.1 _
              packed zeros8-AllBytes refl (omega arith) (λ k q. at-zeros8 k) widths)
    ]
