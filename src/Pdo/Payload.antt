-- ===== src/Pdo/Payload.antt =====
-- The payload that a TPDO packs, bit by bit (canopen-core/src/pdo/engine.rs).
use yacob.Base.{
  ℕ, zero, suc, ◌+◌, ◌-◌, ◌*◌, ◌/◌, ◌%◌, ◌≤◌, ◌<◌, ◌≡◌, inl, inr, refl, ap, ◌∙◌, arith, ◌&&◌,
  if◌then◌else◌, ltb, leb, bit_and, List, [], ◌∷◌, length, get_or, replicate, some, Bool-cases,
}
use yacob.Base.Bytes.{AllBytes, ◌>>>◌}
use yacob.Base.Bits.{bit_and_mask}
use yacob.Sdo.Od.{ObjectDictionary}
use yacob.Pdo.{PdoMapping, is_dummy_mapping_index}
use yacob.Pdo.Bits.{copy_pdo_bits, bit_at}
use yacob.Pdo.Bits.Copy.{copy_pdo_bits-Copies, copy_pdo_bits-AllBytes, length-copy_pdo_bits}
use yacob.Pdo.Bits.Low.{low_bits, at-low_bits, length-low_bits, low_bits-AllBytes}
use yacob.Pdo.Pack.{zeros8, pack}

-- What `read` documents of its buffer: it keeps the size, and it holds bytes.
pub record ReadBytes {O : Type 0} (dict : ObjectDictionary O) : Type 0 where
  pub keeps_length :
      (od : O) (index subindex : ℕ) (buf : List ℕ)
      → length (dict.read od index subindex buf).1 ≡ length buf
  pub keeps_bytes :
      (od : O) (index subindex : ℕ) (buf : List ℕ)
      → AllBytes buf
      → AllBytes (dict.read od index subindex buf).1

-- The value that a TPDO samples for an entry: the low bits of the object, or zeros for a dummy.
unfoldable pub sample : {O : Type 0} → ObjectDictionary O → O → PdoMapping → List ℕ
sample dict od m =
    if is_dummy_mapping_index m.index
    then zeros8
    else low_bits m.bit_length (dict.read od m.index m.subindex zeros8).1

abbrev pub samples : {O : Type 0} → ObjectDictionary O → O → List PdoMapping → List (List ℕ)
samples dict od [] = []
samples dict od (m ∷ ms) = sample dict od m ∷ samples dict od ms

-- The payload after an entry.
abbrev pub place : {O : Type 0} → ObjectDictionary O → O → PdoMapping → List ℕ → ℕ → List ℕ
place dict od m payload offset =
    if is_dummy_mapping_index m.index
    then payload
    else copy_pdo_bits (dict.read od m.index m.subindex zeros8).1 0 payload offset m.bit_length

pub zeros8-AllBytes : AllBytes zeros8
zeros8-AllBytes = ground arith

get_or-replicate : (n k : ℕ) → get_or {A = ℕ} (replicate n 0) k 0 ≡ 0
get_or-replicate zero k = refl
get_or-replicate (suc n) zero = refl
get_or-replicate (suc n) (suc k) = get_or-replicate n k

pub at-zeros8 : (j : ℕ) → bit_at zeros8 j ≡ 0
at-zeros8 j =
    let byte : bit_at zeros8 j ≡ bit_and (0 >>> (j % 8)) 1 =
      ap (λ (b : ℕ). bit_and (b >>> (j % 8)) 1) (get_or-replicate 8 (j / 8)) in
    omega (arith, byte, bit_and_mask 1 (0 >>> (j % 8)) 1 refl)

module _ {O : Type 0} (dict : ObjectDictionary O) (reads : ReadBytes dict) (od : O) where
  pub pack_step :
      (m : PdoMapping) (ms : List PdoMapping) (payload : List ℕ) (offset : ℕ) (r : List ℕ × ℕ)
      → pack dict od (m ∷ ms) payload offset ≡ some r
      → (offset + m.bit_length ≤ 64)
        × (pack dict od ms (place dict od m payload offset) (offset + m.bit_length) ≡ some r)
  unfolding pack
  pack_step m ms payload offset r h = ground arith

  object : PdoMapping → List ℕ
  object m = (dict.read od m.index m.subindex zeros8).1

  object-AllBytes : (m : PdoMapping) → AllBytes (object m)
  unfolding object
  object-AllBytes m = reads.keeps_bytes od m.index m.subindex zeros8 zeros8-AllBytes

  length-object : (m : PdoMapping) → length (object m) ≡ 8
  unfolding object
  length-object m = reads.keeps_length od m.index m.subindex zeros8

  pub length-place :
      (m : PdoMapping) (payload : List ℕ) (offset : ℕ)
      → length (place dict od m payload offset) ≡ length payload
  length-place m payload offset = ground (
    arith,
    length-copy_pdo_bits (dict.read od m.index m.subindex zeros8).1 0 payload offset m.bit_length,
  )

  pub place-AllBytes :
      (m : PdoMapping) (payload : List ℕ) (offset : ℕ)
      → AllBytes payload
      → offset + m.bit_length ≤ 8 * length payload
      → AllBytes (place dict od m payload offset)
  unfolding object
  place-AllBytes m payload offset h fits = ground (
    arith,
    h,
    copy_pdo_bits-AllBytes (object m) 0 payload offset m.bit_length (object-AllBytes m) h fits,
  )

  -- The bits of a payload after an entry: the sample in its place, over a payload that is clear there.
  pub at-place :
      (m : PdoMapping) (payload : List ℕ) (offset j : ℕ)
      → AllBytes payload
      → length payload ≡ 8
      → offset + m.bit_length ≤ 64
      → ((k : ℕ) → offset ≤ k → bit_at payload k ≡ 0)
      → bit_at (place dict od m payload offset) j ≡ (
          if leb offset j && ltb j (offset + m.bit_length)
          then bit_at (sample dict od m) (j - offset)
          else bit_at payload j)
  unfolding sample object
  at-place m payload offset j h len fits clear =
      elim (Bool-cases (is_dummy_mapping_index m.index)) [
        | inl dummy ↦ ground (arith, at-zeros8 (j - offset), clear j)
        | inr mapped ↦ ground (
          arith,
          copy_pdo_bits-Copies (object m) 0 payload offset m.bit_length j h
              (omega (arith, length-object m)) (omega arith),
          at-low_bits m.bit_length (object m) (j - offset) (object-AllBytes m),
        )
      ]

  pub sample-clear : (m : PdoMapping) (j : ℕ) → m.bit_length ≤ j → bit_at (sample dict od m) j ≡ 0
  unfolding sample object
  sample-clear m j h =
      ground (arith, at-zeros8 j, at-low_bits m.bit_length (object m) j (object-AllBytes m))

  pub sample-AllBytes : (m : PdoMapping) → AllBytes (sample dict od m)
  unfolding sample object
  sample-AllBytes m =
      ground (arith, zeros8-AllBytes, low_bits-AllBytes m.bit_length (object m) (object-AllBytes m))

  pub length-sample : (m : PdoMapping) → length (sample dict od m) ≡ 8
  unfolding sample object
  length-sample m = ground (arith, length-low_bits m.bit_length (object m), length-object m)

  -- What the entries that follow leave of a payload.
  pub pack-Fits :
      (ms : List PdoMapping) (payload out : List ℕ) (offset n : ℕ)
      → pack dict od ms payload offset ≡ some (out, n)
      → AllBytes payload
      → length payload ≡ 8
      → offset ≤ 64
      → (offset ≤ n) × (n ≤ 64) × (length out ≡ 8) × AllBytes out
  unfolding pack
  pack-Fits [] payload out offset n e h len fits = ground arith
  pack-Fits (m ∷ ms) payload out offset n e h len fits =
      let step = pack_step m ms payload offset (out, n) e in
      let rest =
        pack-Fits ms (place dict od m payload offset) out (offset + m.bit_length) n step.1
          (place-AllBytes m payload offset h (omega (arith, step)))
          (length-place m payload offset ∙ len) step.0 in
      ground (arith, rest)

  pub clear_after :
      (m : PdoMapping) (payload : List ℕ) (offset k : ℕ)
      → AllBytes payload
      → length payload ≡ 8
      → offset + m.bit_length ≤ 64
      → ((k : ℕ) → offset ≤ k → bit_at payload k ≡ 0)
      → offset + m.bit_length ≤ k
      → bit_at (place dict od m payload offset) k ≡ 0
  clear_after m payload offset k h len fits clear p =
      ground (arith, at-place m payload offset k h len fits clear, clear k)

  pub pack_below :
      (ms : List PdoMapping) (payload out : List ℕ) (offset n j : ℕ)
      → pack dict od ms payload offset ≡ some (out, n)
      → AllBytes payload
      → length payload ≡ 8
      → ((k : ℕ) → offset ≤ k → bit_at payload k ≡ 0)
      → j < offset
      → bit_at out j ≡ bit_at payload j
  unfolding pack
  pack_below [] payload out offset n j e h len clear below = ground arith
  pack_below (m ∷ ms) payload out offset n j e h len clear below =
      let step = pack_step m ms payload offset (out, n) e in
      let rest =
        pack_below ms (place dict od m payload offset) out (offset + m.bit_length) n j step.1
          (place-AllBytes m payload offset h (omega (arith, step)))
          (length-place m payload offset ∙ len)
          (λ k p. clear_after m payload offset k h len step.0 clear p) (omega arith) in
      ground (arith, rest, at-place m payload offset j h len step.0 clear)
