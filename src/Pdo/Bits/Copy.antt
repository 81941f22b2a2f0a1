-- ===== src/Pdo/Bits/Copy.antt =====
-- What copying bits does to every bit of the destination (canopen-core/src/pdo/mod.rs).
use yacob.Base.{
  ℕ, zero, suc, ◌+◌, ◌-◌, ◌*◌, ◌/◌, ◌%◌, ◌^◌, ◌≤◌, ◌<◌, ◌≡◌, inl, inr, refl, ap, ◌∙◌, arith, Bool,
  true, not, ◌&&◌, if◌then◌else◌, ltb, leb, ◌==◌, bit_and, bit_or, List, [], ◌∷◌, length, get_or,
  take, drop, write_at, Bool-cases, length-take, length-drop, length-write_at,
}
use yacob.Base.Bytes.{AllBytes, ◌>>>◌}
use yacob.Pdo.Bits.{bit_at, mask, set_bit, clear_bit, copy_each_bit, copy_pdo_bits}
use yacob.Base.Slices.{
  get_or-write_at, get_or-take, get_or-drop, get_or-AllBytes, AllBytes-write_at, AllBytes-take,
  AllBytes-drop,
}
use yacob.Base.Bits.{bit_and_le, every, every_holds}

-- A byte after one of its bits is set or cleared.
abbrev byte_bit : ℕ → ℕ → ℕ
byte_bit b k = bit_and (b >>> k) 1

abbrev set_row : ℕ → ℕ → ℕ → Bool
set_row k j b = byte_bit (bit_or b (2 ^ k)) j == (if j == k then 1 else byte_bit b j)

abbrev clear_row : ℕ → ℕ → ℕ → Bool
clear_row k j b = byte_bit (bit_and b (255 - 2 ^ k)) j == (if j == k then 0 else byte_bit b j)

abbrev rows : ℕ → ℕ → ℕ → Bool
rows k j b =
    set_row k j b
    && (clear_row k j b && (ltb (bit_or b (2 ^ k)) 256 && ltb (bit_and b (255 - 2 ^ k)) 256))

table : every (λ k. every (λ j. every (rows k j) 256) 8) 8 ≡ true
unfolding every
table = refl

rows_hold : (k j b : ℕ) → k < 8 → j < 8 → b < 256 → rows k j b ≡ true
rows_hold k j b p q r =
    every_holds (rows k j) 256
      (every_holds (λ j. every (rows k j) 256) 8
        (every_holds (λ k. every (λ j. every (rows k j) 256) 8) 8 table k p) j q)
      b r

-- One bit written.
module _ (dst : List ℕ) (bit : ℕ) (bytes : AllBytes dst) (fits : bit < 8 * length dst) where
  row : (j : ℕ) → rows (bit % 8) (j % 8) (get_or dst (bit / 8) 0) ≡ true
  row j =
      rows_hold (bit % 8) (j % 8) (get_or dst (bit / 8) 0) (omega arith) (omega arith)
        (get_or-AllBytes dst (bit / 8) bytes)

  at-set_bit : (j : ℕ) → bit_at (set_bit dst bit) j ≡ (if j == bit then 1 else bit_at dst j)
  unfolding set_bit
  at-set_bit j = ground (
    arith,
    row j,
    get_or-write_at dst (bit / 8) (bit_or (get_or dst (bit / 8) 0) (mask bit) ∷ []) (j / 8)
        (omega arith),
  )

  at-clear_bit : (j : ℕ) → bit_at (clear_bit dst bit) j ≡ (if j == bit then 0 else bit_at dst j)
  unfolding clear_bit
  at-clear_bit j = ground (
    arith,
    row j,
    get_or-write_at dst (bit / 8) (bit_and (get_or dst (bit / 8) 0) (255 - mask bit) ∷ []) (j / 8)
        (omega arith),
  )

  set_bit-AllBytes : AllBytes (set_bit dst bit)
  unfolding set_bit
  set_bit-AllBytes = AllBytes-write_at dst (bit / 8) _ bytes (ground (arith, row 0), _)

  clear_bit-AllBytes : AllBytes (clear_bit dst bit)
  unfolding clear_bit
  clear_bit-AllBytes = AllBytes-write_at dst (bit / 8) _ bytes (ground (arith, row 0), _)

-- One round of the loop.
abbrev copy_bit : List ℕ → ℕ → List ℕ → ℕ → List ℕ
copy_bit src src_bit dst dst_bit =
    if not (bit_at src src_bit == 0) then set_bit dst dst_bit else clear_bit dst dst_bit

bit_at-le : (xs : List ℕ) (j : ℕ) → bit_at xs j ≤ 1
bit_at-le xs j = bit_and_le (get_or xs (j / 8) 0 >>> (j % 8)) 1

at-copy_bit :
    (src dst : List ℕ) (from bit j : ℕ)
    → AllBytes dst
    → bit < 8 * length dst
    → bit_at (copy_bit src from dst bit) j ≡ (if j == bit then bit_at src from else bit_at dst j)
at-copy_bit src dst from bit j h fits =
    ground (arith, at-set_bit dst bit h fits j, at-clear_bit dst bit h fits j, bit_at-le src from)

copy_bit-AllBytes :
    (src dst : List ℕ) (from bit : ℕ)
    → AllBytes dst
    → bit < 8 * length dst
    → AllBytes (copy_bit src from dst bit)
copy_bit-AllBytes src dst from bit h fits =
    ground (arith, set_bit-AllBytes dst bit h fits, clear_bit-AllBytes dst bit h fits)

length-copy_bit :
    (src dst : List ℕ) (from bit : ℕ) → length (copy_bit src from dst bit) ≡ length dst
unfolding set_bit clear_bit
length-copy_bit src dst from bit = ground (
  arith,
  length-write_at dst (bit / 8) (bit_or (get_or dst (bit / 8) 0) (mask bit) ∷ []),
  length-write_at dst (bit / 8) (bit_and (get_or dst (bit / 8) 0) (255 - mask bit) ∷ []),
)

copy_each_bit-Copies :
    (src dst : List ℕ) (from to count j : ℕ)
    → AllBytes dst
    → to + count ≤ 8 * length dst
    → bit_at (copy_each_bit src from dst to count) j
      ≡ (if leb to j && ltb j (to + count) then bit_at src (from + (j - to)) else bit_at dst j)
unfolding copy_each_bit
copy_each_bit-Copies src dst from to zero j h fits = ground arith
copy_each_bit-Copies src dst from to (suc count) j h fits =
    let step = at-copy_bit src dst from to j h (omega arith) in
    let rest =
      copy_each_bit-Copies src (copy_bit src from dst to) (from + 1) (to + 1) count j
        (copy_bit-AllBytes src dst from to h (omega arith))
        (omega (arith, length-copy_bit src dst from to)) in
    elim (Bool-cases (leb (to + 1) j)) [
      | inl later ↦
          let aligned : from + 1 + (j - (to + 1)) ≡ from + (j - to) = ground arith in
          ground (arith, step, rest, ap (bit_at src) aligned)
      | inr earlier ↦
          let first : j ≡ to → from + (j - to) ≡ from = λ e. omega (arith, e) in
          ground (arith, step, rest, first)
    ]

copy_each_bit-AllBytes :
    (src dst : List ℕ) (from to count : ℕ)
    → AllBytes dst
    → to + count ≤ 8 * length dst
    → AllBytes (copy_each_bit src from dst to count)
unfolding copy_each_bit
copy_each_bit-AllBytes src dst from to zero h fits = h
copy_each_bit-AllBytes src dst from to (suc count) h fits =
    copy_each_bit-AllBytes src (copy_bit src from dst to) (from + 1) (to + 1) count
      (copy_bit-AllBytes src dst from to h (omega arith))
      (omega (arith, length-copy_bit src dst from to))

length-copy_each_bit :
    (src dst : List ℕ) (from to count : ℕ)
    → length (copy_each_bit src from dst to count) ≡ length dst
unfolding copy_each_bit
length-copy_each_bit src dst from to zero = refl
length-copy_each_bit src dst from to (suc count) =
    length-copy_each_bit src (copy_bit src from dst to) (from + 1) (to + 1) count
    ∙ length-copy_bit src dst from to

-- The byte that the aligned copy puts at an index.
byte-write_at :
    (src dst : List ℕ) (a b c k : ℕ)
    → a + c ≤ length src
    → b + c ≤ length dst
    → get_or (write_at dst b (take c (drop a src))) k 0
      ≡ (if leb b k && ltb k (b + c) then get_or src (a + (k - b)) 0 else get_or dst k 0)
byte-write_at src dst a b c k p q =
    let len : length (take c (drop a src)) ≡ c =
      omega (arith, length-take c (drop a src), length-drop a src) in
    ground (
      arith,
      len,
      get_or-write_at dst b (take c (drop a src)) k (omega (arith, len)),
      get_or-take c (drop a src) (k - b),
      get_or-drop a src (k - b),
    )

pub copy_pdo_bits-Copies :
    (src : List ℕ) (from : ℕ) (dst : List ℕ) (to count j : ℕ)
    → AllBytes dst
    → from + count ≤ 8 * length src
    → to + count ≤ 8 * length dst
    → bit_at (copy_pdo_bits src from dst to count) j
      ≡ (if leb to j && ltb j (to + count) then bit_at src (from + (j - to)) else bit_at dst j)
unfolding copy_pdo_bits
copy_pdo_bits-Copies src from dst to count j h p q =
    elim (Bool-cases (from % 8 == 0 && (to % 8 == 0 && count % 8 == 0))) [
      | inl aligned ↦ ground (
        arith,
        byte-write_at src dst (from / 8) (to / 8) (count / 8) (j / 8) (ground arith) (ground arith),
      )
      | inr loop ↦ rw loop (copy_each_bit-Copies src dst from to count j h q)
    ]

pub copy_pdo_bits-AllBytes :
    (src : List ℕ) (from : ℕ) (dst : List ℕ) (to count : ℕ)
    → AllBytes src
    → AllBytes dst
    → to + count ≤ 8 * length dst
    → AllBytes (copy_pdo_bits src from dst to count)
unfolding copy_pdo_bits
copy_pdo_bits-AllBytes src from dst to count k h q =
    elim (Bool-cases (from % 8 == 0 && (to % 8 == 0 && count % 8 == 0))) [
      | inl aligned ↦ rw aligned (
          AllBytes-write_at dst (to / 8) _ h
            (AllBytes-take (count / 8) _ (AllBytes-drop (from / 8) src k)))
      | inr loop ↦ rw loop (copy_each_bit-AllBytes src dst from to count h q)
    ]

pub length-copy_pdo_bits :
    (src : List ℕ) (from : ℕ) (dst : List ℕ) (to count : ℕ)
    → length (copy_pdo_bits src from dst to count) ≡ length dst
unfolding copy_pdo_bits
length-copy_pdo_bits src from dst to count = ground (
  arith,
  length-write_at dst (to / 8) (take (count / 8) (drop (from / 8) src)),
  length-copy_each_bit src dst from to count,
)
