-- ===== src/Pdo/Bits/Low.antt =====
-- Byte sequences are told apart by their bits; the low bits of one as a sequence.
use yacob.Base.{
  ℕ, suc, ◌+◌, ◌-◌, ◌*◌, ◌/◌, ◌%◌, ◌^◌, ◌<◌, ◌≡◌, min, inl, inr, refl, sym, ap, ◌∙◌, arith, Bool,
  true, if◌then◌else◌, ltb, ◌==◌, bit_and, List, [], ◌∷◌, length, Bool-cases,
}
use yacob.Base.Bytes.{AllBytes, ◌>>>◌}
use yacob.Pdo.Bits.{bit_at}
use yacob.Base.Bits.{bit_and_mask, every, every_holds}

-- What a sequence keeps of itself below a number of bits.
unfoldable pub low_bits : ℕ → List ℕ → List ℕ
low_bits len [] = []
low_bits len (x ∷ xs) = x % 2 ^ min len 8 ∷ low_bits (len - 8) xs

abbrev byte_bit : ℕ → ℕ → ℕ
byte_bit b k = bit_and (b >>> k) 1

abbrev of_bits : ℕ → ℕ
of_bits b =
    byte_bit b 0
    + 2 * byte_bit b 1
    + 4 * byte_bit b 2
    + 8 * byte_bit b 3
    + 16 * byte_bit b 4
    + 32 * byte_bit b 5
    + 64 * byte_bit b 6
    + 128 * byte_bit b 7

of_bits_table : every (λ b. of_bits b == b) 256 ≡ true
unfolding every
of_bits_table = refl

of_bits_lem : (b : ℕ) → b < 256 → of_bits b ≡ b
of_bits_lem b h = ground (arith, every_holds (λ b. of_bits b == b) 256 of_bits_table b h)

abbrev low_row : ℕ → ℕ → ℕ → Bool
low_row m k b = byte_bit (b % 2 ^ m) k == (if ltb k m then byte_bit b k else 0)

low_table : every (λ m. every (λ k. every (low_row m k) 256) 8) 9 ≡ true
unfolding every
low_table = refl

low_row_holds : (m k b : ℕ) → m < 9 → k < 8 → b < 256 → low_row m k b ≡ true
low_row_holds m k b p q r =
    every_holds (low_row m k) 256
      (every_holds (λ k. every (low_row m k) 256) 8
        (every_holds (λ m. every (λ k. every (low_row m k) 256) 8) 9 low_table m p) k q)
      b r

-- The bits of the tail.
at-tail : (x : ℕ) (xs : List ℕ) (j : ℕ) → bit_at (x ∷ xs) (j + 8) ≡ bit_at xs j
at-tail x xs j =
    let byte : (j + 8) / 8 ≡ suc (j / 8) = omega arith in
    let place : (j + 8) % 8 ≡ j % 8 = omega arith in rw (byte, place) refl

at-head : (x : ℕ) (xs : List ℕ) (j : ℕ) → j < 8 → bit_at (x ∷ xs) j ≡ byte_bit x j
at-head x xs j h =
    let byte : j / 8 ≡ 0 = omega arith in
    let place : j % 8 ≡ j = omega arith in rw (byte, place) refl

pub bytes_ext :
    (xs ys : List ℕ)
    → length xs ≡ length ys
    → AllBytes xs
    → AllBytes ys
    → ((j : ℕ) → bit_at xs j ≡ bit_at ys j)
    → xs ≡ ys
bytes_ext [] [] e p q h = refl
bytes_ext [] (y ∷ ys) e p q h = absurd (omega arith)
bytes_ext (x ∷ xs) [] e p q h = absurd (omega arith)
bytes_ext (x ∷ xs) (y ∷ ys) e p q h =
    let head : x ≡ y =
      omega (arith, of_bits_lem x p.0, of_bits_lem y q.0, h 0, h 1, h 2, h 3, h 4, h 5, h 6, h 7) in
    let tail : xs ≡ ys =
      bytes_ext xs ys (omega arith) p.1 q.1
        λ j. sym (at-tail x xs j) ∙ h (j + 8) ∙ at-tail y ys j in
    rw (head, tail) refl

at-nil : (j : ℕ) → bit_at [] j ≡ 0
at-nil j = omega (arith, bit_and_mask 1 (0 >>> (j % 8)) 1 refl)

pub at-low_bits :
    (len : ℕ) (xs : List ℕ) (j : ℕ)
    → AllBytes xs
    → bit_at (low_bits len xs) j ≡ (if ltb j len then bit_at xs j else 0)
unfolding low_bits
at-low_bits len [] j h = ground (arith, at-nil j)
at-low_bits len (x ∷ xs) j h = elim (Bool-cases (ltb j 8)) [
  | inl here ↦
      let small : j < 8 = ground arith in
      ground (
        arith,
        at-head (x % 2 ^ min len 8) (low_bits (len - 8) xs) j small,
        at-head x xs j small,
        low_row_holds (min len 8) j x (omega arith) small h.0,
      )
  | inr later ↦
      let k : ℕ = j - 8 in
      let split : j ≡ k + 8 = ground arith in
      ground (
        arith,
        ap (bit_at (x % 2 ^ min len 8 ∷ low_bits (len - 8) xs)) split,
        ap (bit_at (x ∷ xs)) split,
        at-tail (x % 2 ^ min len 8) (low_bits (len - 8) xs) k,
        at-tail x xs k,
        at-low_bits (len - 8) xs k h.1,
      )
]

pub length-low_bits : (len : ℕ) (xs : List ℕ) → length (low_bits len xs) ≡ length xs
unfolding low_bits
length-low_bits len [] = refl
length-low_bits len (x ∷ xs) = ap suc (length-low_bits (len - 8) xs)

pub low_bits-AllBytes : (len : ℕ) (xs : List ℕ) → AllBytes xs → AllBytes (low_bits len xs)
unfolding low_bits
low_bits-AllBytes len [] h = _
low_bits-AllBytes len (x ∷ xs) h = (omega arith, low_bits-AllBytes (len - 8) xs h.1)
