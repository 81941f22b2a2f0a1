-- ===== src/Base/Bits.antt =====
-- `&` with a mask of low bits and `|` of disjoint fields, as arithmetic, at every width.
use Prim.Native.Nat.{
  ℕ, zero, suc, ◌+◌, ◌*◌, ◌/◌, ◌%◌, ◌^◌, ◌≤◌, ◌<◌, min, max, bit_and, bit_or, digits,
  bit_and-bitwise, bit_or-bitwise,
}
use mathlib.Core.Path.{◌≡◌, refl, ap, ◌∙◌}
use native.Mathlib.Nat.{
  pow-suc, one-le-pow, div-add-mod', mul-add-mod_self_right, mod-eq_of_lt, mod-lt,
}
use mathlib.Core.Bool.{Bool, true, ◌&&◌}
use native.Mathlib.Omega.{arith}
use mathlib.Core.Logic.{inl, inr}
use yacob.Base.Tests.{Bool-cases, leb, ◌==◌}

-- One round more than enough of the recursion on binary digits changes nothing, nor do several.
module _ (z : ℕ → ℕ) (f : ℕ → ℕ → ℕ) where
  digits_once_more :
      (a b rounds : ℕ) → a ≤ rounds → digits z f (suc rounds) a b ≡ digits z f rounds a b
  digits_once_more zero b zero h = refl
  digits_once_more zero b (suc rounds) h = refl
  digits_once_more (suc a) b zero h = absurd (omega arith)
  digits_once_more (suc a) b (suc rounds) h =
      omega (arith, digits_once_more (suc a / 2) (b / 2) rounds (omega arith))

  digits_enough :
      (a b few rounds : ℕ) → a ≤ few → few ≤ rounds → digits z f rounds a b ≡ digits z f few a b
  digits_enough a b few zero p q =
      let none_left : 0 ≡ few = omega arith in ap (λ (n : ℕ). digits z f n a b) none_left
  digits_enough a b few (suc rounds) p q = elim (Bool-cases (leb few rounds)) [
    | inl below ↦
        digits_once_more a b rounds (ground arith) ∙ digits_enough a b few rounds p (ground arith)
    | inr top ↦ let same : suc rounds ≡ few = ground arith in ap (λ (n : ℕ). digits z f n a b) same
  ]

zero-bit_and : (b : ℕ) → bit_and 0 b ≡ 0
zero-bit_and b = bit_and-bitwise 0 b

zero-bit_or : (b : ℕ) → bit_or 0 b ≡ b
zero-bit_or b = bit_or-bitwise 0 b

-- The lowest digit of the result, and the rest.
pub and_halves : (a b : ℕ) → bit_and a b ≡ bit_and (a / 2) (b / 2) * 2 + min (a % 2) (b % 2)
and_halves zero b = omega (arith, zero-bit_and b, zero-bit_and (b / 2))
and_halves (suc a) b = omega (
  arith,
  bit_and-bitwise (suc a) b,
  bit_and-bitwise (suc a / 2) (b / 2),
  digits_enough (λ b. zero) min (suc a / 2) (b / 2) (suc a / 2) a (omega arith) (omega arith),
)

or_halves : (a b : ℕ) → bit_or a b ≡ bit_or (a / 2) (b / 2) * 2 + max (a % 2) (b % 2)
or_halves zero b = omega (arith, zero-bit_or b, zero-bit_or (b / 2))
or_halves (suc a) b = omega (
  arith,
  bit_or-bitwise (suc a) b,
  bit_or-bitwise (suc a / 2) (b / 2),
  digits_enough (λ b. b) max (suc a / 2) (b / 2) (suc a / 2) a (omega arith) (omega arith),
)

bit_and-zero_below : (n a : ℕ) → a ≤ n → bit_and a 0 ≡ 0
bit_and-zero_below n zero h = zero-bit_and 0
bit_and-zero_below zero (suc a) h = absurd (omega arith)
bit_and-zero_below (suc n) (suc a) h =
    omega (arith, and_halves (suc a) 0, bit_and-zero_below n (suc a / 2) (omega arith))

bit_or-zero_below : (n a : ℕ) → a ≤ n → bit_or a 0 ≡ a
bit_or-zero_below n zero h = zero-bit_or 0
bit_or-zero_below zero (suc a) h = absurd (omega arith)
bit_or-zero_below (suc n) (suc a) h =
    omega (arith, or_halves (suc a) 0, bit_or-zero_below n (suc a / 2) (omega arith))

-- `a % 2p` by the lowest digit of `a`.
pub mod-two_mul : (a p : ℕ) → 0 < p → a % (p * 2) ≡ (a / 2) % p * 2 + a % 2
mod-two_mul a p h =
    ap (λ (t : ℕ). t % (p * 2)) (omega (arith, div-add-mod' (a / 2) p))
    ∙ mul-add-mod_self_right (a / 2 / p) (p * 2) (a / 2 % p * 2 + a % 2)
    ∙ mod-eq_of_lt (omega (arith, mod-lt (a / 2) h))

-- `a & (2^k - 1)` is `a mod 2^k`; the mask is given by its value.
pub bit_and_mask : (k a m : ℕ) → m + 1 ≡ 2 ^ k → bit_and a m ≡ a % 2 ^ k
bit_and_mask zero a m e =
    omega (arith, bit_and-zero_below a a (omega arith), ap (bit_and a) (zero_of m (omega arith)))
  where
    zero_of : (n : ℕ) → n + 1 ≡ 1 → n ≡ 0
    zero_of n h = omega arith
bit_and_mask (suc k) a m e = omega (
  arith,
  and_halves a m,
  pow-suc 2 k,
  one-le-pow k 2,
  bit_and_mask k (a / 2) (m / 2) (omega (arith, pow-suc 2 k)),
  mod-two_mul a (2 ^ k) (omega (arith, one-le-pow k 2)),
  ap (λ (t : ℕ). a % t) (pow-suc 2 k),
)

-- `(q << k) | r` is a sum where `r` has `k` bits; the shifted field is given by its value.
pub bit_or_fields : (k q r s : ℕ) → s ≡ q * 2 ^ k → r < 2 ^ k → bit_or s r ≡ s + r
bit_or_fields zero q r s e fits =
    omega (arith, bit_or-zero_below s s (omega arith), ap (bit_or s) (zero_of r (omega arith)))
  where
    zero_of : (n : ℕ) → n < 1 → n ≡ 0
    zero_of n h = omega arith
bit_or_fields (suc k) q r s e fits = omega (
  arith,
  or_halves s r,
  pow-suc 2 k,
  ap (λ (t : ℕ). q * t) (pow-suc 2 k),
  bit_or_fields k q (r / 2) (s / 2)
      (omega (arith, pow-suc 2 k, ap (λ (t : ℕ). q * t) (pow-suc 2 k)))
      (omega (arith, pow-suc 2 k)),
)

-- The same with the low field in front.
pub bit_or_low : (k q r s : ℕ) → s ≡ q * 2 ^ k → r < 2 ^ k → bit_or r s ≡ r + s
bit_or_low zero q r s e fits =
    omega (arith, zero-bit_or s, ap (λ (t : ℕ). bit_or t s) (zero_of r (omega arith)))
  where
    zero_of : (n : ℕ) → n < 1 → n ≡ 0
    zero_of n h = omega arith
bit_or_low (suc k) q r s e fits = omega (
  arith,
  or_halves r s,
  pow-suc 2 k,
  ap (λ (t : ℕ). q * t) (pow-suc 2 k),
  bit_or_low k q (r / 2) (s / 2) (omega (arith, pow-suc 2 k, ap (λ (t : ℕ). q * t) (pow-suc 2 k)))
      (omega (arith, pow-suc 2 k)),
)

-- A property of the bytes, or of fewer numbers, is decided by trying them all.
unfoldable pub every : (ℕ → Bool) → ℕ → Bool
every test zero = true
every test (suc last) = every test last && test last

pub every_holds :
    (test : ℕ → Bool) (bound : ℕ) → every test bound ≡ true → (n : ℕ) → n < bound → test n ≡ true
unfolding every
every_holds test zero all n below = absurd (omega arith)
every_holds test (suc last) all n below = elim (Bool-cases (n == last)) [
  | inl here ↦ ap test (ground arith) ∙ and_right (every test last) (test last) all
  | inr earlier ↦
      every_holds test last (and_left (every test last) (test last) all) n (ground arith)
]
  where
    and_left : (a b : Bool) → (a && b) ≡ true → a ≡ true
    and_left a b h = ground arith

    and_right : (a b : Bool) → (a && b) ≡ true → b ≡ true
    and_right a b h = ground arith

pub bit_or_odd : (x y : ℕ) → y % 2 ≡ 1 → bit_or x y % 2 ≡ 1
bit_or_odd x y h = omega (arith, or_halves x y)

bit_and_bounded : (n a b : ℕ) → a ≤ n → bit_and a b ≤ b
bit_and_bounded n zero b h = omega (arith, zero-bit_and b)
bit_and_bounded zero (suc a) b h = absurd (omega arith)
bit_and_bounded (suc n) (suc a) b h =
    omega (arith, and_halves (suc a) b, bit_and_bounded n (suc a / 2) (b / 2) (omega arith))

pub bit_and_le : (a b : ℕ) → bit_and a b ≤ b
bit_and_le a b = bit_and_bounded a a b (omega arith)
