-- ===== src/Base/Masks.antt =====
-- What `&` with a mask says of the bits under it, as arithmetic.
use Prim.Native.Nat.{ℕ, zero, suc, ◌+◌, ◌*◌, ◌/◌, ◌%◌, ◌^◌, bit_and}
use mathlib.Core.Path.{◌≡◌, ap}
use native.Mathlib.Nat.{pow-suc, one-le-pow}
use native.Mathlib.Omega.{arith}
use yacob.Base.Bits.{and_halves, mod-two_mul}

-- `a / 2^k`, one bit at a time.
abbrev pub halve : ℕ → ℕ → ℕ
halve zero a = a
halve (suc k) a = halve k (a / 2)

pub bit_and-halve : (k a m : ℕ) → bit_and a m ≡ 0 → bit_and (halve k a) (halve k m) ≡ 0
bit_and-halve zero a m h = h
bit_and-halve (suc k) a m h = bit_and-halve k (a / 2) (m / 2) (omega (arith, and_halves a m))

-- Where a mask has its low `k` bits set and nothing is under it, the low `k` bits are zeros.
pub bit_and-low : (k a m : ℕ) → m % 2 ^ k + 1 ≡ 2 ^ k → bit_and a m ≡ 0 → a % 2 ^ k ≡ 0
bit_and-low zero a m full h = omega arith
bit_and-low (suc k) a m full h =
    let wide = pow-suc 2 k in
    let positive = one-le-pow k 2 in
    let split_m : m % 2 ^ suc k ≡ m / 2 % 2 ^ k * 2 + m % 2 =
      omega (arith, ap (λ (t : ℕ). m % t) wide, mod-two_mul m (2 ^ k) (omega (arith, positive))) in
    let split_a : a % 2 ^ suc k ≡ a / 2 % 2 ^ k * 2 + a % 2 =
      omega (arith, ap (λ (t : ℕ). a % t) wide, mod-two_mul a (2 ^ k) (omega (arith, positive))) in
    let rest =
      bit_and-low k (a / 2) (m / 2) (omega (arith, split_m, wide, full))
        (omega (arith, and_halves a m)) in
    omega (arith, split_a, split_m, rest, and_halves a m, wide, full)
