-- ===== src/Base/Bytes.antt =====
-- `[u8; 8]`, the little-endian conversions of Rust's integers, and casts to the fixed widths.
use Prim.Native.Nat.{ℕ, ◌+◌, ◌-◌, ◌*◌, ◌/◌, ◌%◌, ◌^◌, ◌<◌, bit_and, bit_or}
use mathlib.Core.Path.{◌≡◌, refl}
use mathlib.Core.Bool.{Bool, not}
use mathlib.Core.List.{List, [], ◌∷◌}
use native.Mathlib.Omega.{arith}
use yacob.Base.Tests.{◌==◌}
use yacob.Base.Lists.{get_or}
use yacob.Base.Bits.{bit_and_mask, bit_or_low}

pub record Bytes8 : Type 0 where
  pub b0 : ℕ
  pub b1 : ℕ
  pub b2 : ℕ
  pub b3 : ℕ
  pub b4 : ℕ
  pub b5 : ℕ
  pub b6 : ℕ
  pub b7 : ℕ

-- Every entry is a `u8`.
pub record IsBytes8 (d : Bytes8) : Type 0 where
  pub lt0 : d.b0 < 256
  pub lt1 : d.b1 < 256
  pub lt2 : d.b2 < 256
  pub lt3 : d.b3 < 256
  pub lt4 : d.b4 < 256
  pub lt5 : d.b5 < 256
  pub lt6 : d.b6 < 256
  pub lt7 : d.b7 < 256

abbrev pub to_list : Bytes8 → List ℕ
to_list d = d.b0 ∷ d.b1 ∷ d.b2 ∷ d.b3 ∷ d.b4 ∷ d.b5 ∷ d.b6 ∷ d.b7 ∷ []

-- The first eight numbers of a list, with zeros behind a shorter one.
abbrev pub of_list : List ℕ → Bytes8
of_list xs = record {
  b0 = get_or xs 0 0;
  b1 = get_or xs 1 0;
  b2 = get_or xs 2 0;
  b3 = get_or xs 3 0;
  b4 = get_or xs 4 0;
  b5 = get_or xs 5 0;
  b6 = get_or xs 6 0;
  b7 = get_or xs 7 0;
}

abbrev pub AllBytes : List ℕ → Type 0
AllBytes [] = Unit
AllBytes (x ∷ xs) = (x < 256) × AllBytes xs

-- `as u8`, `as u16`, `as u32`, and the arithmetic of `u64` that wraps.
abbrev pub u8 : ℕ → ℕ
u8 n = n % 2 ^ 8

abbrev pub u16 : ℕ → ℕ
u16 n = n % 2 ^ 16

abbrev pub u32 : ℕ → ℕ
u32 n = n % 2 ^ 32

abbrev pub wrapping_sub : ℕ → ℕ → ℕ
wrapping_sub a b = (a + 2 ^ 64 - b) % 2 ^ 64

infixl 75 ◌<<<◌ ◌>>>◌
abbrev pub ◌<<<◌ : ℕ → ℕ → ℕ
x <<< k = x * 2 ^ k

abbrev pub ◌>>>◌ : ℕ → ℕ → ℕ
x >>> k = x / 2 ^ k

-- `x & mask != 0`.
abbrev pub has_bits : ℕ → ℕ → Bool
has_bits x mask = not (bit_and x mask == 0)

-- `u32::to_le_bytes`, `u32::from_le_bytes`, `u16::from_le_bytes`.
abbrev pub le_bytes32 : ℕ → List ℕ
le_bytes32 n = n % 256 ∷ n / 256 % 256 ∷ n / 65536 % 256 ∷ n / 16777216 % 256 ∷ []

abbrev pub from_le32 : ℕ → ℕ → ℕ → ℕ → ℕ
from_le32 a b c d = a + 256 * b + 65536 * c + 16777216 * d

abbrev pub from_le16 : ℕ → ℕ → ℕ
from_le16 a b = a + 256 * b

-- The two bytes of a `u16` as the program takes them apart.
abbrev pub low_byte : ℕ → ℕ
low_byte n = u8 (bit_and n 0xFF)

abbrev pub high_byte : ℕ → ℕ
high_byte n = u8 (n >>> 8)

pub low_byte_lem : (n : ℕ) → low_byte n ≡ n % 256
low_byte_lem n = omega (arith, bit_and_mask 8 n 0xFF refl)

pub high_byte_lem : (n : ℕ) → n < 2 ^ 16 → high_byte n ≡ n / 256
high_byte_lem n h = omega arith

-- `lo | hi << 8`.
abbrev pub join_bytes : ℕ → ℕ → ℕ
join_bytes lo hi = bit_or lo (hi <<< 8)

-- The two bytes joined again are the number.
pub join_bytes_lem : (n : ℕ) → n < 2 ^ 16 → join_bytes (low_byte n) (high_byte n) ≡ n
join_bytes_lem n h = omega (
  arith,
  low_byte_lem n,
  high_byte_lem n h,
  bit_or_low 8 (high_byte n) (low_byte n) (high_byte n <<< 8) refl (omega (arith, low_byte_lem n)),
)

pub from_le16_bytes : (n : ℕ) → n < 2 ^ 16 → from_le16 (low_byte n) (high_byte n) ≡ n
from_le16_bytes n h = omega (arith, low_byte_lem n, high_byte_lem n h)

pub from_le32_bytes :
    (n : ℕ)
    → n < 2 ^ 32
    → from_le32
        (get_or (le_bytes32 n) 0 0)
        (get_or (le_bytes32 n) 1 0)
        (get_or (le_bytes32 n) 2 0)
        (get_or (le_bytes32 n) 3 0)
      ≡ n
from_le32_bytes n h = omega arith
