-- ===== src/Slcan/Digits.antt =====
-- The digits of SLCAN lines (canopen-core/src/slcan/logic.rs).
use yacob.Base.{
  ℕ, ◌≤◌, ◌<◌, ◌≡◌, refl, arith, Bool, true, false, ◌&&◌, ltb, ◌==◌, bit_and, bit_or, none, some,
}
use yacob.Base.Bytes.{u8, u16, ◌<<<◌, ◌>>>◌}
use yacob.Base.Bits.{bit_and_le, every, every_holds}
use yacob.Slcan.{hex_digit, parse_hex_digit}

-- Does a digit read back, and is it no delimiter?
abbrev digit_row : ℕ → Bool
digit_row v =
    elim (parse_hex_digit (hex_digit v)) [ none ↦ false | some w ↦ w == v ] && ltb 47 (hex_digit v)

digit_table : every digit_row 16 ≡ true
unfolding every hex_digit parse_hex_digit
digit_table = refl

pub parse_hex_digit-hex_digit :
    (v : ℕ) → v < 16 → (parse_hex_digit (hex_digit v) ≡ some v) × (47 < hex_digit v)
parse_hex_digit-hex_digit v h =
    let row = every_holds digit_row 16 digit_table v h in ground (arith, row)

-- The three digits of an 11-bit COB-ID, joined again.
abbrev pub high : ℕ → ℕ
high id = bit_and (u8 (id >>> 8)) 0x0F

abbrev pub middle : ℕ → ℕ
middle id = bit_and (u8 (id >>> 4)) 0x0F

abbrev pub low : ℕ → ℕ
low id = bit_and (u8 id) 0x0F

abbrev pub join_digits : ℕ → ℕ → ℕ → ℕ
join_digits a b c = bit_or (bit_or (u16 (a <<< 8)) (u16 (b <<< 4))) c

id_table : every (λ id. join_digits (high id) (middle id) (low id) == id) 0x800 ≡ true
unfolding every
id_table = refl

pub join_digits_lem : (id : ℕ) → id ≤ 0x7FF → join_digits (high id) (middle id) (low id) ≡ id
join_digits_lem id h =
    let row =
      every_holds (λ id. join_digits (high id) (middle id) (low id) == id) 0x800 id_table id
        (omega arith) in
    ground (arith, row)

-- Each of them reads back.
pub id_digits :
    (id : ℕ)
    → ((parse_hex_digit (hex_digit (high id)) ≡ some (high id)) × (47 < hex_digit (high id)))
      × ((parse_hex_digit (hex_digit (middle id)) ≡ some (middle id))
          × (47 < hex_digit (middle id)))
      × ((parse_hex_digit (hex_digit (low id)) ≡ some (low id)) × (47 < hex_digit (low id)))
id_digits id = (
  parse_hex_digit-hex_digit (high id) (omega (arith, bit_and_le (u8 (id >>> 8)) 0x0F)),
  parse_hex_digit-hex_digit (middle id) (omega (arith, bit_and_le (u8 (id >>> 4)) 0x0F)),
  parse_hex_digit-hex_digit (low id) (omega (arith, bit_and_le (u8 id) 0x0F)),
)

-- The two digits of a byte, joined again.
abbrev byte_row : ℕ → Bool
byte_row b =
    bit_or (u8 ((b >>> 4) <<< 4)) (bit_and b 0x0F) == b
    && (ltb (b >>> 4) 16 && ltb (bit_and b 0x0F) 16)

byte_table : every byte_row 256 ≡ true
unfolding every
byte_table = refl

pub byte_digits :
    (b : ℕ)
    → b < 256
    → (bit_or (u8 ((b >>> 4) <<< 4)) (bit_and b 0x0F) ≡ b) × (b >>> 4 < 16) × (bit_and b 0x0F < 16)
byte_digits b h = let row = every_holds byte_row 256 byte_table b h in ground (arith, row)
