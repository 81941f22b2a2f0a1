-- ===== src/Sdo/Crc.antt =====
-- canopen-core/src/sdo/server.rs: the CRC-16/CCITT of block transfers.
use yacob.Base.{ℕ, zero, suc, ◌≡◌, refl, if◌then◌else◌, bit_xor, List, [], ◌∷◌, ◌++◌}
use yacob.Base.Bytes.{u16, ◌<<<◌, has_bits}

-- One round of the inner loop; `crc << 1` drops the bit that leaves the `u16`.
crc_shift : ℕ → ℕ
crc_shift crc = if has_bits crc 0x8000 then bit_xor (u16 (crc <<< 1)) 0x1021 else u16 (crc <<< 1)

-- The `rounds` that are left of `for _ in 0..8`.
crc_rounds : ℕ → ℕ → ℕ
unfolding crc_shift
crc_rounds zero crc = crc
crc_rounds (suc rounds) crc = crc_rounds rounds (crc_shift crc)

-- `crc16_ccitt_update`.
unfoldable pub crc16_ccitt_update : ℕ → List ℕ → ℕ
unfolding crc_rounds
crc16_ccitt_update crc [] = crc
crc16_ccitt_update crc (byte ∷ rest) =
    crc16_ccitt_update (crc_rounds 8 (bit_xor crc (byte <<< 8))) rest

-- The CRC of a text that arrives in pieces is the CRC of the whole.
pub crc16-append :
    (crc : ℕ) (xs ys : List ℕ)
    → crc16_ccitt_update crc (xs ++ ys) ≡ crc16_ccitt_update (crc16_ccitt_update crc xs) ys
unfolding crc16_ccitt_update
crc16-append crc [] ys = refl
crc16-append crc (x ∷ xs) ys = crc16-append (crc_rounds 8 (bit_xor crc (x <<< 8))) xs ys

-- The check value of CRC-16/XMODEM, over "123456789".
crc16_check :
    crc16_ccitt_update 0 (0x31 ∷ 0x32 ∷ 0x33 ∷ 0x34 ∷ 0x35 ∷ 0x36 ∷ 0x37 ∷ 0x38 ∷ 0x39 ∷ [])
    ≡ 0x31C3
unfolding crc16_ccitt_update
crc16_check = refl
