-- ===== src/Sdo/Codes.antt =====
-- The abort codes and their numbers (canopen-core/src/sdo/protocol.rs).
use yacob.Base.{ℕ, ◌≡◌, ◌↔◌, ◌==◌, if◌then◌else◌, Option, refl, arith, ap, some, sym, ◌∙◌}
use yacob.Sdo.Abort.{
  AbortCode, to_u32, from_u32, from_u32_middle, from_u32_tail, toggle_bit_not_alternated,
  sdo_protocol_timeout, invalid_command_specifier, invalid_block_size, invalid_sequence_number,
  crc_error, out_of_memory, unsupported_access, write_only_object, read_only_object,
  object_not_found, object_cannot_be_mapped, pdo_length_exceeded, parameter_incompatibility,
  general_internal_incompatibility, hardware_error, data_type_mismatch, length_too_high,
  length_too_low, subindex_not_found, value_range_exceeded, value_too_high, value_too_low,
  max_less_than_min, resource_not_available, general_error, data_transfer_error,
  data_transfer_local_control, data_transfer_device_state, od_generation_failed, no_data_available,
}

-- One arm of the decoder.
code-arm :
    (n k : ℕ) (c d : AbortCode) (rest : Option AbortCode)
    → to_u32 d ≡ k
    → (rest ≡ some c → to_u32 c ≡ n)
    → (if n == k then some d else rest) ≡ some c
    → to_u32 c ≡ n
code-arm n k c d rest e f h = ground arith

to_u32-tail : (n : ℕ) (c : AbortCode) → from_u32_tail n ≡ some c → to_u32 c ≡ n
unfolding from_u32_tail to_u32
to_u32-tail n c = code-arm n 0x0609_0032 c value_too_low _ refl (
    code-arm n 0x0609_0036 c max_less_than_min _ refl (
      code-arm n 0x060A_0023 c resource_not_available _ refl (
        code-arm n 0x0800_0000 c general_error _ refl (
          code-arm n 0x0800_0020 c data_transfer_error _ refl (
            code-arm n 0x0800_0021 c data_transfer_local_control _ refl (
              code-arm n 0x0800_0022 c data_transfer_device_state _ refl (
                code-arm n 0x0800_0023 c od_generation_failed _ refl
                  (code-arm n 0x0800_0024 c no_data_available _ refl (λ h. cc)))))))))

to_u32-middle : (n : ℕ) (c : AbortCode) → from_u32_middle n ≡ some c → to_u32 c ≡ n
unfolding from_u32_middle to_u32
to_u32-middle n c = code-arm n 0x0604_0041 c object_cannot_be_mapped _ refl (
    code-arm n 0x0604_0042 c pdo_length_exceeded _ refl (
      code-arm n 0x0604_0043 c parameter_incompatibility _ refl (
        code-arm n 0x0604_0047 c general_internal_incompatibility _ refl (
          code-arm n 0x0606_0000 c hardware_error _ refl (
            code-arm n 0x0607_0010 c data_type_mismatch _ refl (
              code-arm n 0x0607_0012 c length_too_high _ refl (
                code-arm n 0x0607_0013 c length_too_low _ refl (
                  code-arm n 0x0609_0011 c subindex_not_found _ refl (
                    code-arm n 0x0609_0030 c value_range_exceeded _ refl
                      (code-arm n 0x0609_0031 c value_too_high _ refl (to_u32-tail n c)))))))))))

to_u32-from_u32 : (n : ℕ) (c : AbortCode) → from_u32 n ≡ some c → to_u32 c ≡ n
unfolding from_u32 to_u32
to_u32-from_u32 n c = code-arm n 0x0503_0000 c toggle_bit_not_alternated _ refl (
    code-arm n 0x0504_0000 c sdo_protocol_timeout _ refl (
      code-arm n 0x0504_0001 c invalid_command_specifier _ refl (
        code-arm n 0x0504_0002 c invalid_block_size _ refl (
          code-arm n 0x0504_0003 c invalid_sequence_number _ refl (
            code-arm n 0x0504_0004 c crc_error _ refl (
              code-arm n 0x0504_0005 c out_of_memory _ refl (
                code-arm n 0x0601_0000 c unsupported_access _ refl (
                  code-arm n 0x0601_0001 c write_only_object _ refl (
                    code-arm n 0x0601_0002 c read_only_object _ refl (
                      code-arm n 0x0602_0000 c object_not_found _ refl (to_u32-middle n c)))))))))))

from_u32-to_u32 : (c : AbortCode) → from_u32 (to_u32 c) ≡ some c
unfolding from_u32 from_u32_middle from_u32_tail to_u32
from_u32-to_u32 toggle_bit_not_alternated = refl
from_u32-to_u32 _ = refl

-- A number decodes to an abort code exactly when it is the number of that code.
pub from_u32_iff : (n : ℕ) (c : AbortCode) → (from_u32 n ≡ some c) ↔ (to_u32 c ≡ n)
from_u32_iff n c = (to_u32-from_u32 n c, λ e. ap from_u32 (sym e) ∙ from_u32-to_u32 c)
