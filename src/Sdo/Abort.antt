-- ===== src/Sdo/Abort.antt =====
-- canopen-core/src/sdo/protocol.rs: the abort codes.
use yacob.Base.{ℕ, if◌then◌else◌, ◌==◌, Option, some, none}

pub data AbortCode : Type 0 where
  toggle_bit_not_alternated sdo_protocol_timeout invalid_command_specifier : AbortCode
  invalid_block_size invalid_sequence_number crc_error out_of_memory : AbortCode
  unsupported_access write_only_object read_only_object object_not_found : AbortCode
  object_cannot_be_mapped pdo_length_exceeded parameter_incompatibility : AbortCode
  general_internal_incompatibility hardware_error data_type_mismatch length_too_high : AbortCode
  length_too_low subindex_not_found value_range_exceeded value_too_high value_too_low : AbortCode
  max_less_than_min resource_not_available general_error data_transfer_error : AbortCode
  data_transfer_local_control data_transfer_device_state od_generation_failed : AbortCode
  no_data_available : AbortCode

-- The discriminants of `AbortCode`, and `AbortCode::to_u32`.
unfoldable pub to_u32 : AbortCode → ℕ
to_u32 toggle_bit_not_alternated = 0x0503_0000
to_u32 sdo_protocol_timeout = 0x0504_0000
to_u32 invalid_command_specifier = 0x0504_0001
to_u32 invalid_block_size = 0x0504_0002
to_u32 invalid_sequence_number = 0x0504_0003
to_u32 crc_error = 0x0504_0004
to_u32 out_of_memory = 0x0504_0005
to_u32 unsupported_access = 0x0601_0000
to_u32 write_only_object = 0x0601_0001
to_u32 read_only_object = 0x0601_0002
to_u32 object_not_found = 0x0602_0000
to_u32 object_cannot_be_mapped = 0x0604_0041
to_u32 pdo_length_exceeded = 0x0604_0042
to_u32 parameter_incompatibility = 0x0604_0043
to_u32 general_internal_incompatibility = 0x0604_0047
to_u32 hardware_error = 0x0606_0000
to_u32 data_type_mismatch = 0x0607_0010
to_u32 length_too_high = 0x0607_0012
to_u32 length_too_low = 0x0607_0013
to_u32 subindex_not_found = 0x0609_0011
to_u32 value_range_exceeded = 0x0609_0030
to_u32 value_too_high = 0x0609_0031
to_u32 value_too_low = 0x0609_0032
to_u32 max_less_than_min = 0x0609_0036
to_u32 resource_not_available = 0x060A_0023
to_u32 general_error = 0x0800_0000
to_u32 data_transfer_error = 0x0800_0020
to_u32 data_transfer_local_control = 0x0800_0021
to_u32 data_transfer_device_state = 0x0800_0022
to_u32 od_generation_failed = 0x0800_0023
to_u32 no_data_available = 0x0800_0024

-- `AbortCode::from_u32`, the arms in the order of the source, in three functions.
unfoldable pub from_u32_tail : ℕ → Option AbortCode
from_u32_tail n =
    if n == 0x0609_0032
    then some value_too_low
    else if n == 0x0609_0036
    then some max_less_than_min
    else if n == 0x060A_0023
    then some resource_not_available
    else if n == 0x0800_0000
    then some general_error
    else if n == 0x0800_0020
    then some data_transfer_error
    else if n == 0x0800_0021
    then some data_transfer_local_control
    else if n == 0x0800_0022
    then some data_transfer_device_state
    else if n == 0x0800_0023
    then some od_generation_failed
    else if n == 0x0800_0024
    then some no_data_available
    else none

unfoldable pub from_u32_middle : ℕ → Option AbortCode
from_u32_middle n =
    if n == 0x0604_0041
    then some object_cannot_be_mapped
    else if n == 0x0604_0042
    then some pdo_length_exceeded
    else if n == 0x0604_0043
    then some parameter_incompatibility
    else if n == 0x0604_0047
    then some general_internal_incompatibility
    else if n == 0x0606_0000
    then some hardware_error
    else if n == 0x0607_0010
    then some data_type_mismatch
    else if n == 0x0607_0012
    then some length_too_high
    else if n == 0x0607_0013
    then some length_too_low
    else if n == 0x0609_0011
    then some subindex_not_found
    else if n == 0x0609_0030
    then some value_range_exceeded
    else if n == 0x0609_0031
    then some value_too_high
    else from_u32_tail n

unfoldable pub from_u32 : ℕ → Option AbortCode
from_u32 n =
    if n == 0x0503_0000
    then some toggle_bit_not_alternated
    else if n == 0x0504_0000
    then some sdo_protocol_timeout
    else if n == 0x0504_0001
    then some invalid_command_specifier
    else if n == 0x0504_0002
    then some invalid_block_size
    else if n == 0x0504_0003
    then some invalid_sequence_number
    else if n == 0x0504_0004
    then some crc_error
    else if n == 0x0504_0005
    then some out_of_memory
    else if n == 0x0601_0000
    then some unsupported_access
    else if n == 0x0601_0001
    then some write_only_object
    else if n == 0x0601_0002
    then some read_only_object
    else if n == 0x0602_0000
    then some object_not_found
    else from_u32_middle n

-- `SdoAbort(u32)`: the raw code; `known` is `from_u32`, and `From<AbortCode>` is `to_u32`.
abbrev pub SdoAbort : Type 0
SdoAbort = ℕ
