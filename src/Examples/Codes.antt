-- ===== src/Examples/Codes.antt =====
-- COB-IDs, codes, frames and the NMT machine.
use mathlib.Core.List.{Memᴰ}
use yacob.Base.{ℕ, ◌≢◌, inr, ◌⊎◌, ◌≡◌, ◌↔◌, refl, arith, [], ◌∷◌, some}
use yacob.CobId.{tpdo_cob, tpdo, parse}
use yacob.CobId.RoundTrip.{build, parse-build, build-parse}
use yacob.Nmt.{
  from_byte, heartbeat_byte, initializing, operational, start_remote_node, reset_node,
  enter_pre_operational, NmtHandler, boot_complete, process_command, reset_application, new_nmt,
}
use yacob.Nmt.Machine.{
  answer, Reports, process_command-Reports, process_command_addressed, booted, command, feed_all,
  feed, feed_all-boot,
}
use yacob.Sdo.Abort.{crc_error, from_u32, to_u32}
use yacob.Sdo.Codes.{from_u32_iff}

-- TPDO 2 of node 5.
parse-build_example : parse 0x285 ≡ tpdo 1 5
unfolding build tpdo_cob
parse-build_example = parse-build (tpdo 1 5) 0x285 (omega arith, omega arith, omega arith) refl

build-parse_example : build (parse 0x585) ≡ some 0x585
build-parse_example = build-parse 0x585

abbrev running_node : NmtHandler
running_node = record { state = operational }

process_command-Reports_example :
    let (h, r) = process_command running_node reset_node 0 5 in
    Reports r reset_node operational h.state
process_command-Reports_example = process_command-Reports running_node reset_node 0 5

-- The command 0x80, enter Pre-Operational, for node 5.
abbrev enter_byte : ℕ
enter_byte = 0x80

process_command_addressed_example :
    ((operational ≡ initializing)
      ⊎ (heartbeat_byte (process_command running_node enter_pre_operational 5 5).0.state
          ≡ answer enter_byte))
    × ((enter_byte ≢ 0x81)
        ⊎ ((process_command running_node enter_pre_operational 5 5).1 ≡ reset_application))
unfolding from_byte
process_command_addressed_example =
    process_command_addressed running_node enter_pre_operational enter_byte 5 5 refl (inr refl)

feed_all-boot_example :
    Memᴰ booted (command reset_node 0 ∷ booted ∷ command start_remote_node 5 ∷ [])
unfolding feed_all feed process_command boot_complete new_nmt
feed_all-boot_example =
    feed_all-boot 5 (command reset_node 0 ∷ booted ∷ command start_remote_node 5 ∷ [])
      (λ e. ground arith)

from_u32_iff_example : (from_u32 0x0504_0004 ≡ some crc_error) ↔ (to_u32 crc_error ≡ 0x0504_0004)
from_u32_iff_example = from_u32_iff 0x0504_0004 crc_error
