-- ===== src/Nmt.antt =====
-- canopen-core/src/nmt.rs: NMT states, commands and the state machine of a node.
pub mod Machine
pub mod Codec
use yacob.Base.{ℕ, Bool, ◌||◌, if◌then◌else◌, ◌==◌, Option, some, none, [], ◌∷◌, not, ◌&&◌}
use yacob.Can.{CanFrame, new_frame}
use yacob.CobId.{NodeId}

pub data NmtState : Type 0 where
  initializing pre_operational operational stopped : NmtState

-- `NmtState::heartbeat_byte`.
unfoldable pub heartbeat_byte : NmtState → ℕ
heartbeat_byte initializing = 0x00
heartbeat_byte stopped = 0x04
heartbeat_byte operational = 0x05
heartbeat_byte pre_operational = 0x7F

-- `NmtState::from_heartbeat_byte`.
unfoldable pub from_heartbeat_byte : ℕ → Option NmtState
from_heartbeat_byte b =
    if b == 0x00
    then some initializing
    else if b == 0x04
    then some stopped
    else if b == 0x05
    then some operational
    else if b == 0x7F
    then some pre_operational
    else none

pub data NmtCommand : Type 0 where
  start_remote_node stop_remote_node enter_pre_operational reset_node reset_communication :
      NmtCommand

-- `NmtCommand::from_byte`.
unfoldable pub from_byte : ℕ → Option NmtCommand
from_byte b =
    if b == 0x01
    then some start_remote_node
    else if b == 0x02
    then some stop_remote_node
    else if b == 0x80
    then some enter_pre_operational
    else if b == 0x81
    then some reset_node
    else if b == 0x82
    then some reset_communication
    else none

-- `NmtCommand::to_byte`.
unfoldable pub to_byte : NmtCommand → ℕ
to_byte start_remote_node = 0x01
to_byte stop_remote_node = 0x02
to_byte enter_pre_operational = 0x80
to_byte reset_node = 0x81
to_byte reset_communication = 0x82

-- `NmtCommand::to_frame`; `none` is the panic of its `unwrap`.
unfoldable pub to_frame : NmtCommand → ℕ → Option CanFrame
to_frame cmd target = new_frame 0x000 (to_byte cmd ∷ target ∷ [])

pub data NmtTransition : Type 0 where
  no_change state_changed reset_application reset_communication_only : NmtTransition

-- `PartialEq` on the states.
abbrev pub same_state : NmtState → NmtState → Bool
same_state s t = heartbeat_index s == heartbeat_index t
  where
    heartbeat_index : NmtState → ℕ
    heartbeat_index initializing = 0
    heartbeat_index pre_operational = 1
    heartbeat_index operational = 2
    heartbeat_index stopped = 3

-- `NmtHandler`.
pub record NmtHandler : Type 0 where
  pub state : NmtState

-- `NmtHandler::new`.
unfoldable pub new_nmt : NmtHandler
new_nmt = record { state = initializing }

-- `NmtHandler::boot_complete`.
unfoldable pub boot_complete : NmtHandler → NmtHandler
boot_complete h = record h { state = pre_operational }

-- The state a command asks for.
abbrev pub requested_state : NmtCommand → NmtState
requested_state start_remote_node = operational
requested_state stop_remote_node = stopped
requested_state enter_pre_operational = pre_operational
requested_state reset_node = initializing
requested_state reset_communication = initializing

abbrev escalation : NmtCommand → NmtTransition
escalation reset_node = reset_application
escalation _ = no_change

abbrev reported : NmtCommand → NmtTransition
reported reset_node = reset_application
reported reset_communication = reset_communication_only
reported _ = state_changed

-- `NmtHandler::process_command`.
unfoldable pub process_command : NmtHandler → NmtCommand → ℕ → NodeId → NmtHandler × NmtTransition
process_command h cmd target our_node =
    if not (target == 0) && not (target == our_node)
    then (h, no_change)
    else if same_state h.state initializing
    then (h, escalation cmd)
    else if same_state h.state (requested_state cmd)
    then (h, no_change)
    else (record h { state = requested_state cmd }, reported cmd)
