-- ===== src/Nmt/Codec.antt =====
-- The codes of NMT states and commands (canopen-core/src/nmt.rs).
use yacob.Base.{ℕ, ◌≡◌, ◌↔◌, arith, some}
use yacob.Nmt.{
  NmtState, initializing, NmtCommand, start_remote_node, heartbeat_byte, from_heartbeat_byte,
  from_byte, to_byte,
}

-- A byte decodes to a state exactly when it is the heartbeat code of that state.
pub from_heartbeat_byte_iff :
    (b : ℕ) (s : NmtState) → (from_heartbeat_byte b ≡ some s) ↔ (heartbeat_byte s ≡ b)
unfolding from_heartbeat_byte heartbeat_byte
from_heartbeat_byte_iff b initializing = ground arith
from_heartbeat_byte_iff b _ = ground arith

-- A byte decodes to a command exactly when it is the code of that command.
pub from_byte_iff : (b : ℕ) (c : NmtCommand) → (from_byte b ≡ some c) ↔ (to_byte c ≡ b)
unfolding from_byte to_byte
from_byte_iff b start_remote_node = ground arith
from_byte_iff b _ = ground arith
