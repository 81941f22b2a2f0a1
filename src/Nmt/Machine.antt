-- ===== src/Nmt/Machine.antt =====
-- What a node's NMT state machine promises (canopen-core/src/nmt.rs).
use yacob.Base.{
  some, if◌then◌else◌, ◌==◌, ℕ, ◌≡◌, ◌≢◌, ◌⊎◌, inl, inr, refl, sym, arith, List, [], ◌∷◌,
}
use mathlib.Core.List.{Memᴰ}
use yacob.CobId.{NodeId}
use yacob.Nmt.{
  from_byte, heartbeat_byte, NmtState, initializing, NmtCommand, reset_node, reset_communication,
  NmtHandler, NmtTransition, no_change, state_changed, reset_application, reset_communication_only,
  new_nmt, boot_complete, process_command, requested_state,
}

-- What the report of `process_command` says about the states before and after.
abbrev pub Reports : NmtTransition → NmtCommand → NmtState → NmtState → Type 0
Reports no_change cmd s t = t ≡ s
Reports state_changed cmd s t =
    (s ≢ initializing) × (t ≢ initializing) × (t ≢ s) × (t ≡ requested_state cmd)
Reports reset_application cmd s t = (cmd ≡ reset_node) × (t ≡ initializing)
Reports reset_communication_only cmd s t =
    (cmd ≡ reset_communication) × (s ≢ initializing) × (t ≡ initializing)

-- The report of every command agrees with the states before and after it: `None` means that
-- nothing changed, `StateChanged` that the requested state, another one, was entered and that
-- neither is Initializing, and a reset report that the reset command left the node Initializing.
pub process_command-Reports :
    (h : NmtHandler) (cmd : NmtCommand) (target : ℕ) (node : NodeId)
    → let (h', r) = process_command h cmd target node in Reports r cmd h.state h'.state
unfolding process_command
process_command-Reports h cmd target node = ground arith

-- The state that a node reports in its heartbeat after the command with a byte (CiA 301).
unfoldable pub answer : ℕ → ℕ
answer b = if b == 0x01 then 0x05 else if b == 0x02 then 0x04 else if b == 0x80 then 0x7F else 0x00

-- A node that has left Initializing and receives the data of an NMT command frame, addressed to it
-- or to all, reports afterwards 0x05 for the command 0x01, 0x04 for 0x02, 0x7F for 0x80, and the
-- boot state 0 for the resets. The byte 0x81 is reported as a reset of the application, in
-- Initializing too.
pub process_command_addressed :
    (h : NmtHandler) (cmd : NmtCommand) (b target : ℕ) (node : NodeId)
    → from_byte b ≡ some cmd
    → (target ≡ 0) ⊎ (target ≡ node)
    → ((h.state ≡ initializing)
        ⊎ (heartbeat_byte (process_command h cmd target node).0.state ≡ answer b))
      × ((b ≢ 0x81) ⊎ ((process_command h cmd target node).1 ≡ reset_application))
unfolding process_command from_byte heartbeat_byte answer
process_command_addressed h cmd b target node known a = (ground arith, ground arith)

-- A command for another node changes nothing.
process_command_elsewhere :
    (h : NmtHandler) (cmd : NmtCommand) (target : ℕ) (node : NodeId)
    → target ≢ 0
    → target ≢ node
    → process_command h cmd target node ≡ (h, no_change)
unfolding process_command
process_command_elsewhere h cmd target node a b = ground arith

pub data NmtInput : Type 0 where
  booted : NmtInput
  command : NmtCommand → ℕ → NmtInput

-- One input of the machine, and a sequence of them.
unfoldable pub feed : NodeId → NmtHandler → NmtInput → NmtHandler
feed node h booted = boot_complete h
feed node h (command cmd target) = (process_command h cmd target node).0

unfoldable pub feed_all : NodeId → NmtHandler → List NmtInput → NmtHandler
feed_all node h [] = h
feed_all node h (i ∷ is) = feed_all node (feed node h i) is

feed-initializing :
    (node : NodeId) (h : NmtHandler) (i : NmtInput)
    → h.state ≡ initializing
    → (i ≡ booted) ⊎ ((feed node h i).state ≡ initializing)
unfolding feed process_command
feed-initializing node h booted e = inl refl
feed-initializing node h (command cmd target) e = inr (ground arith)

feed_all-needs_boot :
    (node : NodeId) (h : NmtHandler) (is : List NmtInput)
    → h.state ≡ initializing
    → (feed_all node h is).state ≢ initializing
    → Memᴰ booted is
unfolding feed_all
feed_all-needs_boot node h [] e ne = absurd (ne e)
feed_all-needs_boot node h (i ∷ is) e ne = elim (feed-initializing node h i e) [
  | inl p ↦ Memᴰ.head (sym p)
  | inr q ↦ Memᴰ.tail (feed_all-needs_boot node (feed node h i) is q ne)
]

-- No sequence of commands alone takes a new node out of Initializing: whatever the inputs, a
-- node in another state has seen `boot_complete`.
pub feed_all-boot :
    (node : NodeId) (is : List NmtInput)
    → (feed_all node new_nmt is).state ≢ initializing
    → Memᴰ booted is
unfolding new_nmt
feed_all-boot node is ne = feed_all-needs_boot node new_nmt is refl ne
