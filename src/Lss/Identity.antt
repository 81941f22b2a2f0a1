-- ===== src/Lss/Identity.antt =====
-- The node ID that an LSS master assigns (canopen-core/src/lss.rs).
use yacob.Base.{ℕ, ◌≤◌, ◌≡◌, ◌⊎◌, refl, ◌∙◌, arith, List, [], ◌∷◌, Option, none, some}
use yacob.Can.{CanFrame}
use yacob.Lss.{
  LssSlave, LssEvent, node_id_configured, store_configuration, process_lss, take_event,
  switch_global, switch_selective, configure_slave, configure_node_id,
}

-- What the application and the master do to a slave.
pub data LssInput : Type 0 where
  request : CanFrame → LssInput
  event_taken : LssInput

unfoldable pub lss_step : LssSlave → LssInput → LssSlave
lss_step s (request f) = (process_lss s f).0
lss_step s event_taken = (take_event s).0

unfoldable pub lss_all : LssSlave → List LssInput → LssSlave
lss_all s [] = s
lss_all s (i ∷ is) = lss_all (lss_step s i) is

-- 1 to 127, or unconfigured.
abbrev pub IsLssNodeId : ℕ → Type 0
IsLssNodeId n = ((1 ≤ n) × (n ≤ 127)) ⊎ (n ≡ 0xFF)

-- A pending event names the node ID that the slave has.
abbrev pub Announces : ℕ → Option LssEvent → Type 0
Announces n none = Unit
Announces n (some store_configuration) = Unit
Announces n (some (node_id_configured m)) = m ≡ n

lss_step-keeps :
    (s : LssSlave) (i : LssInput)
    → IsLssNodeId s.node_id
    → Announces s.node_id s.pending_event
    → IsLssNodeId (lss_step s i).node_id
      × Announces (lss_step s i).node_id (lss_step s i).pending_event
unfolding lss_step process_lss switch_global switch_selective configure_slave configure_node_id
    take_event
lss_step-keeps s (request f) p q = ground arith
lss_step-keeps s event_taken p q = (p, _)

lss_step-identity : (s : LssSlave) (i : LssInput) → (lss_step s i).identity ≡ s.identity
unfolding lss_step process_lss switch_global switch_selective configure_slave configure_node_id
    take_event
lss_step-identity s (request f) = ground arith
lss_step-identity s event_taken = refl

-- Whatever an LSS master sends to a slave that starts with a valid node ID, or with none, and
-- whenever the application takes its event: the node ID stays valid, a pending event that
-- announces a node ID announces the one that the slave has, and the identity does not change.
pub lss_all-keeps :
    (inputs : List LssInput) (s : LssSlave)
    → IsLssNodeId s.node_id
    → Announces s.node_id s.pending_event
    → IsLssNodeId (lss_all s inputs).node_id
      × Announces (lss_all s inputs).node_id (lss_all s inputs).pending_event
      × ((lss_all s inputs).identity ≡ s.identity)
unfolding lss_all
lss_all-keeps [] s p q = (p, q, refl)
lss_all-keeps (i ∷ is) s p q =
    let kept = lss_step-keeps s i p q in
    let rest = lss_all-keeps is (lss_step s i) kept.0 kept.1 in
    (rest.0, rest.1, rest.2 ∙ lss_step-identity s i)
