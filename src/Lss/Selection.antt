-- ===== src/Lss/Selection.antt =====
-- Selective switching against a specification without a step counter (canopen-core/src/lss.rs):
-- the selection requests since the slave began to wait are recorded, and the slave is selected
-- when the last four of them carry its identity in order.
use yacob.Base.{
  ℕ, zero, suc, ◌+◌, ◌≤◌, ◌≡◌, ◌⊎◌, inl, inr, refl, arith, Bool, true, false, not, ◌&&◌,
  if◌then◌else◌, ◌==◌, List, [], ◌∷◌, get_or, Option, none, some, Bool-cases,
}
use yacob.Can.{CanFrame, frame_data}
use yacob.Lss.{
  LssIdentity, LssMode, waiting, configuration, new_slave, is_waiting, is_request, request_value,
  is_selective, LssSlave, process_lss, switch_global, switch_selective, configure_slave,
  configure_node_id,
}

-- The recorded requests, a command and a value each, the last one first.
pub record Specification : Type 0 where
  pub mode : LssMode
  pub history : List (ℕ × ℕ)

-- The request that a part of the identity calls for.
abbrev pub wanted : LssIdentity → ℕ → ℕ
wanted i zero = i.vendor_id
wanted i (suc zero) = i.product_code
wanted i (suc (suc zero)) = i.revision
wanted i (suc (suc (suc k))) = i.serial

-- Are the last `k` requests the first `k` parts of the identity?
unfoldable pub follows : LssIdentity → ℕ → List (ℕ × ℕ) → Bool
follows i zero history = true
follows i (suc k) [] = false
follows i (suc k) (r ∷ history) = r.0 == 0x40 + k && (r.1 == wanted i k && follows i k history)

-- One frame: what becomes of the record, and whether the slave reports its selection.
unfoldable pub specify : LssIdentity → Specification → CanFrame → Specification × Bool
specify i t f =
    let cmd = get_or (frame_data f) 0 0 in
    let arg = get_or (frame_data f) 1 0 in
    let history = (cmd, request_value f) ∷ t.history in
    if not (is_request f)
    then (t, false)
    else if cmd == 0x04
    then (
      (if arg == 0
          then record { mode = waiting; history = [] }
          else if arg == 1
          then record { mode = configuration; history = [] }
          else t),
      false,
    )
    else if is_waiting t.mode && is_selective cmd
    then (if follows i 4 history
        then (record { mode = configuration; history = [] }, true)
        else (record { mode = waiting; history = history }, false))
    else (t, false)

-- Does a response report that the slave was selected?
abbrev pub reports_selection : Option CanFrame → Bool
reports_selection none = false
reports_selection (some f) = f.bytes.b0 == 0x44

-- What a sequence of frames brings about, frame by frame.
unfoldable pub lss_trace : LssSlave → List CanFrame → LssMode × List Bool
lss_trace s [] = (s.mode, [])
lss_trace s (f ∷ fs) =
    let (s', out) = process_lss s f in
    let (mode, answers) = lss_trace s' fs in (mode, reports_selection out ∷ answers)

unfoldable pub specified_trace : LssIdentity → Specification → List CanFrame → LssMode × List Bool
specified_trace i t [] = (t.mode, [])
specified_trace i t (f ∷ fs) =
    let (t', answer) = specify i t f in
    let (mode, answers) = specified_trace i t' fs in (mode, answer ∷ answers)

-- The step counter of a slave that waits counts the parts that the record follows.
abbrev Counts : LssSlave → List (ℕ × ℕ) → Type 0
Counts s history =
    (s.selective_step ≤ 3)
    × (follows s.identity 1 history ≡ (s.selective_step == 1))
    × (follows s.identity 2 history ≡ (s.selective_step == 2))
    × (follows s.identity 3 history ≡ (s.selective_step == 3))

abbrev Follows : LssSlave → Specification → Type 0
Follows s t =
    ((s.mode ≡ configuration) × (t.mode ≡ configuration))
    ⊎ ((s.mode ≡ waiting) × (t.mode ≡ waiting) × Counts s t.history)

-- The outcome of a selective request to a slave that waits.
abbrev Selects : LssSlave → List (ℕ × ℕ) → LssSlave × Option CanFrame → Type 0
Selects s history r =
    ((follows s.identity 4 history ≡ true)
      × (r.0.mode ≡ configuration)
      × (reports_selection r.1 ≡ true))
    ⊎ ((follows s.identity 4 history ≡ false)
        × (r.0.mode ≡ s.mode)
        × (reports_selection r.1 ≡ false)
        × Counts r.0 history)

select :
    (s : LssSlave) (history : List (ℕ × ℕ)) (cmd val : ℕ)
    → is_selective cmd ≡ true
    → Counts s history
    → Selects s ((cmd, val) ∷ history) (switch_selective s cmd val)
unfolding switch_selective follows
select s history cmd val kind c = elim kinds [
  | inl vendor ↦ ground (arith, c)
  | inr (inl product) ↦ ground (arith, c)
  | inr (inr (inl revision)) ↦ ground (arith, c)
  | inr (inr (inr serial)) ↦ ground (arith, c)
]
  where
    kinds : (cmd ≡ 0x40) ⊎ (cmd ≡ 0x41) ⊎ (cmd ≡ 0x42) ⊎ (cmd ≡ 0x43)
    kinds = ground arith

configured_silent :
    (s : LssSlave) (cmd arg : ℕ)
    → ((configure_slave s cmd arg).0.mode ≡ s.mode)
      × (reports_selection (configure_slave s cmd arg).1 ≡ false)
unfolding configure_slave configure_node_id
configured_silent s cmd arg = ground arith

select-identity :
    (s : LssSlave) (cmd val : ℕ) → (switch_selective s cmd val).0.identity ≡ s.identity
unfolding switch_selective
select-identity s cmd val = ground arith

process_lss-identity : (s : LssSlave) (f : CanFrame) → (process_lss s f).0.identity ≡ s.identity
unfolding process_lss switch_global switch_selective configure_slave configure_node_id
process_lss-identity s f = ground arith

nothing_followed : (s : LssSlave) → s.selective_step ≡ 0 → Counts s []
unfolding follows
nothing_followed s e = ground arith

back_to_waiting : LssSlave → LssSlave
back_to_waiting s = record s { mode = waiting; selective_step = 0 }

back_to_waiting-Counts : (s : LssSlave) → Counts (back_to_waiting s) []
unfolding back_to_waiting
back_to_waiting-Counts s = nothing_followed (back_to_waiting s) refl

-- One frame keeps the relation, and the answers agree.
process_lss-refines :
    (s : LssSlave) (t : Specification) (f : CanFrame)
    → Follows s t
    → Follows (process_lss s f).0 (specify s.identity t f).0
      × (reports_selection (process_lss s f).1 ≡ (specify s.identity t f).1)
unfolding process_lss specify switch_global back_to_waiting
process_lss-refines s t f (inl (m, n)) =
    let cmd : ℕ = get_or (frame_data f) 0 0 in
    let arg : ℕ = get_or (frame_data f) 1 0 in
    ground (arith, configured_silent s cmd arg, back_to_waiting-Counts s)
process_lss-refines s t f (inr (m, n, c)) =
    let cmd : ℕ = get_or (frame_data f) 0 0 in
    elim (Bool-cases (is_selective cmd)) [
      | inl kind ↦ elim (select s t.history cmd (request_value f) kind c) [
        | inl selected ↦ ground (arith, selected)
        | inr remains ↦ ground (arith, remains)
      ]
      | inr other ↦ ground (arith, back_to_waiting-Counts s)
    ]

trace-refines :
    (fs : List CanFrame) (s : LssSlave) (t : Specification)
    → Follows s t
    → lss_trace s fs ≡ specified_trace s.identity t fs
unfolding lss_trace specified_trace
trace-refines [] s t (inl (m, n)) = rw (m, n) refl
trace-refines [] s t (inr (m, n, c)) = rw (m, n) refl
trace-refines (f ∷ fs) s t h =
    let step = process_lss-refines s t f h in
    let rest = trace-refines fs (process_lss s f).0 (specify s.identity t f).0 step.0 in
    rw (step.1, rest, process_lss-identity s f) refl

-- A new slave reports its selection at exactly the frames at which the specification does, and
-- ends in the same mode, for every sequence of frames: it is selected when the last four selection
-- requests since it began to wait carry its vendor, product, revision and serial in this order,
-- with nothing but other frames in between. The counter that the slave keeps shows nowhere.
pub lss_trace-refines :
    (identity : LssIdentity) (node_id : ℕ) (fs : List CanFrame)
    → lss_trace (new_slave identity node_id) fs
      ≡ specified_trace identity (record { mode = waiting; history = [] }) fs
unfolding new_slave
lss_trace-refines identity node_id fs =
    trace-refines fs (new_slave identity node_id) (record { mode = waiting; history = [] })
      (inr (refl, refl, nothing_followed (new_slave identity node_id) refl))
