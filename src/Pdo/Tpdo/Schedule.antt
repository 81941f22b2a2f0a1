-- ===== src/Pdo/Tpdo/Schedule.antt =====
-- Which SYNC pulses make a TPDO transmit (canopen-core/src/pdo/engine.rs, `TpdoEngine::on_sync`).
use yacob.Base.{
  ℕ, suc, ◌+◌, ◌%◌, ◌≤◌, ◌<◌, ◌≡◌, ◌⊎◌, inl, inr, refl, ap, ◌∙◌, arith, Bool, true, ◌&&◌,
  if◌then◌else◌, ltb, leb, ◌==◌, List, [], ◌∷◌, ◌++◌, map, length, Option, none, some, Bool-cases,
  Option-cases, length-append, append-nil,
}
use yacob.Can.{CanFrame}
use yacob.Sdo.Od.{ObjectDictionary}
use yacob.Pdo.Pack.{build_pdo_frame}
use yacob.Pdo.Tpdo.{TpdoSlot, TpdoEngine, on_sync_slot, tpdo_on_sync}
use mathlib.Core.List.{append_assoc}
use native.Mathlib.Nat.{mul-add-mod_self_right, mod-eq_of_lt, mod_self}

-- The configured divisor has not been reached, or plays no role.
abbrev pub IsCounting : TpdoSlot → Type 0
IsCounting s =
    (s.pdo.transmission_type ≡ 0)
    ⊎ (240 < s.pdo.transmission_type)
    ⊎ (s.sync_counter < s.pdo.transmission_type)

abbrev pub AllCounting : TpdoEngine → Type 0
AllCounting [] = Unit
AllCounting (s ∷ ss) = IsCounting s × AllCounting ss

-- Is the `k`-th pulse from a state, counted from 0, one that the slot answers to?
unfoldable pub is_scheduled : TpdoSlot → ℕ → Bool
is_scheduled s k =
    s.pdo.enabled
    && (if s.pdo.transmission_type == 0
        then s.sync_event_pending && k == 0
        else leb s.pdo.transmission_type 240
          && (s.sync_counter + k + 1) % s.pdo.transmission_type == 0)

unfoldable pub scheduled_frame :
    {O : Type 0} → ObjectDictionary O → O → ℕ → TpdoSlot → Option CanFrame
scheduled_frame dict od k s = if is_scheduled s k then build_pdo_frame dict od s.pdo else none

-- The frames of a list of optional ones.
abbrev pub present : List (Option CanFrame) → List CanFrame
present [] = []
present (none ∷ fs) = present fs
present (some f ∷ fs) = f ∷ present fs

-- A pulse for each of the dictionaries, and the frames that every pulse brings about.
unfoldable pub sync_pulses :
    {O : Type 0} → ObjectDictionary O → ℕ → TpdoEngine → List O → List (List CanFrame)
sync_pulses dict capacity e [] = []
sync_pulses dict capacity e (od ∷ ods) =
    let (e', out) = tpdo_on_sync dict od capacity e [] in out ∷ sync_pulses dict capacity e' ods

unfoldable pub schedule :
    {O : Type 0} → ObjectDictionary O → TpdoEngine → ℕ → List O → List (List CanFrame)
schedule dict e k [] = []
schedule dict e k (od ∷ ods) =
    present (map (scheduled_frame dict od k) e) ∷ schedule dict e (k + 1) ods

-- A divisor that has just been reached.
full_turn : (c k n : ℕ) → c + 1 ≡ n → (c + (k + 1) + 1) % n ≡ (0 + k + 1) % n
full_turn c k n e = ap (λ (t : ℕ). t % n) (omega arith) ∙ mul-add-mod_self_right 1 n (0 + k + 1)

is_full : (c n : ℕ) → c < n → ((c + 0 + 1) % n == 0) ≡ leb n (c + 1)
is_full c n h = elim (Bool-cases (leb n (c + 1))) [
  | inl full ↦
      let top : c + 0 + 1 ≡ n = ground arith in
      let rest : (c + 0 + 1) % n ≡ 0 = ap (λ (t : ℕ). t % n) top ∙ mod_self n in
      ground (arith, rest, full)
  | inr room ↦
      let rest : (c + 0 + 1) % n ≡ c + 0 + 1 = mod-eq_of_lt (ground arith) in
      ground (arith, rest, room)
]

module _ {O : Type 0} (dict : ObjectDictionary O) (od : O) where
  answered :
      (s : TpdoSlot) → IsCounting s → (on_sync_slot dict od s).1 ≡ scheduled_frame dict od 0 s
  unfolding on_sync_slot scheduled_frame is_scheduled
  answered s (inl acyclic) = ground arith
  answered s (inr (inl event)) = ground arith
  answered s (inr (inr below)) =
      ground (arith, is_full s.sync_counter s.pdo.transmission_type below)

  keeps_IsCounting : (s : TpdoSlot) → IsCounting s → IsCounting (on_sync_slot dict od s).0
  unfolding on_sync_slot
  keeps_IsCounting s (inl acyclic) = inl (ground arith)
  keeps_IsCounting s (inr (inl event)) = inr (inl (ground arith))
  keeps_IsCounting s (inr (inr below)) = inr (inr (ground arith))

  one_less :
      (s : TpdoSlot) (k : ℕ)
      → IsCounting s
      → is_scheduled (on_sync_slot dict od s).0 k ≡ is_scheduled s (k + 1)
  unfolding on_sync_slot is_scheduled
  one_less s k (inl acyclic) = ground arith
  one_less s k (inr (inl event)) = ground arith
  one_less s k (inr (inr below)) =
      ground (arith, full_turn s.sync_counter k s.pdo.transmission_type)

  same_pdo : (s : TpdoSlot) → (on_sync_slot dict od s).0.pdo ≡ s.pdo
  unfolding on_sync_slot
  same_pdo s = ground arith

  -- The slots after a pulse, and the frames of the pulse.
  abbrev after : TpdoEngine → TpdoEngine
  after [] = []
  after (s ∷ ss) = (on_sync_slot dict od s).0 ∷ after ss

  frame_later :
      (later : O) (s : TpdoSlot) (k : ℕ)
      → IsCounting s
      → scheduled_frame dict later k (on_sync_slot dict od s).0
        ≡ scheduled_frame dict later (k + 1) s
  unfolding scheduled_frame
  frame_later later s k h = rw (one_less s k h, same_pdo s) refl

  frames_later :
      (later : O) (e : TpdoEngine) (k : ℕ)
      → AllCounting e
      → map (scheduled_frame dict later k) (after e) ≡ map (scheduled_frame dict later (k + 1)) e
  frames_later later [] k h = refl
  frames_later later (s ∷ ss) k h = rw (frame_later later s k h.0, frames_later later ss k h.1) refl

  schedule_later :
      (e : TpdoEngine) (k : ℕ) (ods : List O)
      → AllCounting e
      → schedule dict (after e) k ods ≡ schedule dict e (k + 1) ods
  unfolding schedule
  schedule_later e k [] h = refl
  schedule_later e k (later ∷ ods) h =
      rw (frames_later later e k h, schedule_later e (k + 1) ods h) refl

  after-AllCounting : (e : TpdoEngine) → AllCounting e → AllCounting (after e)
  after-AllCounting [] h = _
  after-AllCounting (s ∷ ss) h = (keeps_IsCounting s h.0, after-AllCounting ss h.1)

  length-after : (e : TpdoEngine) → length (after e) ≡ length e
  length-after [] = refl
  length-after (s ∷ ss) = ap suc (length-after ss)

  -- A pulse of the whole engine, where the frames fit.
  pulse :
      (capacity : ℕ) (e : TpdoEngine) (out : List CanFrame)
      → AllCounting e
      → length out + length e ≤ capacity
      → tpdo_on_sync dict od capacity e out
        ≡ (after e, out ++ present (map (scheduled_frame dict od 0) e))
  unfolding tpdo_on_sync
  pulse capacity [] out h fits = rw (append-nil out) refl
  pulse capacity (s ∷ ss) out h fits = elim (Option-cases (scheduled_frame dict od 0 s)) [
    | inl silent ↦
        let quiet : (on_sync_slot dict od s).1 ≡ none = answered s h.0 ∙ silent in
        rw (quiet, silent, pulse capacity ss out h.1 (omega arith)) refl
    | inr (f, sent) ↦
        let loud : (on_sync_slot dict od s).1 ≡ some f = answered s h.0 ∙ sent in
        let room : ltb (length out) capacity ≡ true = ground arith in
        let rest =
          pulse capacity ss (out ++ f ∷ []) h.1 (omega (arith, length-append out (f ∷ []))) in
        rw (loud, sent, room, rest, append_assoc out (f ∷ [])) refl
  ]

-- A sequence of SYNC pulses, with no application event in between, makes the TPDOs transmit on
-- exactly the pulses that their transmission types name: a cyclic one of type `n` on those where
-- its counter and the number of pulses add up to a multiple of `n`, an acyclic one on the first
-- pulse if an event is latched, a disabled or event-driven one on none. Each frame is built from
-- the dictionary of its pulse. The output has room for a frame of each slot, and the counters are
-- below their divisors.
pub sync_pulses-schedule :
    {O : Type 0} (dict : ObjectDictionary O) (capacity : ℕ) (e : TpdoEngine) (ods : List O)
    → AllCounting e
    → length e ≤ capacity
    → sync_pulses dict capacity e ods ≡ schedule dict e 0 ods
unfolding sync_pulses schedule
sync_pulses-schedule dict capacity e [] h fits = refl
sync_pulses-schedule dict capacity e (od ∷ ods) h fits =
    let rest =
      sync_pulses-schedule dict capacity (after dict od e) ods (after-AllCounting dict od e h)
        (omega (arith, length-after dict od e)) in
    rw (pulse dict od capacity e [] h (omega arith), rest, schedule_later dict od e 0 ods h) refl
