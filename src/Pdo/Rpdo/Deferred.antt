-- ===== src/Pdo/Rpdo/Deferred.antt =====
-- Synchronous RPDOs keep their data until the SYNC (canopen-core/src/pdo/engine.rs,
-- `RpdoEngine::process` and `on_sync`).
use yacob.Base.{
  ℕ, ◌≡◌, inl, inr, refl, sym, ap, ◌∙◌, arith, true, not, ◌&&◌, if◌then◌else◌, List, [], ◌∷◌,
  Option, none, some, Bool-cases, Option-cases,
}
use yacob.Can.{CanFrame, frame_data}
use yacob.Sdo.Od.{OdEvent, ObjectDictionary}
use yacob.Pdo.{RpdoConfig, raw_is_synchronous}
use yacob.Pdo.Pack.{Sink, apply_mapped, saturating_add32}
use yacob.Pdo.Rpdo.{
  RpdoSlot, RpdoEngine, process_rpdo, receive_rpdo, receives, receive_slot, is_too_short,
  rpdo_on_sync,
}

-- Frames received one after the other, each with its time.
unfoldable pub receive_all :
    {O : Type 0}
    → ObjectDictionary O
    → ℕ
    → List (CanFrame × ℕ)
    → RpdoEngine
    → O
    → List OdEvent
    → RpdoEngine × O × List OdEvent
receive_all dict capacity [] e od events = (e, od, events)
receive_all dict capacity (f ∷ fs) e od events =
    let (e', t, consumed) = process_rpdo dict capacity e f.0 od events f.1 in
    receive_all dict capacity fs e' t.od t.events

abbrev pub AllSynchronous : List RpdoSlot → Type 0
AllSynchronous [] = Unit
AllSynchronous (s ∷ ss) = (raw_is_synchronous s.pdo.transmission_type ≡ true) × AllSynchronous ss

-- The last frame for a slot that is long enough, or else what it had.
unfoldable pub latest : RpdoSlot → Option CanFrame → List CanFrame → Option CanFrame
latest s kept [] = kept
latest s kept (f ∷ fs) =
    latest s (if receives f s && not (is_too_short s.pdo f) then some f else kept) fs

-- The frames that are left for the slots behind one.
unfoldable pub passed_on : RpdoSlot → List CanFrame → List CanFrame
passed_on s [] = []
passed_on s (f ∷ fs) = if receives f s then passed_on s fs else f ∷ passed_on s fs

-- Every slot, in order, applies one frame: the latest of those that are its own.
unfoldable pub commit_one :
    {O : Type 0} → ObjectDictionary O → ℕ → RpdoConfig → Option CanFrame → Sink O → Sink O
commit_one dict capacity pdo none t = t
commit_one dict capacity pdo (some f) t =
    let applied = apply_mapped dict capacity pdo (frame_data f) t.od t.events in
    record applied { dropped = saturating_add32 t.dropped applied.dropped }

unfoldable pub commit_latest :
    {O : Type 0} → ObjectDictionary O → ℕ → List RpdoSlot → List CanFrame → Sink O → Sink O
commit_latest dict capacity [] fs t = t
commit_latest dict capacity (s ∷ ss) fs t =
    commit_latest dict capacity ss (passed_on s fs)
      (commit_one dict capacity s.pdo (latest s s.pending fs) t)

abbrev pub frames : List (CanFrame × ℕ) → List CanFrame
frames [] = []
frames (f ∷ fs) = f.0 ∷ frames fs

-- What a frame does to the slots, where all are synchronous.
abbrev keep : RpdoSlot → CanFrame × ℕ → RpdoSlot
keep s f = if receives f.0 s && not (is_too_short s.pdo f.0) then receive_slot s f.0 f.1 else s

unfoldable store : List RpdoSlot → CanFrame × ℕ → List RpdoSlot
store [] f = []
store (s ∷ ss) f = keep s f ∷ (if receives f.0 s then ss else store ss f)

module _ {O : Type 0} (dict : ObjectDictionary O) (capacity : ℕ) where
  receive_rpdo-store :
      (f : CanFrame × ℕ) (od : O) (events : List OdEvent) (errors : ℕ) (ss : List RpdoSlot)
      → AllSynchronous ss
      → let r = receive_rpdo dict capacity f.0 f.1 od events errors ss in
        (r.slots ≡ store ss f) × (r.sink ≡ record { od = od; events = events; dropped = 0 })
  unfolding receive_rpdo store
  receive_rpdo-store f od events errors [] h = (refl, refl)
  receive_rpdo-store f od events errors (s ∷ ss) h =
      ground (arith, h.0, receive_rpdo-store f od events errors ss h.1)

  keep-pdo : (s : RpdoSlot) (f : CanFrame × ℕ) → (keep s f).pdo ≡ s.pdo
  unfolding receive_slot
  keep-pdo s f = ground arith

  keep-pending :
      (s : RpdoSlot) (f : CanFrame × ℕ)
      → raw_is_synchronous s.pdo.transmission_type ≡ true
      → (keep s f).pending
        ≡ (if receives f.0 s && not (is_too_short s.pdo f.0) then some f.0 else s.pending)
  unfolding receive_slot
  keep-pending s f h = ground (arith, h)

  store-AllSynchronous :
      (ss : List RpdoSlot) (f : CanFrame × ℕ) → AllSynchronous ss → AllSynchronous (store ss f)
  unfolding store
  store-AllSynchronous [] f h = _
  store-AllSynchronous (s ∷ ss) f h =
      ground (arith, h.0, h.1, keep-pdo s f, store-AllSynchronous ss f h.1)

  latest-pdo :
      (s s' : RpdoSlot) (kept : Option CanFrame) (fs : List CanFrame)
      → s'.pdo ≡ s.pdo
      → latest s' kept fs ≡ latest s kept fs
  unfolding latest
  latest-pdo s s' kept [] e = refl
  latest-pdo s s' kept (f ∷ fs) e =
      rw e
        (latest-pdo s s' (if receives f s && not (is_too_short s.pdo f) then some f else kept) fs e)

  own_latest :
      (s : RpdoSlot) (f : CanFrame × ℕ) (fs : List CanFrame)
      → raw_is_synchronous s.pdo.transmission_type ≡ true
      → latest s s.pending (f.0 ∷ fs) ≡ latest (keep s f) (keep s f).pending fs
  unfolding latest
  own_latest s f fs h = sym (
      latest-pdo s (keep s f) (keep s f).pending fs (keep-pdo s f)
      ∙ ap (λ (o : Option CanFrame). latest s o fs) (keep-pending s f h))

  passed_on-pdo :
      (s s' : RpdoSlot) (fs : List CanFrame) → s'.pdo ≡ s.pdo → passed_on s' fs ≡ passed_on s fs
  unfolding passed_on
  passed_on-pdo s s' [] e = refl
  passed_on-pdo s s' (f ∷ fs) e = rw (e, passed_on-pdo s s' fs e) refl

  commit_latest-store :
      (ss : List RpdoSlot) (f : CanFrame × ℕ) (fs : List CanFrame) (t : Sink O)
      → AllSynchronous ss
      → commit_latest dict capacity ss (f.0 ∷ fs) t ≡ commit_latest dict capacity (store ss f) fs t
  unfolding commit_latest store passed_on
  commit_latest-store [] f fs t h = refl
  commit_latest-store (s ∷ ss) f fs t h =
      let own : latest s s.pending (f.0 ∷ fs) ≡ latest (keep s f) (keep s f).pending fs =
        own_latest s f fs h.0 in
      let behind : passed_on (keep s f) fs ≡ passed_on s fs =
        passed_on-pdo s (keep s f) fs (keep-pdo s f) in
      elim (Bool-cases (receives f.0 s)) [
        | inl mine ↦ ground (arith, mine, own, behind, keep-pdo s f)
        | inr other ↦ ground (
          arith,
          other,
          own,
          behind,
          keep-pdo s f,
          commit_latest-store ss f (passed_on s fs)
              (commit_one dict capacity s.pdo (latest (keep s f) (keep s f).pending fs) t) h.1,
        )
      ]

  passed_on-nil : (s : RpdoSlot) → passed_on s [] ≡ []
  unfolding passed_on
  passed_on-nil s = refl

  rpdo_on_sync-commit_latest :
      (ss : List RpdoSlot) (t : Sink O)
      → (rpdo_on_sync dict capacity ss t).1 ≡ commit_latest dict capacity ss [] t
  unfolding rpdo_on_sync commit_latest commit_one latest passed_on
  rpdo_on_sync-commit_latest [] t = refl
  rpdo_on_sync-commit_latest (s ∷ ss) t = elim (Option-cases s.pending) [
    | inl empty ↦ rw empty (rpdo_on_sync-commit_latest ss t)
    | inr (f, full) ↦
        rw full (rpdo_on_sync-commit_latest ss (commit_one dict capacity s.pdo (some f) t))
  ]

-- Frames for synchronous RPDOs change nothing in the dictionary or the event queue when they are
-- received. The next SYNC writes, slot by slot, the latest frame for each that is long enough, and
-- so commits what the whole sequence of frames leaves.
pub receive_all-Deferred :
    {O : Type 0} (dict : ObjectDictionary O) (capacity : ℕ) (fs : List (CanFrame × ℕ))
    (e : RpdoEngine) (od : O) (events : List OdEvent) (t : Sink O)
    → AllSynchronous e.slots
    → let (e', od', events') = receive_all dict capacity fs e od events in
      (od' ≡ od)
      × (events' ≡ events)
      × ((rpdo_on_sync dict capacity e'.slots t).1
          ≡ commit_latest dict capacity e.slots (frames fs) t)
unfolding receive_all process_rpdo
receive_all-Deferred dict capacity [] e od events t h =
    (refl, refl, rpdo_on_sync-commit_latest dict capacity e.slots t)
receive_all-Deferred dict capacity (f ∷ fs) e od events t h =
    let stored = receive_rpdo-store dict capacity f od events e.length_errors e.slots h in
    let r = receive_rpdo dict capacity f.0 f.1 od events e.length_errors e.slots in
    let rest =
      receive_all-Deferred dict capacity fs
        (record { slots = r.slots; length_errors = r.length_errors }) r.sink.od r.sink.events t
        (rw stored.0 (store-AllSynchronous dict capacity e.slots f h)) in
    (
      rest.0 ∙ ap (λ (s : Sink _). s.od) stored.1,
      rest.1 ∙ ap (λ (s : Sink _). s.events) stored.1,
      rest.2
          ∙ ap (λ (ss : List RpdoSlot). commit_latest dict capacity ss (frames fs) t) stored.0
          ∙ sym (commit_latest-store dict capacity e.slots f (frames fs) t h),
    )
