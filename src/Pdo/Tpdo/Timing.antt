-- ===== src/Pdo/Tpdo/Timing.antt =====
-- When an event-driven TPDO transmits (canopen-core/src/pdo/engine.rs, `TpdoEngine::poll_with`).
use yacob.Base.{
  ℕ, ◌*◌, ◌≤◌, ◌<◌, ◌≡◌, ◌⊎◌, inl, inr, refl, ap, arith, Bool, true, ◌||◌, if◌then◌else◌, ◌==◌,
  List, [], ◌∷◌, ◌++◌, length, some,
}
use yacob.Base.Bytes.{wrapping_sub}
use yacob.Can.{CanFrame}
use yacob.Sdo.Od.{ObjectDictionary}
use yacob.Pdo.Pack.{build_pdo_frame}
use yacob.Pdo.Tpdo.{TpdoSlot, poll_slot, notify_slot, latch_event, is_due, any, maps}

-- One polling cycle: the time, the dictionary, the entries that changed, and whether the transport
-- takes the frame.
pub record Poll (O : Type 0) : Type 0 where
  pub now_us : ℕ
  pub od : O
  pub dirty : List (ℕ × ℕ)
  pub takes : Bool

-- A transport that logs the times of the frames that it takes, the last one first.
abbrev pub log_taken : {O : Type 0} → Poll O → List ℕ → CanFrame → List ℕ × Bool
log_taken p log f = (if p.takes then p.now_us ∷ log else log, p.takes)

unfoldable pub poll_all :
    {O : Type 0} → ObjectDictionary O → List (Poll O) → TpdoSlot → List ℕ → TpdoSlot × List ℕ
poll_all dict [] s log = (s, log)
poll_all dict (p ∷ ps) s log =
    let (s', log') = poll_slot dict p.od p.now_us p.dirty (log_taken p) log s in
    poll_all dict ps s' log'

abbrev pub newest : ℕ → List ℕ → ℕ
newest start [] = start
newest start (t ∷ ts) = t

-- Every transmission comes at least `gap` after the one before it, the first one after `start`.
abbrev pub Spaced : ℕ → ℕ → List ℕ → Type 0
Spaced gap start [] = Unit
Spaced gap start (t ∷ ts) = (gap ≤ wrapping_sub t (newest start ts)) × Spaced gap start ts

module _ {O : Type 0} (dict : ObjectDictionary O) where
  poll_slot-pdo :
      (p : Poll O) (s : TpdoSlot) (log : List ℕ)
      → (poll_slot dict p.od p.now_us p.dirty (log_taken p) log s).0.pdo ≡ s.pdo
  unfolding poll_slot
  poll_slot-pdo p s log = ground arith

  poll_slot-Spaced :
      (p : Poll O) (s : TpdoSlot) (start : ℕ) (log : List ℕ)
      → s.last_send_us ≡ newest start log
      → Spaced (s.pdo.inhibit_time_100us * 100) start log
      → let (s', log') = poll_slot dict p.od p.now_us p.dirty (log_taken p) log s in
        (s'.last_send_us ≡ newest start log') × Spaced (s.pdo.inhibit_time_100us * 100) start log'
  unfolding poll_slot is_due
  poll_slot-Spaced p s start log e h = ground arith

  poll_all-Spaced_from :
      (ps : List (Poll O)) (s : TpdoSlot) (start : ℕ) (log : List ℕ)
      → s.last_send_us ≡ newest start log
      → Spaced (s.pdo.inhibit_time_100us * 100) start log
      → Spaced (s.pdo.inhibit_time_100us * 100) start (poll_all dict ps s log).1
  unfolding poll_all
  poll_all-Spaced_from [] s start log e h = h
  poll_all-Spaced_from (p ∷ ps) s start log e h =
      let step = poll_slot dict p.od p.now_us p.dirty (log_taken p) log s in
      let kept = poll_slot-Spaced p s start log e h in
      let pdo = poll_slot-pdo p s log in
      rw pdo at (poll_all-Spaced_from ps step.0 start step.1 kept.0 (rw pdo kept.1))

  -- A slot whose event waits for the inhibit time.
  record Waits (s : TpdoSlot) : Type 0 where
    enabled : s.pdo.enabled ≡ true
    event_driven : (s.pdo.transmission_type == 254 || s.pdo.transmission_type == 255) ≡ true
    pending : s.async_event_pending ≡ true

  poll_slot-Waits :
      (p : Poll O) (s : TpdoSlot) (log : List ℕ)
      → Waits s
      → let (s', log') = poll_slot dict p.od p.now_us p.dirty (log_taken p) log s in
        (log' ≡ p.now_us ∷ log)
        ⊎ ((log' ≡ log)
            × (s'.pdo ≡ s.pdo)
            × (s'.last_send_us ≡ s.last_send_us)
            × (s'.async_event_pending ≡ true))
  unfolding poll_slot
  poll_slot-Waits p s log w = ground (arith, w.enabled, w.event_driven, w.pending)

  poll_slot-grows :
      (p : Poll O) (s : TpdoSlot) (log : List ℕ)
      → length log ≤ length (poll_slot dict p.od p.now_us p.dirty (log_taken p) log s).1
  unfolding poll_slot
  poll_slot-grows p s log = ground arith

  poll_all-grows :
      (ps : List (Poll O)) (s : TpdoSlot) (log : List ℕ)
      → length log ≤ length (poll_all dict ps s log).1
  unfolding poll_all
  poll_all-grows [] s log = omega arith
  poll_all-grows (p ∷ ps) s log =
      let step = poll_slot dict p.od p.now_us p.dirty (log_taken p) log s in
      omega (arith, poll_slot-grows p s log, poll_all-grows ps step.0 step.1)

  poll_slot-sends :
      (p : Poll O) (s : TpdoSlot) (log : List ℕ) (f : CanFrame)
      → Waits s
      → s.pdo.inhibit_time_100us * 100 ≤ wrapping_sub p.now_us s.last_send_us
      → p.takes ≡ true
      → build_pdo_frame dict p.od s.pdo ≡ some f
      → (poll_slot dict p.od p.now_us p.dirty (log_taken p) log s).1 ≡ p.now_us ∷ log
  unfolding poll_slot is_due
  poll_slot-sends p s log f w late takes built =
      ground (arith, w.enabled, w.event_driven, w.pending)

  poll_all-sends :
      (ps : List (Poll O)) (p : Poll O) (s : TpdoSlot) (log : List ℕ) (f : CanFrame)
      → Waits s
      → s.pdo.inhibit_time_100us * 100 ≤ wrapping_sub p.now_us s.last_send_us
      → p.takes ≡ true
      → build_pdo_frame dict p.od s.pdo ≡ some f
      → length log < length (poll_all dict (ps ++ p ∷ []) s log).1
  unfolding poll_all
  poll_all-sends [] p s log f w late takes built =
      omega (arith, ap length (poll_slot-sends p s log f w late takes built))
  poll_all-sends (q ∷ ps) p s log f w late takes built =
      let step = poll_slot dict q.od q.now_us q.dirty (log_taken q) log s in
      elim (poll_slot-Waits q s log w) [
        | inl sent ↦ omega (arith, ap length sent, poll_all-grows (ps ++ p ∷ []) step.0 step.1)
        | inr (log_same, pdo, last, pending) ↦
            let w' : Waits step.0 = record {
              enabled = rw pdo w.enabled;
              event_driven = rw pdo w.event_driven;
              pending = pending;
            } in
            omega (
              arith,
              ap length log_same,
              poll_all-sends ps p step.0 step.1 f w' (rw (pdo, last) late) takes (rw pdo built),
            )
      ]

  notify_slot-waits :
      (s : TpdoSlot) (index subindex : ℕ)
      → s.pdo.enabled ≡ true
      → (s.pdo.transmission_type == 254 || s.pdo.transmission_type == 255) ≡ true
      → any (maps index subindex) s.pdo.mappings ≡ true
      → notify_slot index subindex s ≡ record s { async_event_pending = true }
  unfolding notify_slot latch_event
  notify_slot-waits s index subindex enabled kind mapped = ground arith

-- However a TPDO is polled, its transmissions are at least the inhibit time apart, and the first
-- one comes that long after the time of the last transmission that the state holds.
pub poll_all-Spaced :
    {O : Type 0} (dict : ObjectDictionary O) (ps : List (Poll O)) (s : TpdoSlot)
    → Spaced (s.pdo.inhibit_time_100us * 100) s.last_send_us (poll_all dict ps s []).1
poll_all-Spaced dict ps s = poll_all-Spaced_from dict ps s s.last_send_us [] refl _

-- A change of a mapped entry of an enabled event-driven TPDO is not lost: however often the slot
-- was polled since, a transmission has followed once there was a poll after the inhibit time at
-- which the frame could be built and the transport took it.
pub poll_all-delivers :
    {O : Type 0} (dict : ObjectDictionary O) (ps : List (Poll O)) (p : Poll O) (s : TpdoSlot)
    (index subindex : ℕ) (f : CanFrame)
    → s.pdo.enabled ≡ true
    → (s.pdo.transmission_type == 254 || s.pdo.transmission_type == 255) ≡ true
    → any (maps index subindex) s.pdo.mappings ≡ true
    → s.pdo.inhibit_time_100us * 100 ≤ wrapping_sub p.now_us s.last_send_us
    → p.takes ≡ true
    → build_pdo_frame dict p.od s.pdo ≡ some f
    → 0 < length (poll_all dict (ps ++ p ∷ []) (notify_slot index subindex s) []).1
poll_all-delivers dict ps p s index subindex f enabled kind mapped late takes built =
    rw (notify_slot-waits dict s index subindex enabled kind mapped) (
      poll_all-sends dict ps p (record s { async_event_pending = true }) [] f
        (record { enabled = enabled; event_driven = kind; pending = refl }) late takes built)
