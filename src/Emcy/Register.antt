-- ===== src/Emcy/Register.antt =====
-- The emergency frame round trip, and the producer's register and queue over any sequence of
-- calls (canopen-core/src/emcy.rs).
use yacob.Base.{
  ℕ, ◌%◌, ◌^◌, ◌≤◌, ◌<◌, ◌≡◌, ◌⊎◌, inl, inr, refl, arith, true, false, not, ◌&&◌, ◌==◌, bit_and,
  bit_or, List, [], ◌∷◌, length, length-append, length-drop, drop, Bool-cases, ◌≢◌, ◌-◌, ◌||◌,
  Option, some, none,
}
use yacob.Base.Bits.{bit_or_odd, bit_and_mask, bit_and_le, every, every_holds}
use yacob.Base.Bytes.{has_bits, from_le16_bytes}
use yacob.Can.{CanFrame}
use yacob.CobId.{NodeId, emergency, emergency_cob, parse, new_cob_id}
use yacob.CobId.RoundTrip.{build, parse-build}
use yacob.Emcy.{
  vendor_bytes, build_emcy_frame, emergency_node, parse_emcy, EmcyProducer, new_emcy, queue,
  set_error, cleared, clear_error, clear_all, take_pending, announce,
}

parse-emergency_cob : (n : NodeId) → 1 ≤ n → n ≤ 127 → parse (emergency_cob n) ≡ emergency n
unfolding build
parse-emergency_cob n p q = parse-build (emergency n) (emergency_cob n) (p, q) refl

emergency_cob-low : (n : NodeId) → n ≤ 127 → emergency_cob n ≤ 0x7FF
unfolding emergency_cob
emergency_cob-low n h = omega arith

-- An emergency frame that a node builds is parsed as its message: the node, the code, the
-- register and the vendor bytes, filled with zeros or cut to five.
pub parse_emcy-build_emcy_frame :
    (node : NodeId) (error_code error_register : ℕ) (vendor : List ℕ) (f : CanFrame)
    → 1 ≤ node
    → node ≤ 127
    → error_code < 2 ^ 16
    → build_emcy_frame node error_code error_register vendor ≡ some f
    → parse_emcy f
      ≡ some (record {
        node = node;
        error_code = error_code;
        error_register = error_register;
        vendor_data = vendor_bytes vendor;
      })
unfolding build_emcy_frame parse_emcy emergency_node new_cob_id
parse_emcy-build_emcy_frame node error_code error_register vendor f p q r e =
    ground
      (arith, parse-emergency_cob node p q, emergency_cob-low node q, from_le16_bytes error_code r)

-- What the application and the node call.
pub data EmcyCall : Type 0 where
  report : (error_code register_bits : ℕ) (vendor : List ℕ) → EmcyCall
  clear : (register_bits : ℕ) → EmcyCall
  reset : EmcyCall
  take : EmcyCall

-- One call, and a sequence of them; `none` is a panic.
unfoldable pub call : EmcyProducer → EmcyCall → Option EmcyProducer
call p (report code bits vendor) = set_error p code bits vendor
call p (clear bits) = clear_error p bits
call p reset = clear_all p
call p take = some (take_pending p).0

unfoldable pub call_all : EmcyProducer → List EmcyCall → Option EmcyProducer
call_all p [] = some p
call_all p (c ∷ cs) = elim (call p c) [ some p' ↦ call_all p' cs | none ↦ none ]

-- The node is valid, at most four frames wait, and the generic bit is set exactly when an error
-- is.
pub record IsWfEmcy (p : EmcyProducer) : Type 0 where
  pub node_valid : p.node_id ≤ 127
  pub queue_fits : length p.pending ≤ 4
  pub generic : (p.error_register ≡ 0) ⊎ (has_bits p.error_register 1 ≡ true)

-- A call that did not panic, and keeps the producer well formed.
abbrev pub IsSafeCall : Option EmcyProducer → Type 0
IsSafeCall (some p) = IsWfEmcy p
IsSafeCall none = ⊥

queue-fits :
    (p : EmcyProducer) (f : CanFrame) → length p.pending ≤ 4 → length (queue p f).pending ≤ 4
unfolding queue
queue-fits p f h = ground (
  arith,
  length-append p.pending (f ∷ []),
  length-append (drop 1 p.pending) (f ∷ []),
  length-drop 1 p.pending,
)

generic_set : (x y : ℕ) → y % 2 ≡ 1 → has_bits (bit_or x y) 1 ≡ true
generic_set x y h = ground (arith, bit_and_mask 1 (bit_or x y) 1 refl, bit_or_odd x y h)

-- A byte without a category is 0 or the generic bit.
no_category_table : every (λ r. has_bits r 0xFE || (r == 0 || has_bits r 1)) 256 ≡ true
unfolding every
no_category_table = refl

no_category : (r : ℕ) → r < 256 → has_bits r 0xFE ≡ false → (r ≡ 0) ⊎ (has_bits r 1 ≡ true)
no_category r h e =
    let row =
      every_holds (λ r. has_bits r 0xFE || (r == 0 || has_bits r 1)) 256 no_category_table r h in
    ground (arith, row)

cleared-generic :
    (before bits : ℕ) → (cleared before bits ≡ 0) ⊎ (has_bits (cleared before bits) 1 ≡ true)
unfolding cleared
cleared-generic before bits =
    let left = bit_and before (255 - bits) in
    elim (Bool-cases (has_bits left 0xFE)) [
      | inl some_category ↦ ground (arith, generic_set left 1 refl)
      | inr none_left ↦
          let byte : left < 256 = omega (arith, bit_and_le before (255 - bits)) in
          ground (arith, no_category left byte none_left)
    ]

announced :
    (node : NodeId) (code register : ℕ) (vendor : List ℕ)
    → node ≤ 127
    → build_emcy_frame node code register vendor ≢ none
unfolding build_emcy_frame
announced node code register vendor h e = ground (arith, emergency_cob-low node h)

announce-IsSafeCall :
    (p : EmcyProducer) (code register : ℕ) (vendor : List ℕ)
    → IsWfEmcy p
    → IsSafeCall (announce p code register vendor)
unfolding queue
announce-IsSafeCall p code register vendor w =
    go (build_emcy_frame p.node_id code register vendor) refl
  where
    go :
        (o : Option CanFrame)
        → build_emcy_frame p.node_id code register vendor ≡ o
        → IsSafeCall (elim o [ some f ↦ some (queue p f) | none ↦ none ])
    go none e = absurd (announced p.node_id code register vendor w.node_valid e)
    go (some f) e = record {
      node_valid = ground (arith, w.node_valid);
      queue_fits = queue-fits p f w.queue_fits;
      generic = ground (arith, w.generic);
    }

call-IsSafeCall : (p : EmcyProducer) (c : EmcyCall) → IsWfEmcy p → IsSafeCall (call p c)
unfolding call set_error clear_error clear_all take_pending
call-IsSafeCall p (report code bits vendor) w =
    let register = bit_or p.error_register (bit_or bits 1) in
    announce-IsSafeCall (record p { error_register = register }) code register vendor
      (record {
        node_valid = w.node_valid;
        queue_fits = w.queue_fits;
        generic = inr (generic_set p.error_register (bit_or bits 1) (bit_or_odd bits 1 refl));
      })
call-IsSafeCall p (clear bits) w =
    let register = cleared p.error_register bits in
    let w' : IsWfEmcy (record p { error_register = register }) = record {
      node_valid = w.node_valid;
      queue_fits = w.queue_fits;
      generic = cleared-generic p.error_register bits;
    } in
    elim (Bool-cases (not (p.error_register == 0) && register == 0)) [
      | inl healthy ↦
          rw healthy (announce-IsSafeCall (record p { error_register = register }) 0 0 [] w')
      | inr more ↦ rw more w'
    ]
call-IsSafeCall p reset w =
    announce-IsSafeCall (record p { error_register = 0 }) 0 0 []
      (record { node_valid = w.node_valid; queue_fits = w.queue_fits; generic = inl refl })
call-IsSafeCall p take w = go p.pending w.queue_fits
  where
    go :
        (fs : List CanFrame) → length fs ≤ 4 → IsWfEmcy (take_pending (record p { pending = fs })).0
    go [] h = record { node_valid = w.node_valid; queue_fits = h; generic = w.generic }
    go (f ∷ fs) h = record {
      node_valid = w.node_valid;
      queue_fits = omega arith;
      generic = w.generic;
    }

call_all-stays : (p : EmcyProducer) (cs : List EmcyCall) → IsWfEmcy p → IsSafeCall (call_all p cs)
unfolding call_all
call_all-stays p [] w = w
call_all-stays p (c ∷ cs) w = go (call p c) (call-IsSafeCall p c w) (λ p' h. call_all-stays p' cs h)
  where
    go :
        (o : Option EmcyProducer)
        → IsSafeCall o
        → ((p' : EmcyProducer) → IsWfEmcy p' → IsSafeCall (call_all p' cs))
        → IsSafeCall (elim o [ some p' ↦ call_all p' cs | none ↦ none ])
    go (some p') h rest = rest p' h
    go none h rest = absurd h

-- Whatever is reported, cleared, reset and taken, in any order, the producer of a valid node does
-- not panic, never holds more than four frames, and its register has the generic bit set unless
-- it is 0.
pub call_all-IsSafeCall :
    (node : NodeId) (cs : List EmcyCall) → node ≤ 127 → IsSafeCall (call_all (new_emcy node) cs)
unfolding new_emcy
call_all-IsSafeCall node cs h =
    call_all-stays (new_emcy node) cs
      (record { node_valid = h; queue_fits = omega arith; generic = inl refl })
