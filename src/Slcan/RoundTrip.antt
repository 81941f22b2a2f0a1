-- ===== src/Slcan/RoundTrip.antt =====
-- Parsing the lines that encoding writes (canopen-core/src/slcan/logic.rs).
use yacob.Base.{
  ℕ, ◌+◌, ◌-◌, ◌*◌, ◌≤◌, ◌<◌, ◌≡◌, ◌⊎◌, inl, inr, refl, sym, ap, arith, true, false, not, ◌&&◌,
  ◌||◌, ltb, ◌==◌, bit_and, List, [], ◌∷◌, ◌++◌, length, take, drop, some, length-append,
  length-take, append-nil, take-write_at,
}
use yacob.Base.Bytes.{IsBytes8, AllBytes, to_list, ◌>>>◌}
use yacob.Base.Slices.{AllBytes-take, drop-append}
use yacob.Can.{CanFrame, new_frame, frame_data}
use yacob.Slcan.{
  parse_hex_digit, has_slcan_frame, hex_pairs, slcan_line, encode_slcan_frame, strip_cr, all_hex,
  parse_pairs, parse_payload, parse_line, parse_slcan_frame,
}
use yacob.Slcan.Digits.{parse_hex_digit-hex_digit, join_digits_lem, id_digits, byte_digits}

abbrev pub AllHex : List ℕ → Type 0
AllHex xs = all_hex xs ≡ true

-- A body without the delimiter, which may follow it.
abbrev NoCr : List ℕ → Type 0
NoCr [] = Unit
NoCr (x ∷ xs) = (47 < x) × NoCr xs

NoCr-append : (xs ys : List ℕ) → NoCr xs → NoCr ys → NoCr (xs ++ ys)
NoCr-append [] ys p q = q
NoCr-append (x ∷ xs) ys p q = (p.0, NoCr-append xs ys p.1 q)

strip_cr_none : (xs : List ℕ) → NoCr xs → strip_cr xs ≡ xs
unfolding strip_cr
strip_cr_none [] h = refl
strip_cr_none (x ∷ []) h = ground arith
strip_cr_none (x ∷ y ∷ xs) h = ap (λ (t : List ℕ). x ∷ t) (strip_cr_none (y ∷ xs) h.1)

strip_cr-append : (xs : List ℕ) → strip_cr (xs ++ 13 ∷ []) ≡ xs
unfolding strip_cr
strip_cr-append [] = refl
strip_cr-append (x ∷ []) = refl
strip_cr-append (x ∷ y ∷ xs) = ap (λ (t : List ℕ). x ∷ t) (strip_cr-append (y ∷ xs))

AllHex-NoCr : (xs : List ℕ) → AllHex xs → NoCr xs
unfolding parse_hex_digit
AllHex-NoCr [] h = _
AllHex-NoCr (x ∷ xs) h = (ground arith, AllHex-NoCr xs (ground arith))

hex_pairs-NoCr : (xs : List ℕ) → AllBytes xs → NoCr (hex_pairs xs)
unfolding hex_pairs
hex_pairs-NoCr [] h = _
hex_pairs-NoCr (b ∷ xs) h =
    let digits = byte_digits b h.0 in
    (
      (parse_hex_digit-hex_digit (b >>> 4) digits.1).1,
      ((parse_hex_digit-hex_digit (bit_and b 0x0F) digits.2).1, hex_pairs-NoCr xs h.1),
    )

length-hex_pairs : (xs : List ℕ) → length (hex_pairs xs) ≡ length xs * 2
unfolding hex_pairs
length-hex_pairs [] = refl
length-hex_pairs (b ∷ xs) = omega (arith, length-hex_pairs xs)

parse_pairs-hex_pairs :
    (xs rest : List ℕ) → AllBytes xs → parse_pairs (length xs) (hex_pairs xs ++ rest) ≡ some xs
unfolding hex_pairs parse_pairs
parse_pairs-hex_pairs [] rest h = refl
parse_pairs-hex_pairs (b ∷ xs) rest h =
    let digits = byte_digits b h.0 in
    rw
      (
        (parse_hex_digit-hex_digit (b >>> 4) digits.1).0,
        (parse_hex_digit-hex_digit (bit_and b 0x0F) digits.2).0,
        parse_pairs-hex_pairs xs rest h.1,
        digits.0,
      )
      refl

-- A frame as `CanFrame::new` builds it.
pub record IsFrame (f : CanFrame) : Type 0 where
  pub id_fits : f.id ≤ 0x7FF
  pub dlc_fits : f.dlc ≤ 8
  pub bytes_fit : IsBytes8 f.bytes

length-frame_data : (f : CanFrame) → f.dlc ≤ 8 → length (frame_data f) ≡ f.dlc
length-frame_data f h = omega (arith, length-take f.dlc (to_list f.bytes))

frame_data-AllBytes : (f : CanFrame) → IsBytes8 f.bytes → AllBytes (frame_data f)
frame_data-AllBytes f h =
    AllBytes-take f.dlc (to_list f.bytes)
      (h.lt0, (h.lt1, (h.lt2, (h.lt3, (h.lt4, (h.lt5, (h.lt6, (h.lt7, _))))))))

-- A time stamp, or nothing.
abbrev pub IsStamp : List ℕ → Type 0
IsStamp ts = (length ts ≡ 0) ⊎ ((length ts ≡ 4) × AllHex ts)

stamp-NoCr : (ts : List ℕ) → IsStamp ts → NoCr ts
stamp-NoCr [] h = _
stamp-NoCr (x ∷ xs) (inl e) = absurd (omega arith)
stamp-NoCr (x ∷ xs) (inr (e, h)) = AllHex-NoCr (x ∷ xs) h

parse_payload-hex_pairs :
    (id : ℕ) (xs ts : List ℕ)
    → length xs ≤ 8
    → AllBytes xs
    → IsStamp ts
    → parse_payload id (length xs) (hex_pairs xs ++ ts) ≡ new_frame id xs
unfolding parse_payload
parse_payload-hex_pairs id xs ts short h stamp =
    let rest : drop (length xs * 2) (hex_pairs xs ++ ts) ≡ ts =
      drop-append (length xs * 2) (hex_pairs xs) ts (sym (length-hex_pairs xs)) in
    let long : ltb (length (hex_pairs xs ++ ts)) (length xs * 2) ≡ false =
      ground (arith, length-append (hex_pairs xs) ts, length-hex_pairs xs) in
    let small : ltb 8 (length xs) ≡ false = ground arith in
    let suffix : (not (length ts == 0) && (not (length ts == 4) || not (all_hex ts))) ≡ false =
      stamped ts stamp in
    ground
      (arith, small, long, ap length rest, suffix, ap all_hex rest, parse_pairs-hex_pairs xs ts h)
  where
    stamped :
        (ts : List ℕ)
        → IsStamp ts
        → (not (length ts == 0) && (not (length ts == 4) || not (all_hex ts))) ≡ false
    stamped ts (inl e) = ground arith
    stamped ts (inr (e, h)) = ground (arith, h)

parse_line-slcan_line :
    (f : CanFrame) (ts : List ℕ)
    → IsFrame f
    → IsStamp ts
    → parse_line (slcan_line f ++ ts) ≡ new_frame f.id (frame_data f)
unfolding parse_line slcan_line
parse_line-slcan_line f ts w stamp =
    let (a, b, c) = id_digits f.id in
    let dlc : 48 + f.dlc - 48 ≡ length (frame_data f) =
      omega (arith, length-frame_data f w.dlc_fits) in
    let digit : ltb (48 + f.dlc) 48 ≡ false = ground arith in
    let payload =
      parse_payload-hex_pairs f.id (frame_data f) ts
        (omega (arith, length-frame_data f w.dlc_fits, w.dlc_fits))
        (frame_data-AllBytes f w.bytes_fit) stamp in
    ground (arith, a.0, b.0, c.0, dlc, payload, join_digits_lem f.id w.id_fits)

slcan_line-NoCr : (f : CanFrame) → IsFrame f → NoCr (slcan_line f)
unfolding slcan_line
slcan_line-NoCr f w =
    let (a, b, c) = id_digits f.id in
    (
      omega arith,
      (
        a.1,
        (
          b.1,
          (c.1, (omega arith, hex_pairs-NoCr (frame_data f) (frame_data-AllBytes f w.bytes_fit))),
        ),
      ),
    )

length-slcan_line : (f : CanFrame) → f.dlc ≤ 8 → length (slcan_line f) ≡ 5 + f.dlc * 2
unfolding slcan_line
length-slcan_line f h = omega (arith, length-hex_pairs (frame_data f), length-frame_data f h)

encode-writes :
    (f : CanFrame) (out : List ℕ)
    → f.dlc ≤ 8
    → 6 + f.dlc * 2 ≤ length out
    → let (n, out') = encode_slcan_frame f out in
      (n ≡ some (6 + f.dlc * 2)) × (take (6 + f.dlc * 2) out' ≡ slcan_line f ++ 13 ∷ [])
unfolding encode_slcan_frame
encode-writes f out h room =
    let line : List ℕ = slcan_line f ++ 13 ∷ [] in
    let len : length line ≡ 6 + f.dlc * 2 =
      omega (arith, length-append (slcan_line f) (13 ∷ []), length-slcan_line f h) in
    ground (
      arith,
      length-frame_data f h,
      take-write_at out 0 line (6 + f.dlc * 2) (omega (arith, len)) room,
    )

-- An SLCAN line that a frame is encoded as parses as the frame, with the delimiter or without it,
-- with a time stamp of four hexadecimal digits or without one, and the encoder reports the length
-- of what it wrote. The frame is an 11-bit one of at most 8 bytes, and the buffer has room.
pub parse_slcan_frame-encode :
    (f : CanFrame) (out ts : List ℕ)
    → IsFrame f
    → IsStamp ts
    → 6 + f.dlc * 2 ≤ length out
    → let (n, out') = encode_slcan_frame f out in
      (n ≡ some (6 + f.dlc * 2))
      × (parse_slcan_frame (take (6 + f.dlc * 2) out') ≡ new_frame f.id (frame_data f))
      × (parse_slcan_frame (slcan_line f ++ ts) ≡ new_frame f.id (frame_data f))
      × (parse_slcan_frame ((slcan_line f ++ ts) ++ 13 ∷ []) ≡ new_frame f.id (frame_data f))
unfolding parse_slcan_frame
parse_slcan_frame-encode f out ts w stamp room =
    let written = encode-writes f out w.dlc_fits room in
    let plain = parse_line-slcan_line f [] w (inl refl) in
    let stamped = parse_line-slcan_line f ts w stamp in
    let body = NoCr-append (slcan_line f) ts (slcan_line-NoCr f w) (stamp-NoCr ts stamp) in
    (
      written.0,
      rw (written.1, strip_cr-append (slcan_line f), ← append-nil (slcan_line f)) plain,
      rw (strip_cr_none (slcan_line f ++ ts) body) stamped,
      rw (strip_cr-append (slcan_line f ++ ts)) stamped,
    )

has_slcan_frame-cons :
    (x : ℕ) (buf : List ℕ) → has_slcan_frame buf ≡ true → has_slcan_frame (x ∷ buf) ≡ true
unfolding has_slcan_frame
has_slcan_frame-cons x [] h = absurd (ground arith)
has_slcan_frame-cons x (a ∷ []) h = absurd (ground arith)
has_slcan_frame-cons x (a ∷ b ∷ []) h = absurd (ground arith)
has_slcan_frame-cons x (a ∷ b ∷ c ∷ []) h = absurd (ground arith)
has_slcan_frame-cons x (a ∷ b ∷ c ∷ d ∷ []) h = absurd (ground arith)
has_slcan_frame-cons x (a ∷ b ∷ c ∷ d ∷ e ∷ buf) h = ground (arith, h)

-- The probe for a streaming adapter finds a frame in every stream that contains an encoded one.
pub has_slcan_frame-line :
    (noise rest : List ℕ) (f : CanFrame)
    → IsFrame f
    → has_slcan_frame (noise ++ slcan_line f ++ rest) ≡ true
unfolding has_slcan_frame slcan_line
has_slcan_frame-line [] rest f w =
    let (a, b, c) = id_digits f.id in ground (arith, a.0, b.0, c.0, w.dlc_fits)
has_slcan_frame-line (x ∷ noise) rest f w =
    has_slcan_frame-cons x (noise ++ slcan_line f ++ rest) (has_slcan_frame-line noise rest f w)
