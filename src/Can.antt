-- ===== src/Can.antt =====
-- canopen-core/src/transport.rs: the classic CAN frame.
use yacob.Base.{
  ◌≡◌, ◌≤◌, refl, arith, [], ◌∷◌, ◌∙◌, ℕ, ◌||◌, if◌then◌else◌, ltb, length, take, List, Option,
  none, some,
}
use yacob.Base.Bytes.{Bytes8, to_list, of_list}

-- `CanFrame`; the field `bytes` is the source's `data`.
pub record CanFrame : Type 0 where
  pub id : ℕ
  pub dlc : ℕ
  pub bytes : Bytes8

-- `CanFrame::new`.
abbrev pub new_frame : ℕ → List ℕ → Option CanFrame
new_frame id xs =
    if ltb 0x7FF id || ltb 8 (length xs)
    then none
    else some (record { id = id; dlc = length xs; bytes = of_list xs })

-- `CanFrame::data`.
abbrev pub frame_data : CanFrame → List ℕ
frame_data f = take f.dlc (to_list f.bytes)

pub bytes_of_list : (xs : List ℕ) → length xs ≤ 8 → take (length xs) (to_list (of_list xs)) ≡ xs
bytes_of_list [] h = refl
bytes_of_list (a ∷ []) h = refl
bytes_of_list (a ∷ b ∷ []) h = refl
bytes_of_list (a ∷ b ∷ c ∷ []) h = refl
bytes_of_list (a ∷ b ∷ c ∷ d ∷ []) h = refl
bytes_of_list (a ∷ b ∷ c ∷ d ∷ e ∷ []) h = refl
bytes_of_list (a ∷ b ∷ c ∷ d ∷ e ∷ f ∷ []) h = refl
bytes_of_list (a ∷ b ∷ c ∷ d ∷ e ∷ f ∷ g ∷ []) h = refl
bytes_of_list (a ∷ b ∷ c ∷ d ∷ e ∷ f ∷ g ∷ i ∷ []) h = refl
bytes_of_list (a ∷ b ∷ c ∷ d ∷ e ∷ f ∷ g ∷ i ∷ j ∷ xs) h = absurd (omega arith)

-- The data of a frame that was built from a list.
pub frame_data-new_frame :
    (id : ℕ) (xs : List ℕ) (f : CanFrame) → new_frame id xs ≡ some f → frame_data f ≡ xs
frame_data-new_frame id xs f e =
    let short : length xs ≤ 8 = ground arith in
    let built : frame_data f ≡ take (length xs) (to_list (of_list xs)) = ground arith in
    built ∙ bytes_of_list xs short
