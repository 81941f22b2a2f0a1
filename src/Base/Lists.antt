-- ===== src/Base/Lists.antt =====
-- Byte sequences as lists measured and indexed by native numbers, under the library's names.
use Prim.Native.Nat.{ℕ, zero, suc, ◌+◌, ◌-◌, ◌≤◌, min}
use mathlib.Core.Path.{◌≡◌, refl, ap}
use mathlib.Core.List.{List, [], ◌∷◌, ◌++◌}
use mathlib.Core.Bool.{Bool, false, ◌||◌}
use native.Mathlib.Omega.{arith}
use yacob.Base.Tests.{◌==◌}

module _ {ℓ} {A : Type ℓ} where
  abbrev pub length : List A → ℕ
  length [] = 0
  length (x ∷ xs) = suc (length xs)

  abbrev pub get_or : List A → ℕ → A → A
  get_or [] i d = d
  get_or (x ∷ xs) zero d = x
  get_or (x ∷ xs) (suc i) d = get_or xs i d

  abbrev pub take : ℕ → List A → List A
  take zero xs = []
  take (suc n) [] = []
  take (suc n) (x ∷ xs) = x ∷ take n xs

  abbrev pub drop : ℕ → List A → List A
  drop zero xs = xs
  drop (suc n) [] = []
  drop (suc n) (x ∷ xs) = drop n xs

  abbrev pub replicate : ℕ → A → List A
  replicate zero a = []
  replicate (suc n) a = a ∷ replicate n a

  -- `buf[at..at + xs.len()].copy_from_slice(xs)`; what would pass the end is dropped.
  unfoldable pub write_at : List A → ℕ → List A → List A
  write_at buf i [] = buf
  write_at [] i (x ∷ xs) = []
  write_at (b ∷ buf) zero (x ∷ xs) = x ∷ write_at buf zero xs
  write_at (b ∷ buf) (suc i) (x ∷ xs) = b ∷ write_at buf i (x ∷ xs)

  pub length-append : (xs ys : List A) → length (xs ++ ys) ≡ length xs + length ys
  length-append [] ys = omega arith
  length-append (x ∷ xs) ys = omega (arith, length-append xs ys)

  pub length-take : (n : ℕ) (xs : List A) → length (take n xs) ≡ min n (length xs)
  length-take zero xs = omega arith
  length-take (suc n) [] = omega arith
  length-take (suc n) (x ∷ xs) = omega (arith, length-take n xs)

  pub length-drop : (n : ℕ) (xs : List A) → length (drop n xs) ≡ length xs - n
  length-drop zero xs = omega arith
  length-drop (suc n) [] = omega arith
  length-drop (suc n) (x ∷ xs) = omega (arith, length-drop n xs)

  pub length-replicate : (n : ℕ) (a : A) → length (replicate n a) ≡ n
  length-replicate zero a = refl
  length-replicate (suc n) a = ap suc (length-replicate n a)

  pub length-write_at :
      (buf : List A) (i : ℕ) (xs : List A) → length (write_at buf i xs) ≡ length buf
  unfolding write_at
  length-write_at buf i [] = refl
  length-write_at [] i (x ∷ xs) = refl
  length-write_at (b ∷ buf) zero (x ∷ xs) = ap suc (length-write_at buf zero xs)
  length-write_at (b ∷ buf) (suc i) (x ∷ xs) = ap suc (length-write_at buf i (x ∷ xs))

  pub append-nil : (xs : List A) → xs ++ [] ≡ xs
  append-nil [] = refl
  append-nil (x ∷ xs) = ap (λ (t : List A). x ∷ t) (append-nil xs)

  -- Writing at the end of the filled prefix extends the prefix.
  pub take-write_at :
      (buf : List A) (i : ℕ) (xs : List A) (n : ℕ)
      → n ≡ i + length xs
      → n ≤ length buf
      → take n (write_at buf i xs) ≡ take i buf ++ xs
  unfolding write_at
  take-write_at buf zero [] zero e h = refl
  take-write_at buf zero [] (suc n) e h = absurd (omega arith)
  take-write_at [] (suc i) [] n e h = absurd (omega arith)
  take-write_at (b ∷ buf) (suc i) [] zero e h = absurd (omega arith)
  take-write_at (b ∷ buf) (suc i) [] (suc n) e h =
      ap (λ (t : List A). b ∷ t) (take-write_at buf i [] n (omega arith) (omega arith))
  take-write_at [] i (x ∷ xs) n e h = absurd (omega arith)
  take-write_at (b ∷ buf) i (x ∷ xs) zero e h = absurd (omega arith)
  take-write_at (b ∷ buf) zero (x ∷ xs) (suc n) e h =
      ap (λ (t : List A). x ∷ t) (take-write_at buf zero xs n (omega arith) (omega arith))
  take-write_at (b ∷ buf) (suc i) (x ∷ xs) (suc n) e h =
      ap (λ (t : List A). b ∷ t) (take-write_at buf i (x ∷ xs) n (omega arith) (omega arith))

  pub take_add : (m n k : ℕ) (xs : List A) → k ≡ m + n → take k xs ≡ take m xs ++ take n (drop m xs)
  take_add zero n k xs e = ap (λ (t : ℕ). take t xs) (omega arith)
  take_add (suc m) n zero xs e = absurd (omega arith)
  take_add (suc m) zero (suc k) [] e = refl
  take_add (suc m) (suc n) (suc k) [] e = refl
  take_add (suc m) n (suc k) (x ∷ xs) e =
      ap (λ (t : List A). x ∷ t) (take_add m n k xs (omega arith))

  pub take_all : (n : ℕ) (xs : List A) → length xs ≤ n → take n xs ≡ xs
  take_all zero [] h = refl
  take_all zero (x ∷ xs) h = absurd (omega arith)
  take_all (suc n) [] h = refl
  take_all (suc n) (x ∷ xs) h = ap (λ (t : List A). x ∷ t) (take_all n xs (omega arith))

-- `slice::contains` on numbers.
unfoldable pub contains : List ℕ → ℕ → Bool
contains [] a = false
contains (x ∷ xs) a = x == a || contains xs a
