-- ===== src/Base/Slices.antt =====
-- What indexing sees of a sequence that is written to, cut or dropped from.
use Prim.Native.Nat.{ℕ, zero, suc, ◌+◌, ◌-◌, ◌≤◌, ◌<◌}
use mathlib.Core.Path.{◌≡◌, refl, ap}
use mathlib.Core.List.{List, [], ◌∷◌, ◌++◌}
use mathlib.Core.Bool.{◌&&◌}
use native.Mathlib.Omega.{arith}
use yacob.Base.Tests.{ltb, leb, if◌then◌else◌}
use yacob.Base.Lists.{length, get_or, take, drop, write_at}
use yacob.Base.Bytes.{AllBytes}

pub get_or-write_at :
    (xs : List ℕ) (i : ℕ) (ys : List ℕ) (k : ℕ)
    → i + length ys ≤ length xs
    → get_or (write_at xs i ys) k 0
      ≡ (if leb i k && ltb k (i + length ys) then get_or ys (k - i) 0 else get_or xs k 0)
unfolding write_at
get_or-write_at xs i [] k h = ground arith
get_or-write_at [] i (y ∷ ys) k h = absurd (omega arith)
get_or-write_at (x ∷ xs) zero (y ∷ ys) zero h = ground arith
get_or-write_at (x ∷ xs) zero (y ∷ ys) (suc k) h =
    ground (arith, get_or-write_at xs zero ys k (omega arith))
get_or-write_at (x ∷ xs) (suc i) (y ∷ ys) zero h = ground arith
get_or-write_at (x ∷ xs) (suc i) (y ∷ ys) (suc k) h =
    ground (arith, get_or-write_at xs i (y ∷ ys) k (omega arith))

pub get_or-take :
    (n : ℕ) (xs : List ℕ) (k : ℕ) → get_or (take n xs) k 0 ≡ (if ltb k n then get_or xs k 0 else 0)
get_or-take zero xs k = ground arith
get_or-take (suc n) [] k = ground arith
get_or-take (suc n) (x ∷ xs) zero = ground arith
get_or-take (suc n) (x ∷ xs) (suc k) = ground (arith, get_or-take n xs k)

pub get_or-drop : (n : ℕ) (xs : List ℕ) (k : ℕ) → get_or (drop n xs) k 0 ≡ get_or xs (n + k) 0
get_or-drop zero xs k = ap (λ (t : ℕ). get_or xs t 0) (omega arith)
get_or-drop (suc n) [] k = refl
get_or-drop (suc n) (x ∷ xs) k = ground (arith, get_or-drop n xs k)

pub get_or-AllBytes : (xs : List ℕ) (k : ℕ) → AllBytes xs → get_or xs k 0 < 256
get_or-AllBytes [] k h = omega arith
get_or-AllBytes (x ∷ xs) zero h = h.0
get_or-AllBytes (x ∷ xs) (suc k) h = get_or-AllBytes xs k h.1

pub AllBytes-write_at :
    (xs : List ℕ) (i : ℕ) (ys : List ℕ) → AllBytes xs → AllBytes ys → AllBytes (write_at xs i ys)
unfolding write_at
AllBytes-write_at xs i [] p q = p
AllBytes-write_at [] i (y ∷ ys) p q = p
AllBytes-write_at (x ∷ xs) zero (y ∷ ys) p q = (q.0, AllBytes-write_at xs zero ys p.1 q.1)
AllBytes-write_at (x ∷ xs) (suc i) (y ∷ ys) p q = (p.0, AllBytes-write_at xs i (y ∷ ys) p.1 q)

pub AllBytes-take : (n : ℕ) (xs : List ℕ) → AllBytes xs → AllBytes (take n xs)
AllBytes-take zero xs h = _
AllBytes-take (suc n) [] h = _
AllBytes-take (suc n) (x ∷ xs) h = (h.0, AllBytes-take n xs h.1)

pub AllBytes-drop : (n : ℕ) (xs : List ℕ) → AllBytes xs → AllBytes (drop n xs)
AllBytes-drop zero xs h = h
AllBytes-drop (suc n) [] h = _
AllBytes-drop (suc n) (x ∷ xs) h = AllBytes-drop n xs h.1

pub drop-append : (k : ℕ) (xs ys : List ℕ) → k ≡ length xs → drop k (xs ++ ys) ≡ ys
drop-append zero [] ys e = refl
drop-append zero (x ∷ xs) ys e = absurd (omega arith)
drop-append (suc k) [] ys e = absurd (omega arith)
drop-append (suc k) (x ∷ xs) ys e = drop-append k xs ys (omega arith)

pub take-append : (k : ℕ) (xs ys : List ℕ) → k ≡ length xs → take k (xs ++ ys) ≡ xs
take-append zero [] ys e = refl
take-append zero (x ∷ xs) ys e = absurd (omega arith)
take-append (suc k) [] ys e = absurd (omega arith)
take-append (suc k) (x ∷ xs) ys e = ap (λ (t : List ℕ). x ∷ t) (take-append k xs ys (omega arith))
