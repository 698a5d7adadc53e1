-- ===== src/Prelude/Count.antt =====
-- How often a number occurs in a list: lists as bags, with the first occurrence taken out.
use smart_quant.Prelude.Tests.{◌==◌, if◌then◌else◌, ltb}
use smart_quant.Prelude.Lists.{length}
use Prim.Native.Nat.{ℕ, zero, suc, ◌+◌, ◌≤◌}
use mathlib.Core.Path.{◌≡◌, refl}
use mathlib.Core.List.{List, [], ◌∷◌}
use native.Mathlib.Omega.{arith}

unfoldable pub count : ℕ → List ℕ → ℕ
count j [] = 0
count j (x ∷ xs) = (if x == j then 1 else 0) + count j xs

-- The list without the first occurrence.
unfoldable pub remove : ℕ → List ℕ → List ℕ
remove j [] = []
remove j (x ∷ xs) = if x == j then xs else x ∷ remove j xs

pub count-cons : (j x : ℕ) (xs : List ℕ) → count j (x ∷ xs) ≡ (if x == j then 1 else 0) + count j xs
unfolding count
count-cons j x xs = refl

pub count-remove :
    (j i : ℕ) (xs : List ℕ)
    → 1 ≤ count i xs
    → count j (remove i xs) + (if i == j then 1 else 0) ≡ count j xs
unfolding count remove
count-remove j i [] h = absurd (omega arith)
count-remove j i (x ∷ xs) h = ground (arith, count-remove j i xs)

pub length-remove : (i : ℕ) (xs : List ℕ) → 1 ≤ count i xs → length (remove i xs) + 1 ≡ length xs
unfolding count remove
length-remove i [] h = absurd (omega arith)
length-remove i (x ∷ xs) h = ground (arith, length-remove i xs)

-- `k` numbers from `i` on.
unfoldable pub range : ℕ → ℕ → List ℕ
range i zero = []
range i (suc k) = i ∷ range (i + 1) k

pub length-range : (i k : ℕ) → length (range i k) ≡ k
unfolding range
length-range i zero = refl
length-range i (suc k) = omega (arith, length-range (i + 1) k)

pub count-range :
    (j i k : ℕ) → count j (range i k) ≡ (if ltb j i then 0 else (if ltb j (i + k) then 1 else 0))
unfolding count range
count-range j i zero = ground arith
count-range j i (suc k) = ground (arith, count-range j (i + 1) k)
