-- ===== src/Prelude/Counts.antt =====
-- How often a number stands in a list, and a list without one of its elements.
use Prim.Native.Nat.{ℕ, ◌+◌, ◌-◌, ◌≤◌}
use mathlib.Core.Path.{◌≡◌}
use mathlib.Core.Logic.{}
use mathlib.Core.List.{List, [], ◌∷◌, ◌++◌}
use native.Mathlib.Omega.{arith}
use new_name_auction.Prelude.Tests.{◌==◌, if◌then◌else◌}
use new_name_auction.Prelude.Lists.{length}

abbrev pub count : (number : ℕ) → List ℕ → ℕ
count number [] = 0
count number (x ∷ rest) = (if number == x then 1 else 0) + count number rest

pub count-append :
    (front back : List ℕ) (n : ℕ) → count n (front ++ back) ≡ count n front + count n back
count-append [] back n = omega arith
count-append (x ∷ front) back n = omega (arith, count-append front back n)

-- The first occurrence goes.
unfoldable pub remove : ℕ → List ℕ → List ℕ
remove a [] = []
remove a (x ∷ xs) = if a == x then xs else x ∷ remove a xs

pub count-remove :
    (a b : ℕ) (xs : List ℕ)
    → count b (remove a xs) ≡ (if a == b then count b xs - 1 else count b xs)
unfolding remove
count-remove a b [] = ground arith
count-remove a b (x ∷ xs) = ground (arith, count-remove a b xs)

pub length-remove : (a : ℕ) (xs : List ℕ) → 1 ≤ count a xs → length (remove a xs) + 1 ≡ length xs
unfolding remove
length-remove a [] h = absurd (omega (arith, h))
length-remove a (x ∷ xs) h = ground (arith, length-remove a xs)
