-- ===== src/Common/Counts.antt =====
-- How often a number stands in a list: the multiset view of a list of identifiers.
use Prim.Native.Nat.{ℕ, ◌+◌, ◌≤◌, ◌<◌}
use mathlib.Core.Path.{◌≡◌, refl}
use mathlib.Core.Bool.{Bool, true, false}
use mathlib.Core.List.{List, [], ◌∷◌, ◌++◌}
use native.Mathlib.Omega.{arith}
use paradedb.Common.Tests.{if◌then◌else◌, ◌==◌}

abbrev pub count : ℕ → List ℕ → ℕ
count a [] = 0
count a (x ∷ xs) = (if a == x then 1 else 0) + count a xs

abbrev pub contains : ℕ → List ℕ → Bool
contains a [] = false
contains a (x ∷ xs) = let rest = contains a xs in if a == x then true else rest

pub count-append : (a : ℕ) (xs ys : List ℕ) → count a (xs ++ ys) ≡ count a xs + count a ys
count-append a [] ys = omega arith
count-append a (x ∷ xs) ys = ground (arith, count-append a xs ys)

pub contains-eq-true : (a : ℕ) (xs : List ℕ) → contains a xs ≡ true → 0 < count a xs
contains-eq-true a [] h = ground arith
contains-eq-true a (x ∷ xs) h = ground (arith, contains-eq-true a xs)

pub contains-eq-false : (a : ℕ) (xs : List ℕ) → contains a xs ≡ false → count a xs ≡ 0
contains-eq-false a [] h = refl
contains-eq-false a (x ∷ xs) h = ground (arith, contains-eq-false a xs)

-- No number stands twice in the list.
abbrev pub IsDistinct : List ℕ → Type 0
IsDistinct xs = (a : ℕ) → count a xs ≤ 1
