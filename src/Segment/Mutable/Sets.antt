-- ===== src/Segment/Mutable/Sets.antt =====
-- Sets of live rows, and what the entries of a log do to them.
use paradedb.Common.{
  ℕ, suc, ◌<◌, ◌≡◌, refl, Bool, true, false, List, [], ◌∷◌, length, contains, ◌==◌, if◌then◌else◌,
  All, arith,
}
use paradedb.Segment.Data.{MutableSegmentEntry, add, remove_entry}
use paradedb.Segment.Mutable.{set_insert, set_remove}

-- How many entries of a log add a row, and how many remove one.
abbrev pub adds : List MutableSegmentEntry → ℕ
adds [] = 0
adds (add ctid ∷ log) = suc (adds log)
adds (remove_entry ctid ∷ log) = adds log

abbrev pub removes : List MutableSegmentEntry → ℕ
removes [] = 0
removes (add ctid ∷ log) = removes log
removes (remove_entry ctid ∷ log) = suc (removes log)

-- Whether a row is live after the log, if it was `live` before: the last entry on it decides.
abbrev pub live_after : List MutableSegmentEntry → ℕ → Bool → Bool
live_after [] x live = live
live_after (add ctid ∷ log) x live = live_after log x (if x == ctid then true else live)
live_after (remove_entry ctid ∷ log) x live = live_after log x (if x == ctid then false else live)

-- From a set of live rows, the log adds only rows that are not live and removes only live ones.
abbrev pub IsConsistent : List MutableSegmentEntry → List ℕ → Type 0
IsConsistent [] s = Unit
IsConsistent (add ctid ∷ log) s = (contains ctid s ≡ false) × IsConsistent log (set_insert ctid s)
IsConsistent (remove_entry ctid ∷ log) s =
    (contains ctid s ≡ true) × IsConsistent log (set_remove ctid s)

-- Strictly increasing.
abbrev pub IsIncreasing : List ℕ → Type 0
IsIncreasing [] = Unit
IsIncreasing (x ∷ xs) = All (λ y. x < y) xs × IsIncreasing xs

pub contains-set_insert :
    (x y : ℕ) (s : List ℕ) → contains x (set_insert y s) ≡ (if x == y then true else contains x s)
unfolding set_insert
contains-set_insert x y [] = ground arith
contains-set_insert x y (z ∷ s) = ground (arith, contains-set_insert x y s)

All-set_insert :
    (x y : ℕ) (s : List ℕ) → x < y → All (λ z. x < z) s → All (λ z. x < z) (set_insert y s)
unfolding set_insert
All-set_insert x y [] h a = (h, tt)
All-set_insert x y (z ∷ s) h a = ground (arith, All-set_insert x y s)

All-below : (x y : ℕ) (s : List ℕ) → x < y → All (λ z. y < z) s → All (λ z. x < z) s
All-below x y [] h a = tt
All-below x y (z ∷ s) h a = (omega arith, All-below x y s h a.1)

pub set_insert-IsIncreasing : (x : ℕ) (s : List ℕ) → IsIncreasing s → IsIncreasing (set_insert x s)
unfolding set_insert
set_insert-IsIncreasing x [] h = (tt, tt)
set_insert-IsIncreasing x (y ∷ s) h =
    ground (arith, set_insert-IsIncreasing x s, All-set_insert y x s, All-below x y s)

All-set_remove : (x y : ℕ) (s : List ℕ) → All (λ z. x < z) s → All (λ z. x < z) (set_remove y s)
unfolding set_remove
All-set_remove x y [] a = tt
All-set_remove x y (z ∷ s) a = ground (arith, All-set_remove x y s)

pub set_remove-IsIncreasing : (x : ℕ) (s : List ℕ) → IsIncreasing s → IsIncreasing (set_remove x s)
unfolding set_remove
set_remove-IsIncreasing x [] h = tt
set_remove-IsIncreasing x (y ∷ s) h =
    ground (arith, set_remove-IsIncreasing x s, All-set_remove y x s)

contains_below : (x : ℕ) (s : List ℕ) → All (λ z. x < z) s → contains x s ≡ false
contains_below x [] a = refl
contains_below x (z ∷ s) a = ground (arith, contains_below x s)

pub contains-set_remove :
    (x y : ℕ) (s : List ℕ)
    → IsIncreasing s
    → contains x (set_remove y s) ≡ (if x == y then false else contains x s)
unfolding set_remove
contains-set_remove x y [] h = ground arith
contains-set_remove x y (z ∷ s) h = ground (arith, contains-set_remove x y s, contains_below z s)

pub length-set_insert :
    (x : ℕ) (s : List ℕ) → contains x s ≡ false → length (set_insert x s) ≡ suc (length s)
unfolding set_insert
length-set_insert x [] h = refl
length-set_insert x (y ∷ s) h = ground (arith, length-set_insert x s)

pub length-set_remove :
    (x : ℕ) (s : List ℕ) → contains x s ≡ true → suc (length (set_remove x s)) ≡ length s
unfolding set_remove
length-set_remove x [] h = cc
length-set_remove x (y ∷ s) h = ground (arith, length-set_remove x s)
