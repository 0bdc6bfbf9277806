-- ===== src/FreeSpace/V1/Tracked.antt =====
-- The abstract view: how many free blocks the chain tracks, of those that a test picks.
use paradedb.Common.{
  ℕ, ◌+◌, ◌≡◌, refl, Bool, true, not, ◌&&◌, List, [], ◌∷◌, ◌++◌, if◌then◌else◌, arith,
}
use paradedb.Segment.Meta.{invalid_block_number}
use paradedb.FreeSpace.V1.{FsmEntry, FsmBlock, FsmPage, Locks, is_v0, is_invalid}

-- The valid entries of a page that the test picks.
abbrev pub tally : (FsmEntry → Bool) → List FsmEntry → ℕ
tally q [] = 0
tally q (e ∷ es) = (if not (is_invalid e.0) && q e then 1 else 0) + tally q es

-- A page of the oldest format holds nothing that the manager would give out.
unfoldable pub tally_block : (FsmEntry → Bool) → FsmBlock → ℕ
unfolding is_v0
tally_block q b = if is_v0 b then 0 else tally q b.entries

unfoldable pub tracked : (FsmEntry → Bool) → List FsmPage → ℕ
unfolding tally_block
tracked q [] = 0
tracked q (p ∷ ps) = tally_block q p.block + tracked q ps

-- No other backend changes a page before it is locked.
abbrev pub IsUndisturbed : Locks → Type 0
IsUndisturbed locks = (b : ℕ) (block : FsmBlock) → locks.found b block ≡ block

-- A page marked empty holds no valid entry.
abbrev pub AllInvalid : List FsmEntry → Type 0
AllInvalid [] = Unit
AllInvalid (e ∷ es) = (e.0 ≡ invalid_block_number) × AllInvalid es

abbrev pub IsHinted : List FsmPage → Type 0
IsHinted [] = Unit
IsHinted (p ∷ ps) = ((p.block).empty ≡ true → AllInvalid (p.block).entries) × IsHinted ps

pub tally-AllInvalid : (q : FsmEntry → Bool) (es : List FsmEntry) → AllInvalid es → tally q es ≡ 0
tally-AllInvalid q [] h = refl
tally-AllInvalid q (e ∷ es) h = ground (arith, tally-AllInvalid q es)

pub tally-append :
    (q : FsmEntry → Bool) (xs ys : List FsmEntry) → tally q (xs ++ ys) ≡ tally q xs + tally q ys
tally-append q [] ys = omega arith
tally-append q (x ∷ xs) ys = omega (arith, tally-append q xs ys)
