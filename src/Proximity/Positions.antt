-- ===== src/Proximity/Positions.antt =====
-- Pairs of positions that are near each other: ProximityDistance of
-- pg_search/src/query/proximity/mod.rs and ProxIter of pg_search/src/query/proximity/scorer.rs. The
-- two position lists are held as what is left of them behind the indices `li` and `ri`. A position
-- and a distance are `u32`.
pub mod Complete
use Prim.Native.Nat.{compare, Ordering}
use paradedb.Common.{
  ℕ, zero, suc, ◌+◌, ◌-◌, ◌%◌, Bool, true, false, Option, none, some, List, [], ◌∷◌, length, leb,
  ltb, is_some, if◌then◌else◌,
}
use paradedb.Xid.{u32_mod}

pub data ProximityDistance : Type 0 where
  in_order any_order : ℕ → ProximityDistance

-- r.wrapping_sub(l), or r.abs_diff(l)
unfoldable pub diff : ProximityDistance → ℕ → ℕ → ℕ
diff (in_order distance) l r = (r + u32_mod - l) % u32_mod
diff (any_order distance) l r = if leb l r then r - l else l - r

unfoldable pub distance : ProximityDistance → ℕ
distance (in_order d) = d
distance (any_order d) = d

-- diff <= distance + 1, where the sum wraps in a release build
unfoldable pub is_near : ProximityDistance → ℕ → ℕ → Bool
unfolding diff distance
is_near d l r = leb (diff d l r) ((distance d + 1) % u32_mod)

-- ProxIter::next: the pair, and what is left of both lists.
unfoldable pub next : ProximityDistance → List ℕ → List ℕ → Option ((ℕ × ℕ) × List ℕ × List ℕ)
unfolding is_near
next d [] rpos = none
next d (l ∷ lpos) [] = none
next d (l ∷ lpos) (r ∷ rpos) = elim (is_near d l r) [
  | true ↦ some ((l, r), lpos, r ∷ rpos)
  | false ↦ elim (compare l r) [
    | Ordering.lt ↦ next d lpos (r ∷ rpos)
    | Ordering.eq ↦ next d lpos rpos
    | Ordering.gt ↦ next d (l ∷ lpos) rpos
  ]
]

-- The pairs that the iterator yields until it ends; each yields uses up a left position, so as many
-- rounds as there are left positions are enough.
unfoldable pub pairs : ProximityDistance → ℕ → List ℕ → List ℕ → List (ℕ × ℕ)
unfolding next
pairs d zero lpos rpos = []
pairs d (suc fuel) lpos rpos = elim (next d lpos rpos) [
  | none ↦ []
  | some (pair, lpos', rpos') ↦ pair ∷ pairs d fuel lpos' rpos'
]

-- prox_iter
unfoldable pub prox_iter : ProximityDistance → List ℕ → List ℕ → List (ℕ × ℕ)
unfolding pairs
prox_iter d lpos rpos = pairs d (length lpos) lpos rpos

-- prox_count
unfoldable pub prox_count : ProximityDistance → List ℕ → List ℕ → ℕ
unfolding prox_iter
prox_count d lpos rpos = length (prox_iter d lpos rpos)

-- ProximityScorer::prox_match: whether a pair matches, and the new `nmatches`. Without a weight only
-- the first pair is asked for.
unfoldable pub prox_match : ProximityDistance → Bool → List ℕ → List ℕ → ℕ → Bool × ℕ
unfolding next prox_count
prox_match d true lpos rpos nmatches = (ltb 0 (prox_count d lpos rpos), prox_count d lpos rpos)
prox_match d false lpos rpos nmatches = (is_some (next d lpos rpos), nmatches)
