-- ===== src/Proximity/Positions/Complete.antt =====
-- The merge of the two position lists misses no left position with a near right one.
use paradedb.Common.{
  ℕ, zero, suc, ◌+◌, ◌≤◌, ◌<◌, ◌≡◌, refl, ap, ◌∙◌, sym, ltb, ltb→lt, Bool, true, false, Option,
  is_some, none, some, List, [], ◌∷◌, map, length, keep, All, if◌then◌else◌, Bool-cases,
  Option-cases, inl, inr, arith,
}
use paradedb.Xid.{u32_mod}
use paradedb.Proximity.Positions.{
  ProximityDistance, in_order, any_order, distance, is_near, next, pairs, prox_iter, prox_count,
  prox_match,
}

-- Positions in increasing order, repeats allowed.
abbrev pub IsSorted : List ℕ → Type 0
IsSorted [] = Unit
IsSorted (x ∷ xs) = All (λ y. x ≤ y) xs × IsSorted xs

-- No sum with the distance wraps.
abbrev pub Fits : ProximityDistance → List ℕ → Type 0
Fits d xs = All (λ x. x + distance d + 1 < u32_mod) xs

-- Some right position is near.
abbrev pub has_near : ProximityDistance → List ℕ → ℕ → Bool
has_near d [] l = false
has_near d (r ∷ rs) l = let rest = has_near d rs l in if is_near d l r then true else rest

far_right_one :
    (d : ProximityDistance) (l r x : ℕ)
    → l + distance d + 1 < u32_mod
    → l < r
    → is_near d l r ≡ false
    → r ≤ x
    → x < u32_mod
    → is_near d l x ≡ false
unfolding is_near
far_right_one (in_order n) l r x b h f s w = ground arith
far_right_one (any_order n) l r x b h f s w = ground arith

far_left :
    (d : ProximityDistance) (l r l' : ℕ)
    → l' + distance d + 1 < u32_mod
    → r < l
    → l ≤ l'
    → is_near d l r ≡ false
    → is_near d l' r ≡ false
unfolding is_near
far_left (in_order n) l r l' b h s f = ground arith
far_left (any_order n) l r l' b h s f = ground arith

-- A position is near itself, so the branch for equal positions that are not near is never taken.
near_self : (d : ProximityDistance) (x : ℕ) → x + distance d + 1 < u32_mod → is_near d x x ≡ true
unfolding is_near
near_self (in_order n) x b = ground arith
near_self (any_order n) x b = ground arith

module _ (d : ProximityDistance) where
  far_right :
      (l r : ℕ) (rs : List ℕ)
      → l + distance d + 1 < u32_mod
      → l < r
      → is_near d l r ≡ false
      → All (λ x. r ≤ x) rs
      → All (λ x. x < u32_mod) rs
      → has_near d rs l ≡ false
  far_right l r [] b h f s w = refl
  far_right l r (x ∷ rs) b h f s w =
      rw (far_right_one d l r x b h f s.0 w.0) (far_right l r rs b h f s.1 w.1)

  -- A right position below every left one, and not near the first, can be dropped.
  drop_right :
      (l r : ℕ) (ls rs : List ℕ)
      → Fits d ls
      → r < l
      → is_near d l r ≡ false
      → All (λ x. l ≤ x) ls
      → keep (has_near d (r ∷ rs)) ls ≡ keep (has_near d rs) ls
  drop_right l r [] rs b h f s = refl
  drop_right l r (x ∷ ls) rs b h f s =
      ground (arith, far_left d l r x b.0 h s.0 f, drop_right l r ls rs b.1 h f s.1)

  abbrev Inputs : List ℕ → List ℕ → Type 0
  Inputs ls rs = IsSorted ls × IsSorted rs × Fits d ls × All (λ x. x < u32_mod) rs

  -- What one call of `next` says of the left positions that have a near right one.
  abbrev NextCorrect : List ℕ → List ℕ → Option ((ℕ × ℕ) × List ℕ × List ℕ) → Type 0
  NextCorrect ls rs none = keep (has_near d rs) ls ≡ []
  NextCorrect ls rs (some ((l, r), ls', rs')) =
      (keep (has_near d rs) ls ≡ l ∷ keep (has_near d rs') ls')
      × (is_near d l r ≡ true)
      × (length ls' < length ls)
      × Inputs ls' rs'

  keep_nothing : (ls : List ℕ) → keep (has_near d []) ls ≡ []
  keep_nothing [] = refl
  keep_nothing (l ∷ ls) = keep_nothing ls

  NextCorrect-move :
      (ls rs ls' rs' : List ℕ) (x : Option ((ℕ × ℕ) × List ℕ × List ℕ))
      → keep (has_near d rs) ls ≡ keep (has_near d rs') ls'
      → length ls' ≤ length ls
      → NextCorrect ls' rs' x
      → NextCorrect ls rs x
  NextCorrect-move ls rs ls' rs' none e n c = e ∙ c
  NextCorrect-move ls rs ls' rs' (some ((l, r), ls'', rs'')) e n (k, near, m, i) =
      (e ∙ k, near, omega arith, i)

  next-near :
      (l r : ℕ) (ls rs : List ℕ)
      → is_near d l r ≡ true
      → next d (l ∷ ls) (r ∷ rs) ≡ some ((l, r), ls, r ∷ rs)
  unfolding next
  next-near l r ls rs n = rw (n, next)

  next-lt :
      (l r : ℕ) (ls rs : List ℕ)
      → is_near d l r ≡ false
      → l < r
      → next d (l ∷ ls) (r ∷ rs) ≡ next d ls (r ∷ rs)
  unfolding next
  next-lt l r ls rs n h = ground arith

  next-gt :
      (l r : ℕ) (ls rs : List ℕ)
      → is_near d l r ≡ false
      → r < l
      → next d (l ∷ ls) (r ∷ rs) ≡ next d (l ∷ ls) rs
  unfolding next
  next-gt l r ls rs n h = ground arith

  next_lem : (ls rs : List ℕ) → Inputs ls rs → NextCorrect ls rs (next d ls rs)
  unfolding next
  next_lem [] rs i = refl
  next_lem (l ∷ ls) [] i = keep_nothing ls
  next_lem (l ∷ ls) (r ∷ rs) (sl, sr, f, w) = elim (Bool-cases (is_near d l r)) [
    | inl n ↦ rw (next-near l r ls rs n) (rw n, n, omega arith, (sl.1, sr, f.1, w))
    | inr n ↦ elim (Bool-cases (ltb l r)) [
      | inl h ↦
          let h' = ltb→lt l r h in
          let gone : has_near d (r ∷ rs) l ≡ false = rw n (far_right l r rs f.0 h' n sr.0 w.1) in
          rw (next-lt l r ls rs n h') (
            NextCorrect-move (l ∷ ls) (r ∷ rs) ls (r ∷ rs) _ (ground (arith, gone)) (omega arith)
              (next_lem ls (r ∷ rs) (sl.1, sr, f.1, w)))
      | inr h ↦ elim (Bool-cases (ltb r l)) [
        | inl g ↦
            let g' = ltb→lt r l g in
            rw (next-gt l r ls rs n g') (
              NextCorrect-move (l ∷ ls) (r ∷ rs) (l ∷ ls) rs _
                (drop_right l r (l ∷ ls) rs f g' n (omega arith, sl.0)) (omega arith)
                (next_lem (l ∷ ls) rs (sl, sr.1, f, w.1)))
        | inr g ↦
            let same : l ≡ r = ground arith in absurd (ground (arith, near_self d l f.0, same))
      ]
    ]
  ]

  pairs_lem :
      (fuel : ℕ) (ls rs : List ℕ)
      → length ls ≤ fuel
      → Inputs ls rs
      → (map (λ p. p.0) (pairs d fuel ls rs) ≡ keep (has_near d rs) ls)
        × All (λ p. is_near d p.0 p.1 ≡ true) (pairs d fuel ls rs)
  unfolding pairs
  pairs_lem zero [] rs n i = (refl, tt)
  pairs_lem zero (l ∷ ls) rs n i = absurd (omega arith)
  pairs_lem (suc fuel) ls rs n i =
      by_next (next d ls rs) refl (next_lem ls rs i) (λ ls' rs'. pairs_lem fuel ls' rs')
    where
      by_next :
          (x : Option ((ℕ × ℕ) × List ℕ × List ℕ))
          → next d ls rs ≡ x
          → NextCorrect ls rs (next d ls rs)
          → ((ls' rs' : List ℕ)
              → length ls' ≤ fuel
              → Inputs ls' rs'
              → (map (λ p. p.0) (pairs d fuel ls' rs') ≡ keep (has_near d rs') ls')
                × All (λ p. is_near d p.0 p.1 ≡ true) (pairs d fuel ls' rs'))
          → (map (λ p. p.0) (pairs d (suc fuel) ls rs) ≡ keep (has_near d rs) ls)
            × All (λ p. is_near d p.0 p.1 ≡ true) (pairs d (suc fuel) ls rs)
      by_next none e c rec = let c' = rw e at c in rw (e, pairs) (sym c', tt)
      by_next (some ((l, r), ls', rs')) e c rec =
          let (k, near, m, i') = rw e at c in
          let (ks, all) = rec ls' rs' (omega arith) i' in
          rw (e, pairs) (ap (λ t. l ∷ t) ks ∙ sym k, (near, all))

-- On sorted positions that do not wrap, the iterator yields pairs that are all near, and their left
-- positions are exactly the left positions with some near right position, each once and in order.
pub prox_iter_lem :
    (d : ProximityDistance) (ls rs : List ℕ)
    → Inputs d ls rs
    → (map (λ p. p.0) (prox_iter d ls rs) ≡ keep (has_near d rs) ls)
      × All (λ p. is_near d p.0 p.1 ≡ true) (prox_iter d ls rs)
unfolding prox_iter
prox_iter_lem d ls rs i = pairs_lem d (length ls) ls rs (omega arith) i

length-map : (ps : List (ℕ × ℕ)) → length (map (λ p. p.0) ps) ≡ length ps
length-map [] = refl
length-map (p ∷ ps) = ap suc (length-map ps)

count_near :
    (d : ProximityDistance) (ls rs : List ℕ)
    → Inputs d ls rs
    → prox_count d ls rs ≡ length (keep (has_near d rs) ls)
unfolding prox_count
count_near d ls rs i = sym (length-map (prox_iter d ls rs)) ∙ ap length (prox_iter_lem d ls rs i).0

is_some-next :
    (d : ProximityDistance) (ls rs : List ℕ) → is_some (next d ls rs) ≡ ltb 0 (prox_count d ls rs)
unfolding prox_count prox_iter pairs
is_some-next d [] rs = unfold next in refl
is_some-next d (l ∷ ls) rs = elim (Option-cases (next d (l ∷ ls) rs)) [
  | inl e ↦ ground arith
  | inr r ↦ let (x, e) = r in ground arith
]

-- On sorted positions that do not wrap, the match by the count of the pairs and the match by the
-- first pair agree, and both say whether a left position has a near right position.
pub prox_match_lem :
    (d : ProximityDistance) (ls rs : List ℕ) (n : ℕ)
    → Inputs d ls rs
    → ((prox_match d true ls rs n).0 ≡ ltb 0 (length (keep (has_near d rs) ls)))
      × ((prox_match d false ls rs n).0 ≡ (prox_match d true ls rs n).0)
unfolding prox_match
prox_match_lem d ls rs n i = (rw (count_near d ls rs i) refl, is_some-next d ls rs)
