-- ===== src/Avl/Max.antt =====
-- The slot of the greatest key.
use paradedb.Common.{
  ℕ, zero, suc, ◌≤◌, ◌<◌, ◌≡◌, refl, ◌∙◌, max, ◌⊎◌, inl, inr, true, Option, none, some, List, [],
  ◌∷◌, ◌++◌, All, All-append, All-imp, contains, ok, arith,
}
use paradedb.Avl.{Arena, AvlTreeMapHeader, r, in_range, search_max, get_max_slot}
use paradedb.Avl.Tree.{
  Tree, leaf, node, depth, inorder, key_at, Represents, IsOrdered, contains-right, contains-middle,
  All-contains,
}

module _ {ℓ} {V T : Type ℓ} (a : Arena V T) where
  -- The index of the greatest key.
  abbrev pub IsGreatest : List ℕ → ℕ → Type 0
  IsGreatest is i = (contains i is ≡ true) × All (λ j. key_at a j ≤ key_at a i) is

  abbrev GreatestOr : List ℕ → Option ℕ → Option ℕ → Type 0
  GreatestOr is max found =
      ((is ≡ []) × (found ≡ max)) ⊎ ((i : ℕ) × (found ≡ some i) × IsGreatest is i)

  search_max-node :
      (fuel i : ℕ) (max : Option ℕ)
      → in_range a i ≡ true
      → search_max a (suc fuel) (some i) max ≡ search_max a fuel (r (a.slot i)) (some i)
  unfolding search_max
  search_max-node fuel i max h = ground arith

  GreatestOr-node :
      (i : ℕ) (xs ys : List ℕ) (max found : Option ℕ)
      → All (λ j. key_at a j < key_at a i) xs
      → All (λ j. key_at a i < key_at a j) ys
      → GreatestOr ys (some i) found
      → GreatestOr (xs ++ i ∷ ys) max found
  GreatestOr-node i xs ys max found u v (inl (e, f)) = inr (
    i,
    f,
    (
      contains-middle i xs ys,
      All-append (λ j. key_at a j ≤ key_at a i) xs (i ∷ ys)
          (All-imp (λ j. key_at a j < key_at a i) (λ j. key_at a j ≤ key_at a i)
            (λ j p. omega arith) xs u)
          (omega arith, rw e tt),
    ),
  )
  GreatestOr-node i xs ys max found u v (inr (m, e, (c, f))) =
      let above : key_at a i < key_at a m = All-contains (λ j. key_at a i < key_at a j) m ys v c in
      inr (
        m,
        e,
        (
          contains-right m xs (i ∷ ys) (ground (arith, c)),
          All-append (λ j. key_at a j ≤ key_at a m) xs (i ∷ ys)
              (All-imp (λ j. key_at a j < key_at a i) (λ j. key_at a j ≤ key_at a m)
                (λ j p. omega arith) xs u)
              (omega arith, f),
        ),
      )

  search_max_lem :
      (fuel : ℕ) (cur max : Option ℕ) (t : Tree)
      → depth t ≤ fuel
      → Represents a cur t
      → IsOrdered a t
      → (found : Option ℕ) × (search_max a fuel cur max ≡ some (ok found))
        × GreatestOr (inorder t) max found
  unfolding Represents IsOrdered inorder depth
  search_max_lem zero cur max leaf d e o = (max, rw e (unfold search_max in refl), inl (refl, refl))
  search_max_lem (suc fuel) cur max leaf d e o =
      (max, rw e (unfold search_max in refl), inl (refl, refl))
  search_max_lem zero cur max (node i t u) d e o = absurd (omega arith)
  search_max_lem (suc fuel) cur max (node i t u) d (e, h, rt, ru) (lo, hi, ot, ou) =
      let (found, s, f) = search_max_lem fuel _ (some i) u (omega arith) ru ou in
      (
        found,
        rw e (search_max-node fuel i max h ∙ s),
        GreatestOr-node i (inorder t) (inorder u) max found lo hi f,
      )

  -- With fuel for the depth of an ordered tree that the links from the root lead through,
  -- `get_max_slot` ends, and does not leave the arena. It refers to the slot with the greatest key
  -- of the tree, or to none, and then the tree is empty.
  pub get_max_slot_lem :
      (header : AvlTreeMapHeader) (fuel : ℕ) (t : Tree)
      → depth t ≤ fuel
      → Represents a header.root t
      → IsOrdered a t
      → (found : Option ℕ) × (get_max_slot header a fuel ≡ some (ok found))
        × (((inorder t ≡ []) × (found ≡ none))
            ⊎ ((i : ℕ) × (found ≡ some i) × IsGreatest (inorder t) i))
  unfolding get_max_slot
  get_max_slot_lem header fuel t d e o = search_max_lem fuel header.root none t d e o
