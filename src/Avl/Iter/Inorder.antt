-- ===== src/Avl/Iter/Inorder.antt =====
-- The iterator walks a tree in order.
use mathlib.Core.List.{append_assoc, append-nil}
use paradedb.Common.{
  ℕ, zero, suc, ◌+◌, ◌≤◌, ◌<◌, ◌≡◌, refl, sym, ◌∙◌, ap, true, Option, some, List, [], ◌∷◌, ◌++◌,
  map, length, All, All-append, All-imp, ltb, ok, arith,
}
use paradedb.Avl.{Arena, AvlTreeMapHeader, l, r, in_range}
use paradedb.Avl.Tree.{Tree, leaf, node, depth, inorder, key_at, Represents, IsOrdered}
use paradedb.Avl.Iter.{max_height, push_left_chain, iter_next, iter, collect}

-- The nodes on the stack with their right subtrees.
abbrev Pending : Type 0
Pending = List (ℕ × Tree)

abbrev stack_of : Pending → List ℕ
stack_of ps = map (λ p. p.0) ps

-- The indices that are still to come once the cursor's subtree is done.
abbrev rest_of : Pending → List ℕ
rest_of [] = []
rest_of ((i, u) ∷ ps) = i ∷ (inorder u ++ rest_of ps)

length-stack_of : (ps : Pending) → length (stack_of ps) ≡ length ps
length-stack_of [] = refl
length-stack_of (p ∷ ps) = ap suc (length-stack_of ps)

-- What the iterator yields for an index.
abbrev pub pair_at {ℓ} : {V T : Type ℓ} → Arena V T → ℕ → ℕ × V
pair_at a i = ((a.slot i).key, (a.slot i).val)

module _ {ℓ} {V T : Type ℓ} (a : Arena V T) (fuel : ℕ) where
  abbrev IsPending : Pending → Type 0
  IsPending [] = Unit
  IsPending ((i, u) ∷ ps) =
      (in_range a i ≡ true)
      × Represents a (r (a.slot i)) u
      × (length ps + depth u ≤ max_height)
      × (depth u ≤ fuel)
      × IsPending ps

  push_lem :
      (rounds : ℕ) (cur : Option ℕ) (t : Tree) (ps : Pending)
      → depth t ≤ rounds
      → rounds ≤ fuel
      → length ps + depth t ≤ max_height
      → Represents a cur t
      → IsPending ps
      → (qs : Pending) × (push_left_chain a rounds (stack_of ps) cur ≡ some (ok (stack_of qs)))
        × (rest_of qs ≡ inorder t ++ rest_of ps)
        × IsPending qs
  unfolding Represents depth inorder push_left_chain
  push_lem zero cur leaf ps d f s e h = (ps, rw e refl, refl, h)
  push_lem (suc rounds) cur leaf ps d f s e h = (ps, rw e refl, refl, h)
  push_lem zero cur (node i t u) ps d f s e h = absurd (omega arith)
  push_lem (suc rounds) cur (node i t u) ps d f s (e, g, rt, ru) h =
      let (qs, p, q, k) =
        push_lem rounds (l (a.slot i)) t ((i, u) ∷ ps) (omega arith) (omega arith) (omega arith) rt
          (g, ru, omega arith, omega arith, h) in
      let room : ltb (length (stack_of ps)) max_height ≡ true =
        ground (arith, length-stack_of ps) in
      (
        qs,
        rw e (rw (room, push_left_chain) (rw (g, push_left_chain) p)),
        q ∙ sym (append_assoc (inorder t) (i ∷ inorder u) (rest_of ps)),
        k,
      )

  collect_lem :
      (n : ℕ) (cur : Option ℕ) (t : Tree) (ps : Pending)
      → length (inorder t ++ rest_of ps) < n
      → depth t ≤ fuel
      → length ps + depth t ≤ max_height
      → Represents a cur t
      → IsPending ps
      → collect a fuel n (record { stack = stack_of ps; cursor = cur })
        ≡ some (ok (map (pair_at a) (inorder t ++ rest_of ps)))
  unfolding collect iter_next
  collect_lem zero cur t ps b d s e h = absurd (omega arith)
  collect_lem (suc n) cur t ps b d s e h =
      let (qs, p, q, k) = push_lem fuel cur t ps d (omega arith) s e h in
      on_stack qs p q k (λ cur' t' ps'. collect_lem n cur' t' ps')
    where
      on_stack :
          (qs : Pending)
          → push_left_chain a fuel (stack_of ps) cur ≡ some (ok (stack_of qs))
          → rest_of qs ≡ inorder t ++ rest_of ps
          → IsPending qs
          → ((cur' : Option ℕ) (t' : Tree) (ps' : Pending)
              → length (inorder t' ++ rest_of ps') < n
              → depth t' ≤ fuel
              → length ps' + depth t' ≤ max_height
              → Represents a cur' t'
              → IsPending ps'
              → collect a fuel n (record { stack = stack_of ps'; cursor = cur' })
                ≡ some (ok (map (pair_at a) (inorder t' ++ rest_of ps'))))
          → collect a fuel (suc n) (record { stack = stack_of ps; cursor = cur })
            ≡ some (ok (map (pair_at a) (inorder t ++ rest_of ps)))
      on_stack [] p q k rec = rw (p, collect) (rw (sym q) refl)
      on_stack ((i, u) ∷ qs) p q (g, ru, su, du, k) rec =
          let shorter : length (inorder u ++ rest_of qs) < n = omega (arith, ap length q) in
          let later = rec (r (a.slot i)) u qs shorter du su ru k in
          rw (p, collect) (rw (g, collect) (rw (later, collect) (rw (sym q) refl)))

module _ {ℓ} {V T : Type ℓ} (a : Arena V T) where
  -- The keys at these indices increase.
  abbrev pub IsAscending : List ℕ → Type 0
  IsAscending [] = Unit
  IsAscending (i ∷ is) = All (λ j. key_at a i < key_at a j) is × IsAscending is

  pub IsAscending-append :
      (xs : List ℕ) (i : ℕ) (ys : List ℕ)
      → IsAscending xs
      → All (λ j. key_at a j < key_at a i) xs
      → All (λ j. key_at a i < key_at a j) ys
      → IsAscending ys
      → IsAscending (xs ++ i ∷ ys)
  IsAscending-append [] i ys h lo hi k = (hi, k)
  IsAscending-append (x ∷ xs) i ys h lo hi k = (
    All-append (λ j. key_at a x < key_at a j) xs (i ∷ ys) h.0
        (
          lo.0,
          All-imp (λ j. key_at a i < key_at a j) (λ j. key_at a x < key_at a j)
              (λ j p. omega (arith, lo.0)) ys hi,
        ),
    IsAscending-append xs i ys h.1 lo.1 hi k,
  )

  pub inorder-IsAscending : (t : Tree) → IsOrdered a t → IsAscending (inorder t)
  unfolding IsOrdered inorder
  inorder-IsAscending leaf o = tt
  inorder-IsAscending (node i t u) (lo, hi, ot, ou) =
      IsAscending-append (inorder t) i (inorder u) (inorder-IsAscending t ot) lo hi
        (inorder-IsAscending u ou)

  -- On an ordered tree of depth at most MAX_HEIGHT that the links from the root lead through, with
  -- fuel for its depth and one call more than it has nodes, the iterator ends, overruns neither its
  -- stack nor the arena, and yields the key and value of every node once, by increasing key.
  pub iter_lem :
      (header : AvlTreeMapHeader) (fuel n : ℕ) (t : Tree)
      → depth t ≤ fuel
      → depth t ≤ max_height
      → length (inorder t) < n
      → Represents a header.root t
      → IsOrdered a t
      → (collect a fuel n (iter header) ≡ some (ok (map (pair_at a) (inorder t))))
        × IsAscending (inorder t)
  unfolding iter
  iter_lem header fuel n t d m s e o =
      let all : inorder t ++ [] ≡ inorder t = append-nil (inorder t) in
      (
        collect_lem a fuel n header.root t [] (rw all s) d (omega arith) e tt
            ∙ ap (λ is. some (ok (map (pair_at a) is))) all,
        inorder-IsAscending t o,
      )
