-- ===== src/Avl/Change/Balanced.antt =====
-- What a rebalanced subtree is.
use paradedb.Common.{
  ℕ, ◌+◌, ◌≤◌, ◌≡◌, refl, max, true, false, Option, some, List, [], ◌∷◌, ◌++◌, contains, ◌==◌,
  Outcome, ok, arith,
}
use paradedb.Avl.{Arena}
use paradedb.Avl.Tree.{Tree, node, depth, inorder}
use paradedb.Avl.Change.Shape.{IsAvl, Avoids, Avoids-node, IsAvl-frame}
use paradedb.Avl.Change.Relinked.{Relinked, Node}

pub within_right :
    (x i : ℕ) (t u w : Tree) (j : ℕ)
    → Avoids j (node x t (node i u w))
    → contains j (x ∷ i ∷ []) ≡ false
within_right x i t u w j h =
    let outer = Avoids-node j x t (node i u w) h in
    let inner = Avoids-node j i u w outer.2 in ground (arith, outer.1, inner.1)

pub within_left :
    (x i : ℕ) (t u w : Tree) (j : ℕ)
    → Avoids j (node x (node i t u) w)
    → contains j (i ∷ x ∷ []) ≡ false
within_left x i t u w j h =
    let outer = Avoids-node j x (node i t u) w h in
    let inner = Avoids-node j i t u outer.0 in ground (arith, outer.1, inner.1)

pub within_double :
    (z x i : ℕ) (t1 m1 m2 u : Tree) (j : ℕ)
    → Avoids j (node z (node x t1 m1) (node i m2 u))
    → ((j == z) ≡ false) × ((j == x) ≡ false) × ((j == i) ≡ false)
within_double z x i t1 m1 m2 u j h =
    let all = Avoids-node j z (node x t1 m1) (node i m2 u) h in
    (all.1, (Avoids-node j x t1 m1 all.0).1, (Avoids-node j i m2 u all.2).1)

module _ {ℓ} {V T : Type ℓ} where
  -- A balanced subtree of the same nodes, in the same order, and about as deep.
  abbrev pub Rebalanced : Arena V T → ℕ → Tree → Tree → Outcome (Arena V T × ℕ) → Type ℓ
  Rebalanced a i t u result =
      (b : Arena V T) × (i' : ℕ) × (t' : Tree) × (result ≡ ok (b, i'))
      × IsAvl b (some i') t'
      × (inorder t' ≡ inorder t ++ i ∷ inorder u)
      × Relinked (inorder t') a b
      × (max (depth t) (depth u) ≤ depth t')
      × (depth t' ≤ 1 + max (depth t) (depth u))
      × (depth t ≤ depth u + 1 → depth u ≤ depth t + 1 → depth t' ≡ 1 + max (depth t) (depth u))

  pub Node-IsAvl :
      (a : Arena V T) (i : ℕ) (t u : Tree)
      → Node a i t u
      → depth t ≤ depth u + 1
      → depth u ≤ depth t + 1
      → IsAvl a (some i) (node i t u)
  unfolding IsAvl
  Node-IsAvl a i t u n p q = (refl, n.inside, n.high, p, q, n.on_left, n.on_right)

  pub Relinked-within :
      (is js : List ℕ) (a b : Arena V T)
      → ((j : ℕ) → contains j js ≡ false → contains j is ≡ false)
      → Relinked is a b
      → Relinked js a b
  Relinked-within is js a b sub p = record {
    size = p.size;
    outside = λ j h. p.outside j (sub j h);
    keys = p.keys;
    vals = p.vals;
    tags = p.tags;
  }

  pub IsAvl-Relinked :
      (is : List ℕ) (a b : Arena V T) (cur : Option ℕ) (t : Tree)
      → ((j : ℕ) → contains j (inorder t) ≡ true → contains j is ≡ false)
      → Relinked is a b
      → IsAvl a cur t
      → IsAvl b cur t
  IsAvl-Relinked is a b cur t apart p h =
      IsAvl-frame a b cur t p.size (λ j m. p.outside j (apart j m)) h
