-- ===== src/Avl/Change/Depth.antt =====
-- A balanced tree of fewer than 2 ^ 16 nodes is 33 deep at most.
use paradedb.Common.{
  ℕ, zero, suc, ◌+◌, ◌*◌, ◌≤◌, ◌<◌, ◌≡◌, Option, ◌∷◌, length, length-append, leb, Bool-cases, inl,
  inr, arith,
}
use paradedb.Avl.{Arena, l, r}
use paradedb.Avl.Tree.{Tree, leaf, node, depth, inorder}
use paradedb.Avl.Change.Shape.{IsAvl}

abbrev two_to : ℕ → ℕ
two_to zero = 1
two_to (suc k) = two_to k + two_to k

length-node :
    (i : ℕ) (t u : Tree)
    → length (inorder (node i t u)) ≡ length (inorder t) + 1 + length (inorder u)
unfolding inorder
length-node i t u = omega (arith, length-append (inorder t) (i ∷ inorder u))

module _ {ℓ} {V T : Type ℓ} where
  -- Two levels double the number of nodes.
  size-depth :
      (a : Arena V T) (cur : Option ℕ) (t : Tree) (k : ℕ)
      → IsAvl a cur t
      → 2 * k ≤ depth t
      → two_to k ≤ length (inorder t) + 1
  unfolding IsAvl depth
  size-depth a cur t zero h d = omega arith
  size-depth a cur leaf (suc k) h d = absurd (omega arith)
  size-depth a cur (node i t u) (suc k) (e, g, tall, p, q, it, iu) d = omega (
    arith,
    size-depth a (l (a.slot i)) t k it (omega arith),
    size-depth a (r (a.slot i)) u k iu (omega arith),
    length-node i t u,
  )

  pub depth_lem :
      (a : Arena V T) (cur : Option ℕ) (t : Tree)
      → IsAvl a cur t
      → length (inorder t) < 65536
      → depth t ≤ 33
  depth_lem a cur t h s = elim (Bool-cases (leb 34 (depth t))) [
    | inl deep ↦ absurd (omega (arith, size-depth a cur t 17 h (ground arith)))
    | inr low ↦ ground arith
  ]
