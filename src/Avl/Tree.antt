-- ===== src/Avl/Tree.antt =====
-- The tree that an arena represents, and what it means to be ordered.
use paradedb.Common.{
  ℕ, suc, ◌<◌, ◌≡◌, max, true, Option, none, some, List, [], ◌∷◌, ◌++◌, All, contains, ==→eq, ◌==◌,
  Bool-cases, inl, inr, arith,
}
use paradedb.Avl.{Arena, l, r, in_range}

-- The shape of a tree, with the index of the slot of each node.
pub data Tree : Type 0 where
  leaf : Tree
  node : ℕ → Tree → Tree → Tree

unfoldable pub depth : Tree → ℕ
depth leaf = 0
depth (node i t u) = suc (max (depth t) (depth u))

unfoldable pub inorder : Tree → List ℕ
inorder leaf = []
inorder (node i t u) = inorder t ++ i ∷ inorder u

module _ {ℓ} {V T : Type ℓ} (a : Arena V T) where
  abbrev pub key_at : ℕ → ℕ
  key_at i = (a.slot i).key

  -- The links from a root lead through the tree, and every index is in range.
  unfoldable pub Represents : Option ℕ → Tree → Type 0
  Represents cur leaf = cur ≡ none
  Represents cur (node i t u) =
      (cur ≡ some i)
      × (in_range a i ≡ true)
      × Represents (l (a.slot i)) t
      × Represents (r (a.slot i)) u

  unfoldable pub IsOrdered : Tree → Type 0
  unfolding inorder
  IsOrdered leaf = Unit
  IsOrdered (node i t u) =
      All (λ j. key_at j < key_at i) (inorder t)
      × All (λ j. key_at i < key_at j) (inorder u)
      × IsOrdered t
      × IsOrdered u

pub contains-left : (i : ℕ) (xs ys : List ℕ) → contains i xs ≡ true → contains i (xs ++ ys) ≡ true
contains-left i [] ys h = cc
contains-left i (x ∷ xs) ys h = ground (arith, contains-left i xs ys)

pub contains-right : (i : ℕ) (xs ys : List ℕ) → contains i ys ≡ true → contains i (xs ++ ys) ≡ true
contains-right i [] ys h = h
contains-right i (x ∷ xs) ys h = ground (arith, contains-right i xs ys)

pub contains-middle : (i : ℕ) (xs ys : List ℕ) → contains i (xs ++ i ∷ ys) ≡ true
contains-middle i xs ys = contains-right i xs (i ∷ ys) (ground arith)

module _ (P : ℕ → Type 0) where
  pub All-contains : (i : ℕ) (xs : List ℕ) → All P xs → contains i xs ≡ true → P i
  All-contains i [] h c = cc
  All-contains i (x ∷ xs) h c = elim (Bool-cases (i == x)) [
    | inl e ↦ rw (==→eq i x e) h.0
    | inr e ↦ All-contains i xs h.1 (ground arith)
  ]
