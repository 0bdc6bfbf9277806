-- ===== src/Avl/Change/Distinct.antt =====
-- Trees whose nodes have slots of their own.
use paradedb.Common.{
  ℕ, ◌+◌, ◌≤◌, ◌≡◌, refl, true, false, List, [], ◌∷◌, ◌++◌, contains, count, count-append,
  contains-eq-true, IsDistinct, ◌==◌, ==_refl, if◌then◌else◌, arith,
}
use paradedb.Avl.Tree.{Tree, node, inorder}
use paradedb.Avl.Change.Shape.{Avoids}

pub contains-count_zero : (j : ℕ) (xs : List ℕ) → count j xs ≡ 0 → contains j xs ≡ false
contains-count_zero j [] h = refl
contains-count_zero j (x ∷ xs) h = ground (arith, contains-count_zero j xs)

count-node :
    (j i : ℕ) (xs ys : List ℕ)
    → count j (xs ++ i ∷ ys) ≡ count j xs + (if j == i then 1 else 0) + count j ys
count-node j i xs ys = omega (arith, count-append j xs (i ∷ ys))

-- The index of a node, and those of its subtrees, are apart.
pub record Parts (i : ℕ) (t u : Tree) : Type 0 where
  pub from_left : Avoids i t
  pub from_right : Avoids i u
  pub left_right : (j : ℕ) → contains j (inorder t) ≡ true → Avoids j u
  pub right_left : (j : ℕ) → contains j (inorder u) ≡ true → Avoids j t
  pub distinct_left : IsDistinct (inorder t)
  pub distinct_right : IsDistinct (inorder u)

pub IsDistinct-Parts : (i : ℕ) (t u : Tree) → IsDistinct (inorder (node i t u)) → Parts i t u
unfolding inorder
IsDistinct-Parts i t u h =
    let parts : (j : ℕ)
        → count j (inorder t) + (if j == i then 1 else 0) + count j (inorder u) ≤ 1 =
      λ j. omega (arith, h j, count-node j i (inorder t) (inorder u)) in
    record {
      from_left = contains-count_zero i (inorder t) (ground (arith, parts i, ==_refl i));
      from_right = contains-count_zero i (inorder u) (ground (arith, parts i, ==_refl i));
      left_right = λ j c.
          contains-count_zero j (inorder u)
            (omega (arith, parts j, contains-eq-true j (inorder t) c));
      right_left = λ j c.
          contains-count_zero j (inorder t)
            (omega (arith, parts j, contains-eq-true j (inorder u) c));
      distinct_left = λ j. omega (arith, parts j);
      distinct_right = λ j. omega (arith, parts j);
    }
