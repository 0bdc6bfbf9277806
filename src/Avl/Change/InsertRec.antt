-- ===== src/Avl/Change/InsertRec.antt =====
-- `insert_rec` by induction: a subtree takes the key or updates it, or there is no free slot.
use paradedb.Common.{
  ℕ, zero, suc, ◌+◌, ◌≤◌, ◌<◌, ◌≡◌, ◌≢◌, refl, ap, ◌⊎◌, inl, inr, true, Option, some, List, ◌∷◌,
  ◌++◌, count, count-append, IsDistinct, All, All-append, All-imp, ◌==◌, ltb, ltb→lt, if◌then◌else◌,
  Bool-cases, Outcome, arith,
}
use paradedb.Avl.{Arena, in_range, l, r, set_l, set_r, u16_mod}
use paradedb.Avl.Tree.{Tree, leaf, node, depth, inorder, key_at, IsOrdered}
use paradedb.Avl.Change.{and_then, Inserted, hang_inserted, insert_rec}
use paradedb.Avl.Change.Shape.{IsAvl}
use paradedb.Avl.Change.Insert.{FreeList, InsertResult, insert_rec-lt, insert_rec-gt}
use paradedb.Avl.Change.Hang.{hang_left, count-middle}
use paradedb.Avl.Change.HangRight.{hang_right}
use paradedb.Avl.Change.Subtree.{insert_leaf, insert_same}

pub compare-cases : (m n : ℕ) → (m < n) ⊎ ((n ≡ m) ⊎ (n < m))
compare-cases m n = elim (Bool-cases (ltb m n)) [
  | inl a ↦ inl (ltb→lt m n a)
  | inr a ↦ elim (Bool-cases (ltb n m)) [
    | inl b ↦ inr (inr (ltb→lt n m b))
    | inr b ↦ inr (inl (ground arith))
  ]
]

IsDistinct-left :
    (i : ℕ) (t u : Tree) (fs : List ℕ)
    → IsDistinct (inorder (node i t u) ++ fs)
    → IsDistinct (inorder t ++ fs) × IsDistinct (inorder u ++ fs)
unfolding inorder
IsDistinct-left i t u fs d =
    let total : (j : ℕ)
        → count j (inorder t) + (if j == i then 1 else 0) + count j (inorder u) + count j fs ≤ 1 =
      λ j. omega (
        arith,
        d j,
        count-append j (inorder t ++ i ∷ inorder u) fs,
        count-middle j i (inorder t) (inorder u),
      ) in
    (
      λ j. omega (arith, total j, count-append j (inorder t) fs),
      λ j. omega (arith, total j, count-append j (inorder u) fs),
    )

module _ {ℓ} {V T : Type ℓ} where
  -- A result on the left subtree is carried up to the node.
  insert_left :
      (a : Arena V T) (free : Option ℕ) (fs : List ℕ) (i0 : ℕ) (t u : Tree) (key : ℕ) (val : V)
      → a.capacity < u16_mod
      → in_range a i0 ≡ true
      → IsDistinct (inorder (node i0 t u) ++ fs)
      → depth t < 120
      → depth u < 120
      → depth t ≤ depth u + 1
      → depth u ≤ depth t + 1
      → IsAvl a (r (a.slot i0)) u
      → key < key_at a i0
      → All (λ j. key_at a i0 < key_at a j) (inorder u)
      → (result : Option (Outcome (Inserted V T))) → InsertResult a free fs t key val result
      → InsertResult a free fs
          (node i0 t u)
          key
          val
          (and_then result (λ rec. some (hang_inserted i0 set_l rec)))
  unfolding inorder
  insert_left a free fs i0 t u key val c g d dt du p q iu k hi result (inl (out, t1, i, e, s)) =
      let (out', t2, run, s') =
        hang_left a free fs i0 t u key val c g d dt du p q out t1 i iu k hi s in
      inl (out', t2, i, rw e (ap some run), s')
  insert_left a free fs i0 t u key val c g d dt du p q iu k hi result (inr (e, none_free, absent)) =
      inr (
        rw e refl,
        none_free,
        All-append (λ j. key_at a j ≢ key) (inorder t) (i0 ∷ inorder u) absent
            (
              omega arith,
              All-imp (λ j. key_at a i0 < key_at a j) (λ j. key_at a j ≢ key) (λ j m. omega arith)
                  (inorder u) hi,
            ),
      )

  insert_right :
      (a : Arena V T) (free : Option ℕ) (fs : List ℕ) (i0 : ℕ) (t u : Tree) (key : ℕ) (val : V)
      → a.capacity < u16_mod
      → in_range a i0 ≡ true
      → IsDistinct (inorder (node i0 t u) ++ fs)
      → depth t < 120
      → depth u < 120
      → depth t ≤ depth u + 1
      → depth u ≤ depth t + 1
      → IsAvl a (l (a.slot i0)) t
      → key_at a i0 < key
      → All (λ j. key_at a j < key_at a i0) (inorder t)
      → (result : Option (Outcome (Inserted V T))) → InsertResult a free fs u key val result
      → InsertResult a free fs
          (node i0 t u)
          key
          val
          (and_then result (λ rec. some (hang_inserted i0 set_r rec)))
  unfolding inorder
  insert_right a free fs i0 t u key val c g d dt du p q it k lo result (inl (out, u1, i, e, s)) =
      let (out', t2, run, s') =
        hang_right a free fs i0 t u key val c g d dt du p q out u1 i it k lo s in
      inl (out', t2, i, rw e (ap some run), s')
  insert_right a free fs i0 t u key val c g d dt du p q it k lo result
        (inr (e, none_free, absent)) =
      inr (
        rw e refl,
        none_free,
        All-append (λ j. key_at a j ≢ key) (inorder t) (i0 ∷ inorder u)
            (All-imp (λ j. key_at a j < key_at a i0) (λ j. key_at a j ≢ key) (λ j m. omega arith)
              (inorder t) lo)
            (omega arith, absent),
      )

  pub insert_rec_lem :
      (fuel : ℕ) (a : Arena V T) (free : Option ℕ) (fs : List ℕ) (cur : Option ℕ) (t : Tree)
      (key : ℕ) (val : V)
      → a.capacity < u16_mod
      → depth t < fuel
      → depth t ≤ 120
      → IsAvl a cur t
      → FreeList a free fs
      → IsDistinct (inorder t ++ fs)
      → IsOrdered a t
      → InsertResult a free fs t key val (insert_rec fuel a free cur key val)
  unfolding IsAvl IsOrdered depth
  insert_rec_lem zero a free fs cur t key val c p q h f d o = absurd (omega arith)
  insert_rec_lem (suc fuel) a free fs cur leaf key val c p q h f d o =
      rw h (insert_leaf fuel a free fs key val f)
  insert_rec_lem (suc fuel) a free fs cur (node i t u) key val c p q h f d (lo, hi, ot, ou) =
      let (e, g, tall, b1, b2, it, iu) = h in
      let apart = IsDistinct-left i t u fs d in
      let on_left =
        insert_rec_lem fuel a free fs (l (a.slot i)) t key val c (omega arith) (omega arith) it f
          (apart.0) ot in
      let on_right =
        insert_rec_lem fuel a free fs (r (a.slot i)) u key val c (omega arith) (omega arith) iu f
          (apart.1) ou in
      elim (compare-cases key (key_at a i)) [
        | inl k ↦ rw e (
            rw (insert_rec-lt fuel a free i key val g k) (
              insert_left a free fs i t u key val c g d (omega arith) (omega arith) b1 b2 iu k hi _
                on_left))
        | inr (inl k) ↦ insert_same fuel a free fs cur i t u key val h k
        | inr (inr k) ↦ rw e (
            rw (insert_rec-gt fuel a free i key val g k) (
              insert_right a free fs i t u key val c g d (omega arith) (omega arith) b1 b2 it k lo _
                on_right))
      ]
