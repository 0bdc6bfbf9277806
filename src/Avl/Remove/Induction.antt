-- ===== src/Avl/Remove/Induction.antt =====
-- `delete_rec` by induction: a subtree loses the entry of the key, or has none.
use paradedb.Common.{
  ℕ, zero, suc, ◌+◌, ◌≤◌, ◌<◌, ◌≡◌, refl, inl, inr, true, false, Option, none, some, IsDistinct,
  All, arith,
}
use paradedb.Avl.{Arena, in_range, l, r, u16_mod}
use paradedb.Avl.Tree.{Tree, leaf, node, depth, inorder, key_at, IsOrdered}
use paradedb.Avl.Change.Shape.{Fits, IsAvl}
use paradedb.Avl.Change.Distinct.{IsDistinct-Parts}
use paradedb.Avl.Change.InsertRec.{compare-cases}
use paradedb.Avl.Change.Entries.{lookup}
use paradedb.Avl.Remove.{delete_rec}
use paradedb.Avl.Remove.Entries.{remove_entry}
use paradedb.Avl.Remove.Sides.{DeleteResult, delete_left, delete_right}
use paradedb.Avl.Remove.DeleteRec.{
  delete_rec-lt, delete_rec-gt, delete_no_left, delete_no_right, delete_both,
}

module _ {ℓ} {V T : Type ℓ} where
  delete_none :
      (fuel : ℕ) (a : Arena V T) (free : Option ℕ) (key : ℕ)
      → DeleteResult a free leaf key (delete_rec (suc fuel) a free none key)
  unfolding delete_rec remove_entry lookup inorder IsAvl depth
  delete_none fuel a free key = (
    record { arena = a; free_head = free; root = none; removed_val = none; did_remove = false },
    leaf,
    refl,
    record {
      avl = refl;
      low = omega arith;
      high = omega arith;
      size = refl;
      outside = λ j h. refl;
      left = refl;
      shrunk = λ j. omega arith;
      place = inl (refl, refl, refl);
    },
    refl,
    refl,
  )

  -- A node with the key.
  delete_same :
      (fuel : ℕ) (a : Arena V T) (free : Option ℕ) (i : ℕ) (t u : Tree) (key : ℕ)
      → a.capacity < u16_mod
      → Fits free
      → in_range a i ≡ true
      → IsDistinct (inorder (node i t u))
      → depth t < 120
      → depth u < 120
      → depth u ≤ fuel
      → depth t ≤ depth u + 1
      → depth u ≤ depth t + 1
      → IsAvl a (l (a.slot i)) t
      → IsAvl a (r (a.slot i)) u
      → key_at a i ≡ key
      → All (λ j. key_at a j < key_at a i) (inorder t)
      → IsOrdered a u
      → ((b : Arena V T) (k : ℕ)
          → b.capacity < u16_mod
          → IsAvl b (r (a.slot i)) u
          → IsOrdered b u
          → DeleteResult b free u k (delete_rec fuel b free (r (a.slot i)) k))
      → DeleteResult a free (node i t u) key (delete_rec (suc fuel) a free (some i) key)
  unfolding IsAvl
  delete_same fuel a free i leaf u key c fits g d dt du f p q it iu k lo ou rec =
      delete_no_left fuel a free i u key g fits d k it iu
  delete_same fuel a free i (node x t1 t2) leaf key c fits g d dt du f p q it iu k lo ou rec =
      delete_no_right fuel a free i x (node x t1 t2) key g fits d k lo (it.0) iu it
  delete_same fuel a free i (node x t1 t2) (node y u1 u2) key c fits g d dt du f p q it iu k lo ou
        rec =
      delete_both fuel a free i x y (node x t1 t2) u1 u2 key c g d dt du f p q it iu (it.0) (iu.0) k
        lo ou rec

  pub delete_rec_lem :
      (fuel : ℕ) (a : Arena V T) (free : Option ℕ) (cur : Option ℕ) (t : Tree) (key : ℕ)
      → a.capacity < u16_mod
      → Fits free
      → depth t < fuel
      → depth t ≤ 120
      → IsAvl a cur t
      → IsDistinct (inorder t)
      → IsOrdered a t
      → DeleteResult a free t key (delete_rec fuel a free cur key)
  unfolding IsAvl IsOrdered depth
  delete_rec_lem zero a free cur t key c fits p q h d o = absurd (omega arith)
  delete_rec_lem (suc fuel) a free cur leaf key c fits p q h d o =
      rw h (delete_none fuel a free key)
  delete_rec_lem (suc fuel) a free cur (node i t u) key c fits p q h d (lo, hi, ot, ou) =
      let (e, g, tall, b1, b2, it, iu) = h in
      let parts = IsDistinct-Parts i t u d in
      let on_left =
        delete_rec_lem fuel a free (l (a.slot i)) t key c fits (omega arith) (omega arith) it
          parts.distinct_left ot in
      let on_right =
        delete_rec_lem fuel a free (r (a.slot i)) u key c fits (omega arith) (omega arith) iu
          parts.distinct_right ou in
      elim (compare-cases key (key_at a i)) [
        | inl k ↦ rw e (
            rw (delete_rec-lt fuel a free i key g k) (
              delete_left a free i t u key c g d (omega arith) (omega arith) b1 b2 iu k hi _
                on_left))
        | inr (inl k) ↦ rw e (
            delete_same fuel a free i t u key c fits g d (omega arith) (omega arith) (omega arith)
              b1 b2 it iu k lo ou
              (λ b k' c' h' o'.
                delete_rec_lem fuel b free (r (a.slot i)) u k' c' fits (omega arith) (omega arith)
                  h' parts.distinct_right o'))
        | inr (inr k) ↦ rw e (
            rw (delete_rec-gt fuel a free i key g k) (
              delete_right a free i t u key c g d (omega arith) (omega arith) b1 b2 it k lo _
                on_right))
      ]
