-- ===== src/Avl/Change/Rebalance.antt =====
-- `rebalance` restores the balance of a node whose subtrees differ by two at most in depth.
use paradedb.Common.{
  ℕ, ◌+◌, ◌≤◌, ◌<◌, ◌≡◌, refl, true, IsDistinct, ltb, if◌then◌else◌, Bool-cases, inl, inr, Outcome,
  ok, arith,
}
use paradedb.Avl.{Arena, in_range, l, r, set_height, u16_mod}
use paradedb.Avl.Tree.{Tree, node, depth, inorder, contains-middle}
use paradedb.Avl.Change.{
  put, balance_factor, update_height, rebalance_left, rebalance_right, rebalance,
}
use paradedb.Avl.Change.Shape.{
  links-set_height, height-set_height, IsAvl, IsAvl-put, slot-put_same, update_height-ok,
  balance_factor-ok,
}
use paradedb.Avl.Change.Relinked.{Relinked, Relinked-refl, Relinked-then, Relinked-set_height}
use paradedb.Avl.Change.Balanced.{Rebalanced, Node-IsAvl}
use paradedb.Avl.Change.LeftHeavy.{rebalance_left_lem}
use paradedb.Avl.Change.RightHeavy.{rebalance_right_lem}
use paradedb.Avl.Change.Distinct.{IsDistinct-Parts}

module _ {ℓ} {V T : Type ℓ} where
  rebalance-step :
      (a a1 : Arena V T) (i p q : ℕ)
      → update_height a i ≡ ok a1
      → balance_factor a1 i ≡ ok (p, q)
      → rebalance a i ≡ (
          if ltb (q + 1) p
          then rebalance_left a1 i
          else if ltb (p + 1) q
          then rebalance_right a1 i
          else ok (a1, i))
  unfolding rebalance
  rebalance-step a a1 i p q e f = rw e (rw f refl)

  -- The write of the height comes first.
  Rebalanced-after :
      (a : Arena V T) (i h : ℕ) (t u : Tree) (result : Outcome (Arena V T × ℕ))
      → Rebalanced (put a i (set_height (a.slot i) h)) i t u result
      → Rebalanced a i t u result
  Rebalanced-after a i h t u result (b, i', t', run, avl, order, rel, low, high, same) =
      let a1 = put a i (set_height (a.slot i) h) in
      (
        b,
        i',
        t',
        run,
        avl,
        order,
        Relinked-then (inorder t') a a1 b
            (Relinked-set_height (inorder t') a i h
              (rw order (contains-middle i (inorder t) (inorder u))))
            rel,
        low,
        high,
        same,
      )

  pub rebalance_lem :
      (a : Arena V T) (i : ℕ) (t u : Tree)
      → a.capacity < u16_mod
      → in_range a i ≡ true
      → IsAvl a (l (a.slot i)) t
      → IsAvl a (r (a.slot i)) u
      → IsDistinct (inorder (node i t u))
      → depth t ≤ depth u + 2
      → depth u ≤ depth t + 2
      → depth t < 122
      → depth u < 122
      → Rebalanced a i t u (rebalance a i)
  unfolding depth inorder
  rebalance_lem a i t u c g it iu d p q dt du =
      let h = depth (node i t u) in
      let a1 = put a i (set_height (a.slot i) h) in
      let at1 : a1.slot i ≡ set_height (a.slot i) h = slot-put_same a i (set_height (a.slot i) h) in
      let parts = IsDistinct-Parts i t u d in
      let links = links-set_height (a.slot i) h in
      let it1 : IsAvl a1 (l (a1.slot i)) t =
        rw at1 (rw (links.0) (IsAvl-put a _ t i _ parts.from_left it)) in
      let iu1 : IsAvl a1 (r (a1.slot i)) u =
        rw at1 (rw (links.1) (IsAvl-put a _ u i _ parts.from_right iu)) in
      rw
        (rebalance-step a a1 i (depth t) (depth u) (update_height-ok a i t u g it iu)
          (balance_factor-ok a1 i t u g it1 iu1))
        (elim (Bool-cases (ltb (depth u + 1) (depth t))) [
          | inl left ↦ rw left (
              Rebalanced-after a i h t u _
                (rebalance_left_lem a1 i t u c g it1 iu1 d (ground arith) (ground arith)))
          | inr flat ↦ rw flat (elim (Bool-cases (ltb (depth t + 1) (depth u))) [
            | inl right ↦ rw right (
                Rebalanced-after a i h t u _
                  (rebalance_right_lem a1 i t u c g it1 iu1 d (ground arith) (ground arith)))
            | inr even ↦ rw even (
                Rebalanced-after a i h t u _ (
                  a1,
                  i,
                  node i t u,
                  refl,
                  Node-IsAvl a1 i t u
                      (record {
                        inside = g;
                        high = rw at1 (height-set_height (a.slot i) h (omega arith));
                        on_left = it1;
                        on_right = iu1;
                      })
                      (ground arith) (ground arith),
                  refl,
                  Relinked-refl (inorder (node i t u)) a1,
                  omega arith,
                  omega arith,
                  λ m k. omega arith,
                ))
          ])
        ])
