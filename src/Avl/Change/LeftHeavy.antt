-- ===== src/Avl/Change/LeftHeavy.antt =====
-- A node that is too deep on the left.
use mathlib.Core.List.{append_assoc}
use paradedb.Common.{
  if◌then◌else◌, ℕ, ◌+◌, ◌≤◌, ◌<◌, ◌≡◌, refl, sym, ◌∙◌, ap, true, false, some, [], ◌∷◌, ◌++◌,
  contains, IsDistinct, ltb, Bool-cases, inl, inr, Outcome, ok, ◌>>=◌, arith,
}
use paradedb.Avl.{Arena, in_range, l, r, set_l, u16_mod}
use paradedb.Avl.Tree.{Tree, leaf, node, depth, inorder, contains-right, contains-middle}
use paradedb.Avl.Change.{put, modify, balance_factor, rotate_right, rotate_left, rebalance_left}
use paradedb.Avl.Change.Shape.{
  l-set_l, r-set_l, IsAvl, Avoids, Avoids-node, Avoids-join, IsAvl-put, slot-put_same,
  slot-put_other, modify-ok, read-ok, balance_factor-ok,
}
use paradedb.Avl.Change.Relinked.{Relinked, Relinked-then, Relinked-set_l, Node}
use paradedb.Avl.Change.RotateRight.{rotate_right_lem}
use paradedb.Avl.Change.RotateLeft.{rotate_left_lem}
use paradedb.Avl.Change.Balanced.{
  Rebalanced, Node-IsAvl, Relinked-within, IsAvl-Relinked, within_right, within_double,
}
use paradedb.Avl.Change.Distinct.{IsDistinct-Parts}

flat_if : (m n : ℕ) → n ≤ m → ltb m n ≡ false
flat_if m n h = ground arith

module _ {ℓ} {V T : Type ℓ} where
  single_left :
      (a : Arena V T) (i x : ℕ) (t1 t2 u : Tree)
      → a.capacity < u16_mod
      → in_range a i ≡ true
      → IsAvl a (l (a.slot i)) (node x t1 t2)
      → IsAvl a (r (a.slot i)) u
      → IsDistinct (inorder (node i (node x t1 t2) u))
      → depth (node x t1 t2) ≡ depth u + 2
      → depth u < 120
      → depth t2 ≤ depth t1
      → Rebalanced a i (node x t1 t2) u (rotate_right a i)
  unfolding IsAvl inorder depth
  single_left a i x t1 t2 u c g (e, gx, hx, p, q, i1, i2) iu d two deep flat =
      let out = IsDistinct-Parts i (node x t1 t2) u d in
      let inn = IsDistinct-Parts x t1 t2 out.distinct_left in
      let i_in = Avoids-node i x t1 t2 out.from_left in
      let xu = out.left_right x (contains-middle x (inorder t1) (inorder t2)) in
      let (b, run, rel, n) =
        rotate_right_lem a i x t1 t2 u c g gx (ground (arith, i_in.1)) e i1 i2 iu
          (inn.from_left, inn.from_right, xu) (i_in.0, i_in.2, out.from_right) (omega arith)
          (omega arith) (omega arith) in
      (
        b,
        x,
        node x t1 (node i t2 u),
        run,
        Node-IsAvl b x t1 (node i t2 u) n (omega arith) (omega arith),
        sym (append_assoc (inorder t1) (x ∷ inorder t2) (i ∷ inorder u)),
        Relinked-within (x ∷ i ∷ []) _ a b (within_right x i t1 t2 u) rel,
        omega arith,
        omega arith,
        λ m k. omega arith,
      )

  double_left_at :
      (a : Arena V T) (i x z : ℕ) (t1 m1 m2 u : Tree)
      → a.capacity < u16_mod
      → in_range a i ≡ true
      → IsAvl a (l (a.slot i)) (node x t1 (node z m1 m2))
      → IsAvl a (r (a.slot i)) u
      → IsDistinct (inorder (node i (node x t1 (node z m1 m2)) u))
      → depth (node x t1 (node z m1 m2)) ≡ depth u + 2
      → depth u < 120
      → depth t1 < depth (node z m1 m2)
      → (b : Arena V T) → rotate_left a x ≡ ok (b, z)
      → Relinked (x ∷ z ∷ []) a b
      → Node b z (node x t1 m1) m2
      → Rebalanced a i (node x t1 (node z m1 m2)) u (do
        (a1, nl) ← rotate_left a x
        a2 ← modify a1 i (λ s. set_l s (some nl))
        rotate_right a2 i)
  unfolding IsAvl inorder depth
  double_left_at a i x z t1 m1 m2 u c g (e, gx, hx, p, q, i1, (ez, gz, hz, pz, qz, im1, im2)) iu d
        two deep tall b run rel n =
      let out = IsDistinct-Parts i (node x t1 (node z m1 m2)) u d in
      let mid = IsDistinct-Parts x t1 (node z m1 m2) out.distinct_left in
      let inn = IsDistinct-Parts z m1 m2 mid.distinct_right in
      let i_out = Avoids-node i x t1 (node z m1 m2) out.from_left in
      let i_mid = Avoids-node i z m1 m2 i_out.2 in
      let x_mid = Avoids-node x z m1 m2 mid.from_right in
      let z_t1 = mid.right_left z (contains-middle z (inorder m1) (inorder m2)) in
      let xu = out.left_right x (contains-middle x (inorder t1) (inorder m1 ++ z ∷ inorder m2)) in
      let zu = out.left_right z (
        contains-right z (inorder t1) (x ∷ (inorder m1 ++ z ∷ inorder m2))
          (ground (arith, contains-middle z (inorder m1) (inorder m2)))) in
      let i_left : Avoids i (node x t1 m1) = Avoids-join i x t1 m1 i_out.0 i_out.1 i_mid.0 in
      let ib : b.slot i ≡ a.slot i = rel.outside i (ground (arith, i_out.1, i_mid.1)) in
      let s = set_l (b.slot i) (some z) in
      let b2 = put b i s in
      let gb : in_range b i ≡ true = rw rel.size g in
      let at2 : b2.slot i ≡ s = slot-put_same b i s in
      let z2 : b2.slot z ≡ b.slot z = slot-put_other b i z s (ground (arith, i_mid.1)) in
      let li2 : l (b2.slot i) ≡ some z =
        rw at2 (l-set_l (b.slot i) (some z) (ground (arith, gz, c))) in
      let ri2 : r (b2.slot i) ≡ r (a.slot i) = ap r at2 ∙ r-set_l (b.slot i) (some z) ∙ ap r ib in
      let iu2 : IsAvl b2 (r (b2.slot i)) u = rw ri2 (
        IsAvl-put b _ u i s out.from_right (
          IsAvl-Relinked (x ∷ z ∷ []) a b _ u
            (λ j m.
              let away = Avoids-node j x t1 (node z m1 m2) (out.right_left j m) in
              ground (arith, away.1, (Avoids-node j z m1 m2 away.2).1))
            rel iu)) in
      let ix2 : IsAvl b2 (l (b2.slot z)) (node x t1 m1) =
        rw z2 (IsAvl-put b _ (node x t1 m1) i s i_left n.on_left) in
      let im2' : IsAvl b2 (r (b2.slot z)) m2 = rw z2 (IsAvl-put b _ m2 i s i_mid.2 n.on_right) in
      let (f, run2, rel2, n2) =
        rotate_right_lem b2 i z (node x t1 m1) m2 u (rw rel.size c) gb (rw rel.size gz)
          (ground (arith, i_mid.1)) li2 ix2 im2' iu2
          (Avoids-join z x t1 m1 z_t1 (ground (arith, x_mid.1)) inn.from_left, inn.from_right, zu)
          (i_left, i_mid.2, out.from_right) (omega arith) (omega arith) (omega arith) in
      let js = inorder (node z (node x t1 m1) (node i m2 u)) in
      let sub = within_double z x i t1 m1 m2 u in
      let has_i : contains i js ≡ true =
        contains-right i (inorder (node x t1 m1)) (z ∷ inorder (node i m2 u))
          (ground (arith, contains-middle i (inorder m2) (inorder u))) in
      (
        f,
        z,
        node z (node x t1 m1) (node i m2 u),
        rw run (rw (modify-ok b i (λ s. set_l s (some z)) gb) run2),
        Node-IsAvl f z (node x t1 m1) (node i m2 u) n2 (omega arith) (omega arith),
        simp append_assoc,
        Relinked-then js a b f
            (Relinked-within (x ∷ z ∷ []) js a b (λ j h. ground (arith, sub j h)) rel)
            (Relinked-then js b b2 f (Relinked-set_l js b i (some z) has_i)
              (Relinked-within (z ∷ i ∷ []) js b2 f (λ j h. ground (arith, sub j h)) rel2)),
        omega arith,
        omega arith,
        λ m k. omega arith,
      )

  double_left :
      (a : Arena V T) (i x z : ℕ) (t1 m1 m2 u : Tree)
      → a.capacity < u16_mod
      → in_range a i ≡ true
      → IsAvl a (l (a.slot i)) (node x t1 (node z m1 m2))
      → IsAvl a (r (a.slot i)) u
      → IsDistinct (inorder (node i (node x t1 (node z m1 m2)) u))
      → depth (node x t1 (node z m1 m2)) ≡ depth u + 2
      → depth u < 120
      → depth t1 < depth (node z m1 m2)
      → Rebalanced a i (node x t1 (node z m1 m2)) u (do
        (a1, nl) ← rotate_left a x
        a2 ← modify a1 i (λ s. set_l s (some nl))
        rotate_right a2 i)
  unfolding IsAvl inorder depth
  double_left a i x z t1 m1 m2 u c g (e, gx, hx, p, q, i1, (ez, gz, hz, pz, qz, im1, im2)) iu d two
        deep tall =
      let out = IsDistinct-Parts i (node x t1 (node z m1 m2)) u d in
      let mid = IsDistinct-Parts x t1 (node z m1 m2) out.distinct_left in
      let inn = IsDistinct-Parts z m1 m2 mid.distinct_right in
      let i_out = Avoids-node i x t1 (node z m1 m2) out.from_left in
      let i_mid = Avoids-node i z m1 m2 i_out.2 in
      let x_mid = Avoids-node x z m1 m2 mid.from_right in
      let z_t1 = mid.right_left z (contains-middle z (inorder m1) (inorder m2)) in
      let xu = out.left_right x (contains-middle x (inorder t1) (inorder m1 ++ z ∷ inorder m2)) in
      let zu = out.left_right z (
        contains-right z (inorder t1) (x ∷ (inorder m1 ++ z ∷ inorder m2))
          (ground (arith, contains-middle z (inorder m1) (inorder m2)))) in
      let (b, run, rel, n) =
        rotate_left_lem a x z t1 m1 m2 c gx gz (ground (arith, x_mid.1)) ez i1 im1 im2
          (mid.from_left, x_mid.0, x_mid.2) (z_t1, inn.from_left, inn.from_right) (omega arith)
          (omega arith) (omega arith) in
      double_left_at a i x z t1 m1 m2 u c g (e, gx, hx, p, q, i1, (ez, gz, hz, pz, qz, im1, im2)) iu
        d two deep tall b run rel n

  abbrev double_rotation_left : Arena V T → ℕ → ℕ → Outcome (Arena V T × ℕ)
  double_rotation_left a i x = do
    (a1, nl) ← rotate_left a x
    a2 ← modify a1 i (λ s. set_l s (some nl))
    rotate_right a2 i

  rebalance_left-step :
      (a : Arena V T) (i x p q : ℕ)
      → in_range a i ≡ true
      → l (a.slot i) ≡ some x
      → balance_factor a x ≡ ok (p, q)
      → rebalance_left a i ≡ (if ltb p q then double_rotation_left a i x else rotate_right a i)
  unfolding rebalance_left
  rebalance_left-step a i x p q g e b = rw (read-ok a i g) (rw e (rw b refl))

  pub rebalance_left_lem :
      (a : Arena V T) (i : ℕ) (t u : Tree)
      → a.capacity < u16_mod
      → in_range a i ≡ true
      → IsAvl a (l (a.slot i)) t
      → IsAvl a (r (a.slot i)) u
      → IsDistinct (inorder (node i t u))
      → depth t ≡ depth u + 2
      → depth u < 120
      → Rebalanced a i t u (rebalance_left a i)
  unfolding IsAvl depth
  rebalance_left_lem a i leaf u c g it iu d two deep = absurd (omega arith)
  rebalance_left_lem a i (node x t1 leaf) u c g it iu d two deep =
      let (e, gx, hx, p, q, i1, i2) = it in
      rw (rebalance_left-step a i x _ _ g e (balance_factor-ok a x t1 leaf gx i1 i2)) (
        rw (flat_if (depth t1) 0 (omega arith))
          (single_left a i x t1 leaf u c g it iu d two deep (omega arith)))
  rebalance_left_lem a i (node x t1 (node z m1 m2)) u c g it iu d two deep =
      let (e, gx, hx, p, q, i1, i2) = it in
      rw (rebalance_left-step a i x _ _ g e (balance_factor-ok a x t1 (node z m1 m2) gx i1 i2))
        (elim (Bool-cases (ltb (depth t1) (depth (node z m1 m2)))) [
          | inl tall ↦ rw tall (double_left a i x z t1 m1 m2 u c g it iu d two deep (ground arith))
          | inr flat ↦
              rw flat (single_left a i x t1 (node z m1 m2) u c g it iu d two deep (ground arith))
        ])
