-- ===== src/Avl/Change/RightHeavy.antt =====
-- A node that is too deep on the right.
use mathlib.Core.List.{append_assoc}
use paradedb.Common.{
  if◌then◌else◌, ℕ, ◌+◌, ◌≤◌, ◌<◌, ◌≡◌, refl, ◌∙◌, ap, true, false, some, [], ◌∷◌, ◌++◌, contains,
  IsDistinct, ltb, Bool-cases, inl, inr, Outcome, ok, ◌>>=◌, arith,
}
use paradedb.Avl.{Arena, in_range, l, r, set_r, u16_mod}
use paradedb.Avl.Tree.{Tree, leaf, node, depth, inorder, contains-left, contains-middle}
use paradedb.Avl.Change.{put, modify, balance_factor, rotate_right, rotate_left, rebalance_right}
use paradedb.Avl.Change.Shape.{
  r-set_r, l-set_r, IsAvl, Avoids, Avoids-node, Avoids-join, IsAvl-put, slot-put_same,
  slot-put_other, modify-ok, read-ok, balance_factor-ok,
}
use paradedb.Avl.Change.Relinked.{Relinked, Relinked-then, Relinked-set_r, Node}
use paradedb.Avl.Change.RotateRight.{rotate_right_lem}
use paradedb.Avl.Change.RotateLeft.{rotate_left_lem}
use paradedb.Avl.Change.Balanced.{
  Rebalanced, Node-IsAvl, Relinked-within, IsAvl-Relinked, within_double, within_left,
}
use paradedb.Avl.Change.Distinct.{IsDistinct-Parts}

flat_if : (m n : ℕ) → n ≤ m → ltb m n ≡ false
flat_if m n h = ground arith

module _ {ℓ} {V T : Type ℓ} where
  single_right :
      (a : Arena V T) (i x : ℕ) (u t1 t2 : Tree)
      → a.capacity < u16_mod
      → in_range a i ≡ true
      → IsAvl a (l (a.slot i)) u
      → IsAvl a (r (a.slot i)) (node x t1 t2)
      → IsDistinct (inorder (node i u (node x t1 t2)))
      → depth (node x t1 t2) ≡ depth u + 2
      → depth u < 120
      → depth t1 ≤ depth t2
      → Rebalanced a i u (node x t1 t2) (rotate_left a i)
  unfolding IsAvl inorder depth
  single_right a i x u t1 t2 c g iu (e, gx, hx, p, q, i1, i2) d two deep flat =
      let out = IsDistinct-Parts i u (node x t1 t2) d in
      let inn = IsDistinct-Parts x t1 t2 out.distinct_right in
      let i_in = Avoids-node i x t1 t2 out.from_right in
      let xu = out.right_left x (contains-middle x (inorder t1) (inorder t2)) in
      let (b, run, rel, n) =
        rotate_left_lem a i x u t1 t2 c g gx (ground (arith, i_in.1)) e iu i1 i2
          (out.from_left, i_in.0, i_in.2) (xu, inn.from_left, inn.from_right) (omega arith)
          (omega arith) (omega arith) in
      (
        b,
        x,
        node x (node i u t1) t2,
        run,
        Node-IsAvl b x (node i u t1) t2 n (omega arith) (omega arith),
        append_assoc (inorder u) (i ∷ inorder t1) (x ∷ inorder t2),
        Relinked-within (i ∷ x ∷ []) _ a b (within_left x i u t1 t2) rel,
        omega arith,
        omega arith,
        λ m k. omega arith,
      )

  double_right_at :
      (a : Arena V T) (i x z : ℕ) (u m1 m2 t2 : Tree)
      → a.capacity < u16_mod
      → in_range a i ≡ true
      → IsAvl a (l (a.slot i)) u
      → IsAvl a (r (a.slot i)) (node x (node z m1 m2) t2)
      → IsDistinct (inorder (node i u (node x (node z m1 m2) t2)))
      → depth (node x (node z m1 m2) t2) ≡ depth u + 2
      → depth u < 120
      → depth t2 < depth (node z m1 m2)
      → (b : Arena V T) → rotate_right a x ≡ ok (b, z)
      → Relinked (z ∷ x ∷ []) a b
      → Node b z m1 (node x m2 t2)
      → Rebalanced a i u (node x (node z m1 m2) t2) (do
        (a1, nr) ← rotate_right a x
        a2 ← modify a1 i (λ s. set_r s (some nr))
        rotate_left a2 i)
  unfolding IsAvl inorder depth
  double_right_at a i x z u m1 m2 t2 c g iu (e, gx, hx, p, q, (ez, gz, hz, pz, qz, im1, im2), i2) d
        two deep tall b run rel n =
      let out = IsDistinct-Parts i u (node x (node z m1 m2) t2) d in
      let mid = IsDistinct-Parts x (node z m1 m2) t2 out.distinct_right in
      let inn = IsDistinct-Parts z m1 m2 mid.distinct_left in
      let i_out = Avoids-node i x (node z m1 m2) t2 out.from_right in
      let i_mid = Avoids-node i z m1 m2 i_out.0 in
      let x_mid = Avoids-node x z m1 m2 mid.from_left in
      let z_t2 = mid.left_right z (contains-middle z (inorder m1) (inorder m2)) in
      let zu = out.right_left z (
        contains-left z (inorder m1 ++ z ∷ inorder m2) (x ∷ inorder t2)
          (contains-middle z (inorder m1) (inorder m2))) in
      let i_right : Avoids i (node x m2 t2) = Avoids-join i x m2 t2 i_mid.2 i_out.1 i_out.2 in
      let ib : b.slot i ≡ a.slot i = rel.outside i (ground (arith, i_out.1, i_mid.1)) in
      let s = set_r (b.slot i) (some z) in
      let b2 = put b i s in
      let gb : in_range b i ≡ true = rw rel.size g in
      let at2 : b2.slot i ≡ s = slot-put_same b i s in
      let z2 : b2.slot z ≡ b.slot z = slot-put_other b i z s (ground (arith, i_mid.1)) in
      let ri2 : r (b2.slot i) ≡ some z =
        rw at2 (r-set_r (b.slot i) (some z) (ground (arith, gz, c))) in
      let li2 : l (b2.slot i) ≡ l (a.slot i) = ap l at2 ∙ l-set_r (b.slot i) (some z) ∙ ap l ib in
      let iu2 : IsAvl b2 (l (b2.slot i)) u = rw li2 (
        IsAvl-put b _ u i s out.from_left (
          IsAvl-Relinked (z ∷ x ∷ []) a b _ u
            (λ j m.
              let away = Avoids-node j x (node z m1 m2) t2 (out.left_right j m) in
              ground (arith, away.1, (Avoids-node j z m1 m2 away.0).1))
            rel iu)) in
      let im1' : IsAvl b2 (l (b2.slot z)) m1 = rw z2 (IsAvl-put b _ m1 i s i_mid.0 n.on_left) in
      let ix2 : IsAvl b2 (r (b2.slot z)) (node x m2 t2) =
        rw z2 (IsAvl-put b _ (node x m2 t2) i s i_right n.on_right) in
      let (f, run2, rel2, n2) =
        rotate_left_lem b2 i z u m1 (node x m2 t2) (rw rel.size c) gb (rw rel.size gz)
          (ground (arith, i_mid.1)) ri2 iu2 im1' ix2 (out.from_left, i_mid.0, i_right)
          (zu, inn.from_left, Avoids-join z x m2 t2 inn.from_right (ground (arith, x_mid.1)) z_t2)
          (omega arith) (omega arith) (omega arith) in
      let js = inorder (node z (node i u m1) (node x m2 t2)) in
      let sub = within_double z i x u m1 m2 t2 in
      let has_i : contains i js ≡ true =
        contains-left i (inorder (node i u m1)) (z ∷ inorder (node x m2 t2))
          (contains-middle i (inorder u) (inorder m1)) in
      (
        f,
        z,
        node z (node i u m1) (node x m2 t2),
        rw run (rw (modify-ok b i (λ s. set_r s (some z)) gb) run2),
        Node-IsAvl f z (node i u m1) (node x m2 t2) n2 (omega arith) (omega arith),
        simp append_assoc,
        Relinked-then js a b f
            (Relinked-within (z ∷ x ∷ []) js a b (λ j h. ground (arith, sub j h)) rel)
            (Relinked-then js b b2 f (Relinked-set_r js b i (some z) has_i)
              (Relinked-within (i ∷ z ∷ []) js b2 f (λ j h. ground (arith, sub j h)) rel2)),
        omega arith,
        omega arith,
        λ m k. omega arith,
      )

  double_right :
      (a : Arena V T) (i x z : ℕ) (u m1 m2 t2 : Tree)
      → a.capacity < u16_mod
      → in_range a i ≡ true
      → IsAvl a (l (a.slot i)) u
      → IsAvl a (r (a.slot i)) (node x (node z m1 m2) t2)
      → IsDistinct (inorder (node i u (node x (node z m1 m2) t2)))
      → depth (node x (node z m1 m2) t2) ≡ depth u + 2
      → depth u < 120
      → depth t2 < depth (node z m1 m2)
      → Rebalanced a i u (node x (node z m1 m2) t2) (do
        (a1, nr) ← rotate_right a x
        a2 ← modify a1 i (λ s. set_r s (some nr))
        rotate_left a2 i)
  unfolding IsAvl inorder depth
  double_right a i x z u m1 m2 t2 c g iu (e, gx, hx, p, q, (ez, gz, hz, pz, qz, im1, im2), i2) d two
        deep tall =
      let out = IsDistinct-Parts i u (node x (node z m1 m2) t2) d in
      let mid = IsDistinct-Parts x (node z m1 m2) t2 out.distinct_right in
      let inn = IsDistinct-Parts z m1 m2 mid.distinct_left in
      let x_mid = Avoids-node x z m1 m2 mid.from_left in
      let z_t2 = mid.left_right z (contains-middle z (inorder m1) (inorder m2)) in
      let (b, run, rel, n) =
        rotate_right_lem a x z m1 m2 t2 c gx gz (ground (arith, x_mid.1)) ez im1 im2 i2
          (inn.from_left, inn.from_right, z_t2) (x_mid.0, x_mid.2, mid.from_right) (omega arith)
          (omega arith) (omega arith) in
      double_right_at a i x z u m1 m2 t2 c g iu
        (e, gx, hx, p, q, (ez, gz, hz, pz, qz, im1, im2), i2) d two deep tall b run rel n

  abbrev double_rotation_right : Arena V T → ℕ → ℕ → Outcome (Arena V T × ℕ)
  double_rotation_right a i x = do
    (a1, nr) ← rotate_right a x
    a2 ← modify a1 i (λ s. set_r s (some nr))
    rotate_left a2 i

  rebalance_right-step :
      (a : Arena V T) (i x p q : ℕ)
      → in_range a i ≡ true
      → r (a.slot i) ≡ some x
      → balance_factor a x ≡ ok (p, q)
      → rebalance_right a i ≡ (if ltb q p then double_rotation_right a i x else rotate_left a i)
  unfolding rebalance_right
  rebalance_right-step a i x p q g e b = rw (read-ok a i g) (rw e (rw b refl))

  pub rebalance_right_lem :
      (a : Arena V T) (i : ℕ) (t u : Tree)
      → a.capacity < u16_mod
      → in_range a i ≡ true
      → IsAvl a (l (a.slot i)) t
      → IsAvl a (r (a.slot i)) u
      → IsDistinct (inorder (node i t u))
      → depth u ≡ depth t + 2
      → depth t < 120
      → Rebalanced a i t u (rebalance_right a i)
  unfolding IsAvl depth
  rebalance_right_lem a i t leaf c g it iu d two deep = absurd (omega arith)
  rebalance_right_lem a i t (node x leaf u2) c g it iu d two deep =
      let (e, gx, hx, p, q, i1, i2) = iu in
      rw (rebalance_right-step a i x _ _ g e (balance_factor-ok a x leaf u2 gx i1 i2)) (
        rw (flat_if (depth u2) 0 (omega arith))
          (single_right a i x t leaf u2 c g it iu d two deep (omega arith)))
  rebalance_right_lem a i t (node x (node z m1 m2) u2) c g it iu d two deep =
      let (e, gx, hx, p, q, i1, i2) = iu in
      rw (rebalance_right-step a i x _ _ g e (balance_factor-ok a x (node z m1 m2) u2 gx i1 i2))
        (elim (Bool-cases (ltb (depth u2) (depth (node z m1 m2)))) [
          | inl tall ↦ rw tall (double_right a i x z t m1 m2 u2 c g it iu d two deep (ground arith))
          | inr flat ↦
              rw flat (single_right a i x t (node z m1 m2) u2 c g it iu d two deep (ground arith))
        ])
