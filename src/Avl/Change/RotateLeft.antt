-- ===== src/Avl/Change/RotateLeft.antt =====
-- A rotation to the left.
use paradedb.Common.{
  ℕ, ◌+◌, ◌≤◌, ◌<◌, ◌≡◌, refl, ◌∙◌, ap, true, false, some, [], ◌∷◌, contains, ◌==◌, ok, arith,
}
use paradedb.Avl.{Arena, in_range, l, r, set_l, set_r, set_height, u16_mod}
use paradedb.Avl.Tree.{Tree, node, depth}
use paradedb.Avl.Change.{put, update_height, rotate_left}
use paradedb.Avl.Change.Shape.{
  l-set_l, r-set_r, r-set_l, l-set_r, links-set_height, height-set_height, IsAvl, Avoids-join,
  IsAvl-Fits, IsAvl-put, slot-put_same, slot-put_other, modify-ok, read-ok, update_height-ok,
}
use paradedb.Avl.Change.Relinked.{
  Relinked, Relinked-then, Relinked-set_l, Relinked-set_r, Relinked-set_height, Apart, Node,
}

module _ {ℓ} {V T : Type ℓ} where
  pub rotate_left_lem :
      (a : Arena V T) (x y : ℕ) (t u w : Tree)
      → a.capacity < u16_mod
      → in_range a x ≡ true
      → in_range a y ≡ true
      → (y == x) ≡ false
      → r (a.slot x) ≡ some y
      → IsAvl a (l (a.slot x)) t
      → IsAvl a (l (a.slot y)) u
      → IsAvl a (r (a.slot y)) w
      → Apart x t u w
      → Apart y t u w
      → depth t ≤ depth u + 1
      → depth u ≤ depth t + 1
      → depth (node y (node x t u) w) < 128
      → (b : Arena V T) × (rotate_left a x ≡ ok (b, y))
        × Relinked (x ∷ y ∷ []) a b
        × Node b y (node x t u) w
  unfolding rotate_left depth IsAvl
  rotate_left_lem a x y t u w c gx gy yx rx it iu iw (xt, xu, xw) (yt, yu, yw) p q d =
      let xy : (x == y) ≡ false = ground arith in
      let s1 = set_l (a.slot y) (some x) in
      let a1 = put a y s1 in
      let s2 = set_r (a1.slot x) (l (a.slot y)) in
      let a2 = put a1 x s2 in
      let at2 : a2.slot x ≡ s2 = slot-put_same a1 x s2 in
      let ru : r (a2.slot x) ≡ l (a.slot y) =
        rw at2 (r-set_r (a1.slot x) (l (a.slot y)) (IsAvl-Fits a _ u c iu)) in
      let iu2 : IsAvl a2 (r (a2.slot x)) u =
        rw ru (IsAvl-put a1 _ u x s2 xu (IsAvl-put a _ u y s1 yu iu)) in
      let lt : l (a2.slot x) ≡ l (a.slot x) =
        rw at2 (l-set_r (a1.slot x) (l (a.slot y)) ∙ ap l (slot-put_other a y x s1 xy)) in
      let it2 : IsAvl a2 (l (a2.slot x)) t =
        rw lt (IsAvl-put a1 _ t x s2 xt (IsAvl-put a _ t y s1 yt it)) in
      let s3 = set_height (a2.slot x) (depth (node x t u)) in
      let a3 = put a2 x s3 in
      let up3 : update_height a2 x ≡ ok a3 = update_height-ok a2 x t u gx it2 iu2 in
      let x3 : a3.slot x ≡ s3 = slot-put_same a2 x s3 in
      let y3 : a3.slot y ≡ s1 =
        slot-put_other a2 x y s3 yx ∙ slot-put_other a1 x y s2 yx ∙ slot-put_same a y s1 in
      let iw3 : IsAvl a3 (r (a3.slot y)) w = rw y3 (
        rw r-set_l
          (IsAvl-put a2 _ w x s3 xw (IsAvl-put a1 _ w x s2 xw (IsAvl-put a _ w y s1 yw iw)))) in
      let ix3 : IsAvl a3 (l (a3.slot y)) (node x t u) = rw y3 (
        rw (l-set_l (a.slot y) (some x) (ground (arith, c, gx))) (
          refl,
          gx,
          rw x3 (height-set_height (a2.slot x) (depth (node x t u)) (omega (arith, d))),
          p,
          q,
          rw x3 (
              rw ((links-set_height (a2.slot x) (depth (node x t u))).0)
                (IsAvl-put a2 _ t x s3 xt it2)),
          rw x3 (
              rw ((links-set_height (a2.slot x) (depth (node x t u))).1)
                (IsAvl-put a2 _ u x s3 xu iu2)),
        )) in
      let s4 = set_height (a3.slot y) (depth (node y (node x t u) w)) in
      let a4 = put a3 y s4 in
      let up4 : update_height a3 y ≡ ok a4 = update_height-ok a3 y (node x t u) w gy ix3 iw3 in
      let at4 : a4.slot y ≡ s4 = slot-put_same a3 y s4 in
      let is = x ∷ y ∷ [] in
      let has_x : contains x is ≡ true = ground arith in
      let has_y : contains y is ≡ true = ground arith in
      let deep = links-set_height (a3.slot y) (depth (node y (node x t u) w)) in
      (
        a4,
        rw (read-ok a x gx) (
            rw rx (
              rw (read-ok a y gy)
                (rw (modify-ok a1 x (λ s. set_r s (l (a.slot y))) gx) (rw up3 (rw up4 refl))))),
        Relinked-then is a a1 a4 (Relinked-set_l is a y (some x) has_y) (
            Relinked-then is a1 a2 a4 (Relinked-set_r is a1 x (l (a.slot y)) has_x) (
              Relinked-then is a2 a3 a4 (Relinked-set_height is a2 x (depth (node x t u)) has_x)
                (Relinked-set_height is a3 y (depth (node y (node x t u) w)) has_y))),
        record {
          inside = gy;
          high = rw at4 (height-set_height (a3.slot y) (depth (node y (node x t u) w)) d);
          on_left =
              rw at4
                (rw (deep.0) (IsAvl-put a3 _ (node x t u) y s4 (Avoids-join y x t u yt yx yu) ix3));
          on_right = rw at4 (rw (deep.1) (IsAvl-put a3 _ w y s4 yw iw3));
        },
      )
