-- ===== src/Avl/Change/RotateRight.antt =====
-- A rotation to the right.
use paradedb.Common.{
  ℕ, ◌+◌, ◌≤◌, ◌<◌, ◌≡◌, refl, ◌∙◌, ap, true, false, some, [], ◌∷◌, contains, ◌==◌, ok, arith,
}
use paradedb.Avl.{Arena, in_range, l, r, set_l, set_r, set_height, u16_mod}
use paradedb.Avl.Tree.{Tree, node, depth}
use paradedb.Avl.Change.{put, update_height, rotate_right}
use paradedb.Avl.Change.Shape.{
  l-set_l, r-set_r, r-set_l, l-set_r, links-set_height, height-set_height, IsAvl, Avoids-join,
  IsAvl-Fits, IsAvl-put, slot-put_same, slot-put_other, modify-ok, read-ok, update_height-ok,
}
use paradedb.Avl.Change.Relinked.{
  Relinked, Relinked-then, Relinked-set_l, Relinked-set_r, Relinked-set_height, Apart, Node,
}

module _ {ℓ} {V T : Type ℓ} where
  pub rotate_right_lem :
      (a : Arena V T) (y x : ℕ) (t u w : Tree)
      → a.capacity < u16_mod
      → in_range a y ≡ true
      → in_range a x ≡ true
      → (x == y) ≡ false
      → l (a.slot y) ≡ some x
      → IsAvl a (l (a.slot x)) t
      → IsAvl a (r (a.slot x)) u
      → IsAvl a (r (a.slot y)) w
      → Apart x t u w
      → Apart y t u w
      → depth u ≤ depth w + 1
      → depth w ≤ depth u + 1
      → depth (node x t (node y u w)) < 128
      → (b : Arena V T) × (rotate_right a y ≡ ok (b, x))
        × Relinked (x ∷ y ∷ []) a b
        × Node b x t (node y u w)
  unfolding rotate_right depth IsAvl
  rotate_right_lem a y x t u w c gy gx xy ly it iu iw (xt, xu, xw) (yt, yu, yw) p q d =
      let yx : (y == x) ≡ false = ground arith in
      let s1 = set_r (a.slot x) (some y) in
      let a1 = put a x s1 in
      let s2 = set_l (a1.slot y) (r (a.slot x)) in
      let a2 = put a1 y s2 in
      let at2 : a2.slot y ≡ s2 = slot-put_same a1 y s2 in
      let lu : l (a2.slot y) ≡ r (a.slot x) =
        rw at2 (l-set_l (a1.slot y) (r (a.slot x)) (IsAvl-Fits a _ u c iu)) in
      let iu2 : IsAvl a2 (l (a2.slot y)) u =
        rw lu (IsAvl-put a1 _ u y s2 yu (IsAvl-put a _ u x s1 xu iu)) in
      let rw2 : r (a2.slot y) ≡ r (a.slot y) =
        rw at2 (r-set_l (a1.slot y) (r (a.slot x)) ∙ ap r (slot-put_other a x y s1 yx)) in
      let iw2 : IsAvl a2 (r (a2.slot y)) w =
        rw rw2 (IsAvl-put a1 _ w y s2 yw (IsAvl-put a _ w x s1 xw iw)) in
      let s3 = set_height (a2.slot y) (depth (node y u w)) in
      let a3 = put a2 y s3 in
      let up3 : update_height a2 y ≡ ok a3 = update_height-ok a2 y u w gy iu2 iw2 in
      let y3 : a3.slot y ≡ s3 = slot-put_same a2 y s3 in
      let x3 : a3.slot x ≡ s1 =
        slot-put_other a2 y x s3 xy ∙ slot-put_other a1 y x s2 xy ∙ slot-put_same a x s1 in
      let it3 : IsAvl a3 (l (a3.slot x)) t = rw x3 (
        rw l-set_r
          (IsAvl-put a2 _ t y s3 yt (IsAvl-put a1 _ t y s2 yt (IsAvl-put a _ t x s1 xt it)))) in
      let iy3 : IsAvl a3 (r (a3.slot x)) (node y u w) = rw x3 (
        rw (r-set_r (a.slot x) (some y) (ground (arith, c, gy))) (
          refl,
          gy,
          rw y3 (height-set_height (a2.slot y) (depth (node y u w)) (omega (arith, d))),
          p,
          q,
          rw y3 (
              rw ((links-set_height (a2.slot y) (depth (node y u w))).0)
                (IsAvl-put a2 _ u y s3 yu iu2)),
          rw y3 (
              rw ((links-set_height (a2.slot y) (depth (node y u w))).1)
                (IsAvl-put a2 _ w y s3 yw iw2)),
        )) in
      let s4 = set_height (a3.slot x) (depth (node x t (node y u w))) in
      let a4 = put a3 x s4 in
      let up4 : update_height a3 x ≡ ok a4 = update_height-ok a3 x t (node y u w) gx it3 iy3 in
      let at4 : a4.slot x ≡ s4 = slot-put_same a3 x s4 in
      let is = x ∷ y ∷ [] in
      let has_x : contains x is ≡ true = ground arith in
      let has_y : contains y is ≡ true = ground arith in
      let deep = links-set_height (a3.slot x) (depth (node x t (node y u w))) in
      (
        a4,
        rw (read-ok a y gy) (
            rw ly (
              rw (read-ok a x gx)
                (rw (modify-ok a1 y (λ s. set_l s (r (a.slot x))) gy) (rw up3 (rw up4 refl))))),
        Relinked-then is a a1 a4 (Relinked-set_r is a x (some y) has_x) (
            Relinked-then is a1 a2 a4 (Relinked-set_l is a1 y (r (a.slot x)) has_y) (
              Relinked-then is a2 a3 a4 (Relinked-set_height is a2 y (depth (node y u w)) has_y)
                (Relinked-set_height is a3 x (depth (node x t (node y u w))) has_x))),
        record {
          inside = gx;
          high = rw at4 (height-set_height (a3.slot x) (depth (node x t (node y u w))) d);
          on_left = rw at4 (rw (deep.0) (IsAvl-put a3 _ t x s4 xt it3));
          on_right =
              rw at4
                (rw (deep.1) (IsAvl-put a3 _ (node y u w) x s4 (Avoids-join x y u w xu xy xw) iy3));
        },
      )
