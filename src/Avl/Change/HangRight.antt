-- ===== src/Avl/Change/HangRight.antt =====
-- The same on the right.
use mathlib.Core.List.{append_assoc}
use paradedb.Common.{
  ℕ, ◌+◌, ◌≤◌, ◌<◌, ◌≡◌, sym, ◌∙◌, ap, ◌⊎◌, inl, inr, true, Option, some, List, ◌∷◌, ◌++◌, contains,
  count, count-append, contains-eq-true, IsDistinct, All, All-append, All-imp, ◌==◌, if◌then◌else◌,
  ok, arith,
}
use paradedb.Avl.{Arena, in_range, l, r, set_r, u16_mod}
use paradedb.Avl.Tree.{Tree, node, depth, inorder, key_at, contains-right, contains-middle}
use paradedb.Avl.Change.{put, Inserted, hang_inserted}
use paradedb.Avl.Change.Shape.{
  r-set_r, l-set_r, IsAvl, IsAvl-Fits, Avoids, Avoids-node, IsAvl-frame, IsAvl-put, slot-put_same,
  modify-ok,
}
use paradedb.Avl.Change.Relinked.{Relinked, Relinked-then, Relinked-set_r}
use paradedb.Avl.Change.Rebalance.{rebalance_lem}
use paradedb.Avl.Change.Distinct.{contains-count_zero}
use paradedb.Avl.Change.Insert.{Replaces, Adds, Inserts}
use paradedb.Avl.Change.Hang.{count-middle, count-equal, grown_depth, Stores-Relinked, hang-run}

module _ {ℓ} {V T : Type ℓ} where
  module _ (a : Arena V T) (free : Option ℕ) (fs : List ℕ) (i0 : ℕ) (t u : Tree) (key : ℕ) (val : V)
      (c : a.capacity < u16_mod) (g : in_range a i0 ≡ true)
      (d : IsDistinct (inorder (node i0 t u) ++ fs)) (dt : depth t < 120) (du : depth u < 120)
      (p : depth t ≤ depth u + 1) (q : depth u ≤ depth t + 1) where
    place_right :
        (out : Inserted V T) (u1 t2 : Tree) (i : ℕ) (b : Arena V T) (root : ℕ)
        → inorder t2 ≡ inorder t ++ i0 ∷ inorder u1
        → key_at a i0 < key
        → All (λ j. key_at a j < key_at a i0) (inorder t)
        → Replaces a free u u1 i key out ⊎ Adds a fs u u1 i key out
        → (Replaces a free (node i0 t u) t2 i key (record out { arena = b; root = root }))
          ⊎ (Adds a fs (node i0 t u) t2 i key (record out { arena = b; root = root }))
    unfolding inorder
    place_right out u1 t2 i b root order k lo (inl (m, e, o, old, new, fr)) = inl (
      contains-right i (inorder t) (i0 ∷ inorder u) (ground (arith, m)),
      e,
      order ∙ ap (λ zs. inorder t ++ i0 ∷ zs) o,
      old,
      new,
      fr,
    )
    place_right out u1 t2 i b root order k lo
          (inr (fs', xs, ys, e, o, o', below, above, old, new, fr)) =
        inr (
          fs',
          inorder t ++ i0 ∷ xs,
          ys,
          e,
          ap (λ zs. inorder t ++ i0 ∷ zs) o ∙ sym (append_assoc (inorder t) (i0 ∷ xs) ys),
          order
              ∙ ap (λ zs. inorder t ++ i0 ∷ zs) o'
              ∙ sym (append_assoc (inorder t) (i0 ∷ xs) (i ∷ ys)),
          All-append (λ j. key_at a j < key) (inorder t) (i0 ∷ xs)
              (All-imp (λ j. key_at a j < key_at a i0) (λ j. key_at a j < key) (λ j m. omega arith)
                (inorder t) lo)
              (k, below),
          above,
          old,
          new,
          fr,
        )

    pub hang_right :
        (out : Inserted V T) (u1 : Tree) (i : ℕ)
        → IsAvl a (l (a.slot i0)) t
        → key_at a i0 < key
        → All (λ j. key_at a j < key_at a i0) (inorder t)
        → Inserts a free fs u key val out u1 i
        → (out' : Inserted V T) × (t2 : Tree) × (hang_inserted i0 set_r out ≡ ok out')
          × Inserts a free fs (node i0 t u) key val out' t2 i
    unfolding inorder depth
    hang_right out u1 i it k lo s =
        let b = out.arena in
        let total : (j : ℕ)
            → count j (inorder t) + (if j == i0 then 1 else 0) + count j (inorder u) + count j fs
              ≤ 1 =
          λ j. omega (
            arith,
            d j,
            count-append j (inorder t ++ i0 ∷ inorder u) fs,
            count-middle j i0 (inorder t) (inorder u),
          ) in
        let away : Avoids i0 u1 =
          contains-count_zero i0 (inorder u1) (ground (arith, s.grown i0, total i0)) in
        let at0 : b.slot i0 ≡ a.slot i0 = s.outside i0 away in
        let g1 : in_range b i0 ≡ true = rw (s.stores).size g in
        let c1 : b.capacity < u16_mod = rw (s.stores).size c in
        let n1 = set_r (b.slot i0) (some out.root) in
        let b1 = put b i0 n1 in
        let at1 : b1.slot i0 ≡ n1 = slot-put_same b i0 n1 in
        let right1 : r (b1.slot i0) ≡ some out.root =
          ap r at1 ∙ r-set_r (b.slot i0) (some out.root) (IsAvl-Fits b _ u1 c1 s.avl) in
        let left1 : l (b1.slot i0) ≡ l (a.slot i0) =
          ap l at1 ∙ l-set_r (b.slot i0) (some out.root) ∙ ap l at0 in
        let iu1 : IsAvl b1 (r (b1.slot i0)) u1 = rw right1 (IsAvl-put b _ u1 i0 n1 away s.avl) in
        let t_away : Avoids i0 t = contains-count_zero i0 (inorder t) (ground (arith, total i0)) in
        let it1 : IsAvl b1 (l (b1.slot i0)) t = rw left1 (
          IsAvl-put b _ t i0 n1 t_away (
            IsAvl-frame a b _ t (s.stores).size
              (λ j m. s.outside j (
                contains-count_zero j (inorder u1)
                  (omega (arith, s.grown j, total j, contains-eq-true j (inorder t) m))))
              it)) in
        let d1 : IsDistinct (inorder (node i0 t u1)) =
          λ j. omega (arith, count-middle j i0 (inorder t) (inorder u1), s.grown j, total j) in
        let (b2, i2, t2, run, avl, order, rel, low, high, same) =
          rebalance_lem b1 i0 t u1 c1 g1 it1 iu1 d1 (omega (arith, s.low, s.high))
            (omega (arith, s.low, s.high)) (omega arith) (omega (arith, s.high)) in
        let js = inorder t2 in
        let bounds =
          grown_depth (depth u) (depth u1) (depth t) (depth t2) s.low s.high q p (omega arith)
            (omega arith) (λ m n. omega (arith, same n m)) in
        let has_i0 : contains i0 js ≡ true =
          rw order (contains-middle i0 (inorder t) (inorder u1)) in
        let rel1 : Relinked js b b2 =
          Relinked-then js b b1 b2 (Relinked-set_r js b i0 (some out.root) has_i0) rel in
        (
          record out { arena = b2; root = i2 },
          t2,
          hang-run b1 b2 i0 i2 set_r out (modify-ok b i0 (λ n. set_r n (some out.root)) g1) run,
          record {
            avl = avl;
            low = omega (arith, bounds);
            high = omega (arith, bounds);
            stores = Stores-Relinked a b b2 i key val js s.stores rel1;
            out_tag = s.out_tag;
            grown = λ j. omega (
              arith,
              count-equal j order,
              count-middle j i0 (inorder t) (inorder u1),
              count-middle j i0 (inorder t) (inorder u),
              s.grown j,
            );
            outside =
                λ j m. rel1.outside j m ∙ s.outside j ((Avoids-node j i0 t u1 (rw order at m)).2);
            place = place_right out u1 t2 i b2 i2 order k lo s.place;
          },
        )
