-- ===== src/Avl/Remove/HangRight.antt =====
-- A right subtree that lost a key is hung back below its parent, which is rebalanced.
use paradedb.Common.{
  ℕ, ◌+◌, ◌≤◌, ◌<◌, ◌≡◌, ◌∙◌, ap, ◌⊎◌, inl, inr, true, false, Option, some, List, ◌∷◌, ◌++◌,
  contains, count, contains-eq-true, contains-eq-false, IsDistinct, length, length-append, ◌==◌,
  ==_refl, if◌then◌else◌, ok, arith,
}
use paradedb.Avl.{Arena, in_range, l, r, set_r, u16_mod}
use paradedb.Avl.Tree.{Tree, node, depth, inorder, contains-middle}
use paradedb.Avl.Change.{put}
use paradedb.Avl.Change.Shape.{
  r-set_r, l-set_r, IsAvl, IsAvl-Fits, Avoids, Avoids-node, IsAvl-frame, IsAvl-put, slot-put_same,
  modify-ok,
}
use paradedb.Avl.Change.Relinked.{Relinked, Relinked-then, Relinked-set_r}
use paradedb.Avl.Change.Rebalance.{rebalance_lem}
use paradedb.Avl.Change.Distinct.{contains-count_zero}
use paradedb.Avl.Change.Hang.{count-middle, count-equal}
use paradedb.Avl.Remove.{Deleted, hang_deleted}
use paradedb.Avl.Change.Entries.{entry_at, entries}
use paradedb.Avl.Remove.Deletes.{
  Freed, Kept, Deletes, entries-middle, entries-same, entries-Relinked, hang_deleted-run,
  shrunk_depth,
}

module _ {ℓ} {V T : Type ℓ} (a : Arena V T) (free : Option ℕ) (i0 : ℕ) (t u : Tree)
    (c : a.capacity < u16_mod) (g : in_range a i0 ≡ true) (d : IsDistinct (inorder (node i0 t u)))
    (dt : depth t < 120) (du : depth u < 120) (p : depth t ≤ depth u + 1)
    (q : depth u ≤ depth t + 1) where
  place_right :
      (out : Deleted V T) (u1 t2 : Tree) (b2 : Arena V T) (root : Option ℕ)
      → inorder t2 ≡ inorder t ++ i0 ∷ inorder u1
      → ((j : ℕ) → contains j (inorder t2) ≡ false → b2.slot j ≡ (out.arena).slot j)
      → Kept free u u1 out ⊎ Freed a free u u1 out
      → Kept free (node i0 t u) t2 (record out { arena = b2; root = root })
        ⊎ Freed a free (node i0 t u) t2 (record out { arena = b2; root = root })
  unfolding inorder
  place_right out u1 t2 b2 root order same (inl (o, fr, kept)) =
      inl (order ∙ ap (λ zs. inorder t ++ i0 ∷ zs) o, fr, kept)
  place_right out u1 t2 b2 root order same (inr (f, e, fr, next, once, one, gone_true)) =
      let gone : contains f (inorder t2) ≡ false = contains-count_zero f (inorder t2) (
        omega (
          arith,
          count-equal f order,
          count-middle f i0 (inorder t) (inorder u1),
          count-middle f i0 (inorder t) (inorder u),
          d f,
          rw (==_refl f) at (once f),
        )) in
      inr (
        f,
        e,
        fr,
        ap l (same f gone) ∙ next,
        λ j. omega (
          arith,
          count-equal j order,
          count-middle j i0 (inorder t) (inorder u1),
          count-middle j i0 (inorder t) (inorder u),
          once j,
        ),
        omega (
          arith,
          one,
          ap length order,
          length-append (inorder t) (i0 ∷ inorder u1),
          length-append (inorder t) (i0 ∷ inorder u),
        ),
        gone_true,
      )

  pub hang_right :
      (out : Deleted V T) (u1 : Tree) (ts : List (ℕ × (V × T)))
      → IsAvl a (l (a.slot i0)) t
      → Deletes a free u ts out u1
      → (b2 : Arena V T) × (i2 : ℕ) × (t2 : Tree) × (hang_deleted i0 set_r out
          ≡ ok (record out { arena = b2; root = some i2 }))
        × Deletes a free
            (node i0 t u)
            (entries a (inorder t) ++ entry_at a i0 ∷ ts)
            (record out { arena = b2; root = some i2 })
            t2
  unfolding inorder depth
  hang_right out u1 ts it s =
      let b = out.arena in
      let total : (j : ℕ)
          → count j (inorder t) + (if j == i0 then 1 else 0) + count j (inorder u) ≤ 1 =
        λ j. omega (arith, d j, count-middle j i0 (inorder t) (inorder u)) in
      let away : Avoids i0 u1 =
        contains-count_zero i0 (inorder u1) (ground (arith, s.shrunk i0, total i0, ==_refl i0)) in
      let old_away : Avoids i0 u =
        contains-count_zero i0 (inorder u) (ground (arith, total i0, ==_refl i0)) in
      let t_away : Avoids i0 t =
        contains-count_zero i0 (inorder t) (ground (arith, total i0, ==_refl i0)) in
      let at0 : b.slot i0 ≡ a.slot i0 = s.outside i0 old_away in
      let same_t : (j : ℕ) → contains j (inorder t) ≡ true → b.slot j ≡ a.slot j = λ j m.
        s.outside j (
          contains-count_zero j (inorder u)
            (omega (arith, total j, contains-eq-true j (inorder t) m))) in
      let g1 : in_range b i0 ≡ true = rw s.size g in
      let c1 : b.capacity < u16_mod = rw s.size c in
      let n1 = set_r (b.slot i0) out.root in
      let b1 = put b i0 n1 in
      let at1 : b1.slot i0 ≡ n1 = slot-put_same b i0 n1 in
      let right1 : r (b1.slot i0) ≡ out.root =
        ap r at1 ∙ r-set_r (b.slot i0) out.root (IsAvl-Fits b _ u1 c1 s.avl) in
      let left1 : l (b1.slot i0) ≡ l (a.slot i0) =
        ap l at1 ∙ l-set_r (b.slot i0) out.root ∙ ap l at0 in
      let iu1 : IsAvl b1 (r (b1.slot i0)) u1 = rw right1 (IsAvl-put b _ u1 i0 n1 away s.avl) in
      let it1 : IsAvl b1 (l (b1.slot i0)) t =
        rw left1 (IsAvl-put b _ t i0 n1 t_away (IsAvl-frame a b _ t s.size same_t it)) in
      let d1 : IsDistinct (inorder (node i0 t u1)) =
        λ j. omega (arith, count-middle j i0 (inorder t) (inorder u1), s.shrunk j, total j) in
      let (b2, i2, t2, run, avl, order, rel, low, high, same) =
        rebalance_lem b1 i0 t u1 c1 g1 it1 iu1 d1 (omega (arith, s.low, s.high))
          (omega (arith, s.low, s.high)) (omega arith) (omega (arith, s.low)) in
      let js = inorder t2 in
      let bounds =
        shrunk_depth (depth u) (depth u1) (depth t) (depth t2) s.low s.high q p (omega arith)
          (omega arith) (λ m k. omega (arith, same k m)) in
      let has_i0 : contains i0 js ≡ true = rw order (contains-middle i0 (inorder t) (inorder u1)) in
      let rel1 : Relinked js b b2 =
        Relinked-then js b b1 b2 (Relinked-set_r js b i0 out.root has_i0) rel in
      (
        b2,
        i2,
        t2,
        hang_deleted-run b1 b2 i0 i2 set_r out (modify-ok b i0 (λ n. set_r n out.root) g1) run,
        record {
          avl = avl;
          low = omega (arith, bounds.0);
          high = omega (arith, bounds.1);
          size = rel1.size ∙ s.size;
          outside = λ j m.
              rel1.outside j (
                contains-count_zero j js (
                  omega (
                    arith,
                    count-equal j order,
                    count-middle j i0 (inorder t) (inorder u1),
                    count-middle j i0 (inorder t) (inorder u),
                    s.shrunk j,
                    contains-eq-false j _ m,
                  )))
              ∙ s.outside j ((Avoids-node j i0 t u m).2);
          left =
              entries-Relinked js js b b2 rel1
              ∙ ap (entries b) order
              ∙ entries-middle b (inorder t) i0 (inorder u1)
              ∙ ap (λ es. entries b (inorder t) ++ entry_at b i0 ∷ es) s.left
              ∙ ap (λ n. entries b (inorder t) ++ (n.key, (n.val, n.tag)) ∷ ts) at0
              ∙ ap (λ es. es ++ entry_at a i0 ∷ ts)
                  (entries-same a b (inorder t)
                    (λ j m. ap (λ n. (n.key, (n.val, n.tag))) (same_t j m)));
          shrunk = λ j. omega (
            arith,
            count-equal j order,
            count-middle j i0 (inorder t) (inorder u1),
            count-middle j i0 (inorder t) (inorder u),
            s.shrunk j,
          );
          place = place_right out u1 t2 b2 (some i2) order rel1.outside s.place;
        },
      )
