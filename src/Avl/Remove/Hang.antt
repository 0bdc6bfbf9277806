-- ===== src/Avl/Remove/Hang.antt =====
-- A left subtree that lost a key is hung back below its parent, which is rebalanced.
use paradedb.Common.{
  ℕ, ◌+◌, ◌≤◌, ◌<◌, ◌≡◌, ◌∙◌, ap, ◌⊎◌, inl, inr, true, false, Option, some, List, ◌∷◌, ◌++◌,
  contains, count, contains-eq-true, contains-eq-false, IsDistinct, length, length-append, ◌==◌,
  ==_refl, if◌then◌else◌, ok, arith,
}
use paradedb.Avl.{Arena, in_range, l, r, set_l, u16_mod}
use paradedb.Avl.Tree.{Tree, node, depth, inorder, contains-middle}
use paradedb.Avl.Change.{put}
use paradedb.Avl.Change.Shape.{
  l-set_l, r-set_l, IsAvl, IsAvl-Fits, Avoids, Avoids-node, IsAvl-frame, IsAvl-put, slot-put_same,
  modify-ok,
}
use paradedb.Avl.Change.Relinked.{Relinked, Relinked-then, Relinked-set_l}
use paradedb.Avl.Change.Rebalance.{rebalance_lem}
use paradedb.Avl.Change.Distinct.{contains-count_zero}
use paradedb.Avl.Change.Hang.{count-middle, count-equal}
use paradedb.Avl.Remove.{Deleted, hang_deleted}
use paradedb.Avl.Change.Entries.{entry_at, entries}
use paradedb.Avl.Remove.Deletes.{
  Freed, Kept, Deletes, entries-middle, entries-same, entries-Relinked, hang_deleted-run,
  shrunk_depth,
}

module _ {ℓ} {V T : Type ℓ} (a : Arena V T) (free : Option ℕ) (i0 : ℕ) (t u : Tree)
    (c : a.capacity < u16_mod) (g : in_range a i0 ≡ true) (d : IsDistinct (inorder (node i0 t u)))
    (dt : depth t < 120) (du : depth u < 120) (p : depth t ≤ depth u + 1)
    (q : depth u ≤ depth t + 1) where
  place_left :
      (out : Deleted V T) (t1 t2 : Tree) (b2 : Arena V T) (root : Option ℕ)
      → inorder t2 ≡ inorder t1 ++ i0 ∷ inorder u
      → ((j : ℕ) → contains j (inorder t2) ≡ false → b2.slot j ≡ (out.arena).slot j)
      → Kept free t t1 out ⊎ Freed a free t t1 out
      → Kept free (node i0 t u) t2 (record out { arena = b2; root = root })
        ⊎ Freed a free (node i0 t u) t2 (record out { arena = b2; root = root })
  unfolding inorder
  place_left out t1 t2 b2 root order same (inl (o, fr, kept)) =
      inl (order ∙ ap (λ zs. zs ++ i0 ∷ inorder u) o, fr, kept)
  place_left out t1 t2 b2 root order same (inr (f, e, fr, next, once, one, gone_true)) =
      let gone : contains f (inorder t2) ≡ false = contains-count_zero f (inorder t2) (
        omega (
          arith,
          count-equal f order,
          count-middle f i0 (inorder t1) (inorder u),
          count-middle f i0 (inorder t) (inorder u),
          d f,
          rw (==_refl f) at (once f),
        )) in
      inr (
        f,
        e,
        fr,
        ap l (same f gone) ∙ next,
        λ j. omega (
          arith,
          count-equal j order,
          count-middle j i0 (inorder t1) (inorder u),
          count-middle j i0 (inorder t) (inorder u),
          once j,
        ),
        omega (
          arith,
          one,
          ap length order,
          length-append (inorder t1) (i0 ∷ inorder u),
          length-append (inorder t) (i0 ∷ inorder u),
        ),
        gone_true,
      )

  pub hang_left :
      (out : Deleted V T) (t1 : Tree) (ts : List (ℕ × (V × T)))
      → IsAvl a (r (a.slot i0)) u
      → Deletes a free t ts out t1
      → (b2 : Arena V T) × (i2 : ℕ) × (t2 : Tree) × (hang_deleted i0 set_l out
          ≡ ok (record out { arena = b2; root = some i2 }))
        × Deletes a free
            (node i0 t u)
            (ts ++ entry_at a i0 ∷ entries a (inorder u))
            (record out { arena = b2; root = some i2 })
            t2
  unfolding inorder depth
  hang_left out t1 ts iu s =
      let b = out.arena in
      let total : (j : ℕ)
          → count j (inorder t) + (if j == i0 then 1 else 0) + count j (inorder u) ≤ 1 =
        λ j. omega (arith, d j, count-middle j i0 (inorder t) (inorder u)) in
      let away : Avoids i0 t1 =
        contains-count_zero i0 (inorder t1) (ground (arith, s.shrunk i0, total i0, ==_refl i0)) in
      let old_away : Avoids i0 t =
        contains-count_zero i0 (inorder t) (ground (arith, total i0, ==_refl i0)) in
      let u_away : Avoids i0 u =
        contains-count_zero i0 (inorder u) (ground (arith, total i0, ==_refl i0)) in
      let at0 : b.slot i0 ≡ a.slot i0 = s.outside i0 old_away in
      let same_u : (j : ℕ) → contains j (inorder u) ≡ true → b.slot j ≡ a.slot j = λ j m.
        s.outside j (
          contains-count_zero j (inorder t)
            (omega (arith, total j, contains-eq-true j (inorder u) m))) in
      let g1 : in_range b i0 ≡ true = rw s.size g in
      let c1 : b.capacity < u16_mod = rw s.size c in
      let n1 = set_l (b.slot i0) out.root in
      let b1 = put b i0 n1 in
      let at1 : b1.slot i0 ≡ n1 = slot-put_same b i0 n1 in
      let left1 : l (b1.slot i0) ≡ out.root =
        ap l at1 ∙ l-set_l (b.slot i0) out.root (IsAvl-Fits b _ t1 c1 s.avl) in
      let right1 : r (b1.slot i0) ≡ r (a.slot i0) =
        ap r at1 ∙ r-set_l (b.slot i0) out.root ∙ ap r at0 in
      let it1 : IsAvl b1 (l (b1.slot i0)) t1 = rw left1 (IsAvl-put b _ t1 i0 n1 away s.avl) in
      let iu1 : IsAvl b1 (r (b1.slot i0)) u =
        rw right1 (IsAvl-put b _ u i0 n1 u_away (IsAvl-frame a b _ u s.size same_u iu)) in
      let d1 : IsDistinct (inorder (node i0 t1 u)) =
        λ j. omega (arith, count-middle j i0 (inorder t1) (inorder u), s.shrunk j, total j) in
      let (b2, i2, t2, run, avl, order, rel, low, high, same) =
        rebalance_lem b1 i0 t1 u c1 g1 it1 iu1 d1 (omega (arith, s.low, s.high))
          (omega (arith, s.low, s.high)) (omega (arith, s.low)) (omega arith) in
      let js = inorder t2 in
      let bounds =
        shrunk_depth (depth t) (depth t1) (depth u) (depth t2) s.low s.high p q low high same in
      let has_i0 : contains i0 js ≡ true = rw order (contains-middle i0 (inorder t1) (inorder u)) in
      let rel1 : Relinked js b b2 =
        Relinked-then js b b1 b2 (Relinked-set_l js b i0 out.root has_i0) rel in
      (
        b2,
        i2,
        t2,
        hang_deleted-run b1 b2 i0 i2 set_l out (modify-ok b i0 (λ n. set_l n out.root) g1) run,
        record {
          avl = avl;
          low = bounds.0;
          high = bounds.1;
          size = rel1.size ∙ s.size;
          outside = λ j m.
              rel1.outside j (
                contains-count_zero j js (
                  omega (
                    arith,
                    count-equal j order,
                    count-middle j i0 (inorder t1) (inorder u),
                    count-middle j i0 (inorder t) (inorder u),
                    s.shrunk j,
                    contains-eq-false j _ m,
                  )))
              ∙ s.outside j ((Avoids-node j i0 t u m).0);
          left =
              entries-Relinked js js b b2 rel1
              ∙ ap (entries b) order
              ∙ entries-middle b (inorder t1) i0 (inorder u)
              ∙ ap (λ es. es ++ entry_at b i0 ∷ entries b (inorder u)) s.left
              ∙ ap (λ n. ts ++ (n.key, (n.val, n.tag)) ∷ entries b (inorder u)) at0
              ∙ ap (λ es. ts ++ entry_at a i0 ∷ es)
                  (entries-same a b (inorder u)
                    (λ j m. ap (λ n. (n.key, (n.val, n.tag))) (same_u j m)));
          shrunk = λ j. omega (
            arith,
            count-equal j order,
            count-middle j i0 (inorder t1) (inorder u),
            count-middle j i0 (inorder t) (inorder u),
            s.shrunk j,
          );
          place = place_left out t1 t2 b2 (some i2) order rel1.outside s.place;
        },
      )
