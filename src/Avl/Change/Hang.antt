-- ===== src/Avl/Change/Hang.antt =====
-- A subtree that took a key is hung back below its parent, which is rebalanced.
use mathlib.Core.List.{append_assoc}
use paradedb.Common.{
  ℕ, suc, ◌+◌, ◌≤◌, ◌<◌, ◌≡◌, refl, ◌∙◌, ap, max, ◌⊎◌, inl, inr, true, Option, some, List, ◌∷◌,
  ◌++◌, contains, count, count-append, contains-eq-true, IsDistinct, All, All-append, All-imp, ◌==◌,
  leb, if◌then◌else◌, Bool-cases, ok, arith,
}
use paradedb.Avl.{Slot, Arena, in_range, l, r, set_l, u16_mod}
use paradedb.Avl.Tree.{Tree, node, depth, inorder, key_at, contains-left, contains-middle}
use paradedb.Avl.Change.{put, modify, rebalance, Inserted, hang_inserted}
use paradedb.Avl.Change.Shape.{
  l-set_l, r-set_l, IsAvl, IsAvl-Fits, Avoids, Avoids-node, IsAvl-frame, IsAvl-put, slot-put_same,
  modify-ok,
}
use paradedb.Avl.Change.Relinked.{Relinked, Relinked-then, Relinked-set_l}
use paradedb.Avl.Change.Rebalance.{rebalance_lem}
use paradedb.Avl.Change.Distinct.{contains-count_zero}
use paradedb.Avl.Change.Insert.{Stores, Replaces, Adds, Inserts}

pub count-middle :
    (j i : ℕ) (xs ys : List ℕ)
    → count j (xs ++ i ∷ ys) ≡ count j xs + (if j == i then 1 else 0) + count j ys
count-middle j i xs ys = omega (arith, count-append j xs (i ∷ ys))

pub count-equal : (j : ℕ) {xs ys : List ℕ} → xs ≡ ys → count j xs ≡ count j ys
count-equal j e = ap (count j) e

-- How deep a node is once one subtree has grown by one at most and it is rebalanced.
pub grown_depth :
    (t t' u d : ℕ)
    → t ≤ t'
    → t' ≤ t + 1
    → t ≤ u + 1
    → u ≤ t + 1
    → max t' u ≤ d
    → d ≤ 1 + max t' u
    → (t' ≤ u + 1 → u ≤ t' + 1 → d ≡ 1 + max t' u)
    → (suc (max t u) ≤ d) × (d ≤ suc (max t u) + 1)
grown_depth t t' u d a b p q low high same = elim (Bool-cases (leb t' (u + 1))) [
  | inl h ↦ let e = same (ground arith) (omega arith) in (omega arith, omega arith)
  | inr h ↦ let big : u + 1 < t' = ground arith in (omega arith, omega arith)
]

module _ {ℓ} {V T : Type ℓ} where
  pub Stores-Relinked :
      (a b c : Arena V T) (i key : ℕ) (val : V) (is : List ℕ)
      → Stores a b i key val
      → Relinked is b c
      → Stores a c i key val
  Stores-Relinked a b c i key val is s p = record {
    size = p.size ∙ s.size;
    new_key = p.keys i ∙ s.new_key;
    new_val = p.vals i ∙ s.new_val;
    tags = λ j. p.tags j ∙ s.tags j;
    keys = λ j h. p.keys j ∙ s.keys j h;
    vals = λ j h. p.vals j ∙ s.vals j h;
  }

  pub hang-run :
      (b b2 : Arena V T) (i0 i2 : ℕ) (link : Slot V T → Option ℕ → Slot V T) (out : Inserted V T)
      → modify out.arena i0 (λ s. link s (some out.root)) ≡ ok b
      → rebalance b i0 ≡ ok (b2, i2)
      → hang_inserted i0 link out ≡ ok (record out { arena = b2; root = i2 })
  unfolding hang_inserted
  hang-run b b2 i0 i2 link out e f = rw e (rw f refl)

  module _ (a : Arena V T) (free : Option ℕ) (fs : List ℕ) (i0 : ℕ) (t u : Tree) (key : ℕ) (val : V)
      (c : a.capacity < u16_mod) (g : in_range a i0 ≡ true)
      (d : IsDistinct (inorder (node i0 t u) ++ fs)) (dt : depth t < 120) (du : depth u < 120)
      (p : depth t ≤ depth u + 1) (q : depth u ≤ depth t + 1) where
    place_left :
        (out : Inserted V T) (t1 t2 : Tree) (i : ℕ) (b : Arena V T) (root : ℕ)
        → inorder t2 ≡ inorder t1 ++ i0 ∷ inorder u
        → key < key_at a i0
        → All (λ j. key_at a i0 < key_at a j) (inorder u)
        → Replaces a free t t1 i key out ⊎ Adds a fs t t1 i key out
        → (Replaces a free (node i0 t u) t2 i key (record out { arena = b; root = root }))
          ⊎ (Adds a fs (node i0 t u) t2 i key (record out { arena = b; root = root }))
    unfolding inorder
    place_left out t1 t2 i b root order k hi (inl (m, e, o, old, new, fr)) = inl (
      contains-left i (inorder t) (i0 ∷ inorder u) m,
      e,
      order ∙ ap (λ zs. zs ++ i0 ∷ inorder u) o,
      old,
      new,
      fr,
    )
    place_left out t1 t2 i b root order k hi
          (inr (fs', xs, ys, e, o, o', lo, above, old, new, fr)) =
        inr (
          fs',
          xs,
          ys ++ i0 ∷ inorder u,
          e,
          ap (λ zs. zs ++ i0 ∷ inorder u) o ∙ append_assoc xs ys (i0 ∷ inorder u),
          order ∙ ap (λ zs. zs ++ i0 ∷ inorder u) o' ∙ append_assoc xs (i ∷ ys) (i0 ∷ inorder u),
          lo,
          All-append (λ j. key < key_at a j) ys (i0 ∷ inorder u) above
              (
                k,
                All-imp (λ j. key_at a i0 < key_at a j) (λ j. key < key_at a j) (λ j m. omega arith)
                    (inorder u) hi,
              ),
          old,
          new,
          fr,
        )

    pub hang_left :
        (out : Inserted V T) (t1 : Tree) (i : ℕ)
        → IsAvl a (r (a.slot i0)) u
        → key < key_at a i0
        → All (λ j. key_at a i0 < key_at a j) (inorder u)
        → Inserts a free fs t key val out t1 i
        → (out' : Inserted V T) × (t2 : Tree) × (hang_inserted i0 set_l out ≡ ok out')
          × Inserts a free fs (node i0 t u) key val out' t2 i
    unfolding inorder depth
    hang_left out t1 i iu k hi s =
        let b = out.arena in
        let total : (j : ℕ)
            → count j (inorder t) + (if j == i0 then 1 else 0) + count j (inorder u) + count j fs
              ≤ 1 =
          λ j. omega (
            arith,
            d j,
            count-append j (inorder t ++ i0 ∷ inorder u) fs,
            count-middle j i0 (inorder t) (inorder u),
          ) in
        let away : Avoids i0 t1 =
          contains-count_zero i0 (inorder t1) (ground (arith, s.grown i0, total i0)) in
        let at0 : b.slot i0 ≡ a.slot i0 = s.outside i0 away in
        let g1 : in_range b i0 ≡ true = rw (s.stores).size g in
        let c1 : b.capacity < u16_mod = rw (s.stores).size c in
        let n1 = set_l (b.slot i0) (some out.root) in
        let b1 = put b i0 n1 in
        let at1 : b1.slot i0 ≡ n1 = slot-put_same b i0 n1 in
        let left1 : l (b1.slot i0) ≡ some out.root =
          ap l at1 ∙ l-set_l (b.slot i0) (some out.root) (IsAvl-Fits b _ t1 c1 s.avl) in
        let right1 : r (b1.slot i0) ≡ r (a.slot i0) =
          ap r at1 ∙ r-set_l (b.slot i0) (some out.root) ∙ ap r at0 in
        let it1 : IsAvl b1 (l (b1.slot i0)) t1 = rw left1 (IsAvl-put b _ t1 i0 n1 away s.avl) in
        let u_away : Avoids i0 u = contains-count_zero i0 (inorder u) (ground (arith, total i0)) in
        let iu1 : IsAvl b1 (r (b1.slot i0)) u = rw right1 (
          IsAvl-put b _ u i0 n1 u_away (
            IsAvl-frame a b _ u (s.stores).size
              (λ j m. s.outside j (
                contains-count_zero j (inorder t1)
                  (omega (arith, s.grown j, total j, contains-eq-true j (inorder u) m))))
              iu)) in
        let d1 : IsDistinct (inorder (node i0 t1 u)) =
          λ j. omega (arith, count-middle j i0 (inorder t1) (inorder u), s.grown j, total j) in
        let (b2, i2, t2, run, avl, order, rel, low, high, same) =
          rebalance_lem b1 i0 t1 u c1 g1 it1 iu1 d1 (omega (arith, s.low, s.high))
            (omega (arith, s.low, s.high)) (omega (arith, s.high)) (omega arith) in
        let js = inorder t2 in
        let bounds =
          grown_depth (depth t) (depth t1) (depth u) (depth t2) s.low s.high p q low high same in
        let has_i0 : contains i0 js ≡ true =
          rw order (contains-middle i0 (inorder t1) (inorder u)) in
        let rel1 : Relinked js b b2 =
          Relinked-then js b b1 b2 (Relinked-set_l js b i0 (some out.root) has_i0) rel in
        (
          record out { arena = b2; root = i2 },
          t2,
          hang-run b1 b2 i0 i2 set_l out (modify-ok b i0 (λ n. set_l n (some out.root)) g1) run,
          record {
            avl = avl;
            low = bounds.0;
            high = bounds.1;
            stores = Stores-Relinked a b b2 i key val js s.stores rel1;
            out_tag = s.out_tag;
            grown = λ j. omega (
              arith,
              count-equal j order,
              count-middle j i0 (inorder t1) (inorder u),
              count-middle j i0 (inorder t) (inorder u),
              s.grown j,
            );
            outside =
                λ j m. rel1.outside j m ∙ s.outside j ((Avoids-node j i0 t1 u (rw order at m)).0);
            place = place_left out t1 t2 i b2 i2 order k hi s.place;
          },
        )
