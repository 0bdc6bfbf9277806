-- ===== src/Avl/Remove/Successor.antt =====
-- The successor of a node with two children, and its entry's move.
use paradedb.Common.{
  ℕ, zero, suc, ◌≤◌, ◌≡◌, refl, sym, ◌∙◌, ap, inl, inr, true, false, Option, none, some, List, ◌∷◌,
  ◌++◌, ◌==◌, ==_refl, ==→eq, Bool-cases, ok, arith,
}
use paradedb.Avl.{Slot, Arena, in_range, l, r, height}
use paradedb.Avl.Tree.{Tree, leaf, node, depth, inorder, key_at}
use paradedb.Avl.Change.{and_then, put}
use paradedb.Avl.Change.Shape.{IsAvl, read-ok}
use paradedb.Avl.Change.Relinked.{field-put}
use paradedb.Avl.Remove.{min_index, overwrite}
use paradedb.Avl.Change.Entries.{entry_at}

module _ {ℓ} {V T : Type ℓ} where
  min_index-leaf :
      (fuel : ℕ) (a : Arena V T) (i : ℕ)
      → in_range a i ≡ true
      → l (a.slot i) ≡ none
      → min_index (suc fuel) a i ≡ some (ok i)
  unfolding min_index
  min_index-leaf fuel a i g e = rw (read-ok a i g) (rw (e, and_then) refl)

  min_index-node :
      (fuel : ℕ) (a : Arena V T) (i j : ℕ)
      → in_range a i ≡ true
      → l (a.slot i) ≡ some j
      → min_index (suc fuel) a i ≡ min_index fuel a j
  unfolding min_index
  min_index-node fuel a i j g e = rw (read-ok a i g) (rw (e, and_then) refl)

  pub min_index_lem :
      (fuel : ℕ) (a : Arena V T) (cur : Option ℕ) (y : ℕ) (t u : Tree)
      → depth (node y t u) ≤ fuel
      → IsAvl a cur (node y t u)
      → (s : ℕ) × (ys : List ℕ) × (min_index fuel a y ≡ some (ok s))
        × (in_range a s ≡ true)
        × (inorder (node y t u) ≡ s ∷ ys)
  unfolding IsAvl inorder depth
  min_index_lem zero a cur y t u d h = absurd (omega arith)
  min_index_lem (suc fuel) a cur y leaf u d (e, g, tall, p, q, it, iu) =
      (y, inorder u, min_index-leaf fuel a y g it, g, refl)
  min_index_lem (suc fuel) a cur y (node x t1 t2) u d (e, g, tall, p, q, it, iu) =
      let (s, ys, run, g', order) = min_index_lem fuel a (l (a.slot y)) x t1 t2 (omega arith) it in
      (
        s,
        ys ++ y ∷ inorder u,
        min_index-node fuel a y x g (it.0) ∙ run,
        g',
        ap (λ zs. zs ++ y ∷ inorder u) order,
      )

  -- The arena after the three writes.
  pub record Moved (a b : Arena V T) (i s : ℕ) : Type ℓ where
    pub size : b.capacity ≡ a.capacity
    pub lefts : (j : ℕ) → l (b.slot j) ≡ l (a.slot j)
    pub rights : (j : ℕ) → r (b.slot j) ≡ r (a.slot j)
    pub heights : (j : ℕ) → height (b.slot j) ≡ height (a.slot j)
    pub here : entry_at b i ≡ entry_at a s
    pub keys : (j : ℕ) → (j == i) ≡ false → (b.slot j).key ≡ (a.slot j).key
    pub others : (j : ℕ) → (j == i) ≡ false → (j == s) ≡ false → b.slot j ≡ a.slot j

  -- The arena of the three writes: key and value, tag, and the successor's tag.
  abbrev writes : Arena V T → ℕ → ℕ → Arena V T
  writes a i s =
      let a1 = put a i (record (a.slot i) { key = (a.slot s).key; val = (a.slot s).val }) in
      let a2 = put a1 i (record (a1.slot i) { tag = (a.slot s).tag }) in
      put a2 s (record (a2.slot s) { tag = (a1.slot i).tag })

  overwrite-run :
      (a : Arena V T) (i s : ℕ)
      → in_range a i ≡ true
      → in_range a s ≡ true
      → overwrite a i s ≡ ok (writes a i s, r ((writes a i s).slot i), key_at a s)
  unfolding overwrite
  overwrite-run a i s g h = rw (read-ok a s h) (ground arith)

  -- A field that the writes keep.
  writes-field {κ} :
      {A : Type κ} (f : Slot V T → A) (a : Arena V T) (i s : ℕ)
      → ((n : Slot V T) (k : ℕ) (v : V) → f (record n { key = k; val = v }) ≡ f n)
      → ((n : Slot V T) (t : T) → f (record n { tag = t }) ≡ f n)
      → (j : ℕ) → f ((writes a i s).slot j) ≡ f (a.slot j)
  writes-field f a i s p q j =
      let a1 = put a i (record (a.slot i) { key = (a.slot s).key; val = (a.slot s).val }) in
      let a2 = put a1 i (record (a1.slot i) { tag = (a.slot s).tag }) in
      field-put f a2 s (record (a2.slot s) { tag = (a1.slot i).tag })
        (q (a2.slot s) (a1.slot i).tag) j
      ∙ field-put f a1 i (record (a1.slot i) { tag = (a.slot s).tag })
          (q (a1.slot i) (a.slot s).tag) j
      ∙ field-put f a i (record (a.slot i) { key = (a.slot s).key; val = (a.slot s).val })
          (p (a.slot i) (a.slot s).key (a.slot s).val) j

  links-kept :
      (a : Arena V T) (i s j : ℕ)
      → (l ((writes a i s).slot j) ≡ l (a.slot j))
        × (r ((writes a i s).slot j) ≡ r (a.slot j))
        × (height ((writes a i s).slot j) ≡ height (a.slot j))
  unfolding l r height
  links-kept a i s j = (
    writes-field l a i s (λ n k v. refl) (λ n t. refl) j,
    writes-field r a i s (λ n k v. refl) (λ n t. refl) j,
    writes-field height a i s (λ n k v. refl) (λ n t. refl) j,
  )

  pub overwrite_lem :
      (a : Arena V T) (i s : ℕ)
      → in_range a i ≡ true
      → in_range a s ≡ true
      → (i == s) ≡ false
      → (b : Arena V T) × (overwrite a i s ≡ ok (b, r (a.slot i), key_at a s)) × Moved a b i s
  overwrite_lem a i s g h e = (
    writes a i s,
    overwrite-run a i s g h ∙ ap (λ o. ok (writes a i s, o, key_at a s)) ((links-kept a i s i).1),
    record {
      size = refl;
      lefts = λ j. (links-kept a i s j).0;
      rights = λ j. (links-kept a i s j).1;
      heights = λ j. (links-kept a i s j).2;
      here = rw e (rw (==_refl i));
      keys = λ j m. elim (Bool-cases (j == s)) [
        | inl k ↦
            let same : j ≡ s = ==→eq j s k in
            let apart : (s == i) ≡ false = rw (sym same) m in rw same (rw (==_refl s) (rw apart))
        | inr k ↦ rw k (rw m)
      ];
      others = λ j m k. rw k (rw m);
    },
  )
