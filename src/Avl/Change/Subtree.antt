-- ===== src/Avl/Change/Subtree.antt =====
-- `insert_rec` on a subtree: it takes the key, or updates it, or there is no free slot.
use paradedb.Common.{
  ℕ, suc, ◌≡◌, refl, ◌∙◌, ap, inl, inr, true, false, Option, none, some, List, [], ◌∷◌, ok, err,
  arith,
}
use paradedb.Avl.{Slot, Arena, in_range, l, r, height, set_l, set_r, set_height, set_used}
use paradedb.Avl.Tree.{Tree, leaf, node, depth, inorder, key_at, contains-middle}
use paradedb.Avl.Change.{put, alloc_slot, insert_rec}
use paradedb.Avl.Change.Shape.{IsAvl, Avoids-node, slot-put_same, slot-put_other, read-ok}
use paradedb.Avl.Change.Relinked.{field-put}
use paradedb.Avl.Change.Insert.{FreeList, Stores, InsertResult}

module _ {ℓ} {V T : Type ℓ} where
  -- A slot as alloc_slot fills it.
  abbrev new_slot : Slot V T → ℕ → V → Slot V T
  new_slot n key val =
      set_used (set_height (set_r (set_l (record n { key = key; val = val }) none) none) 1) true

  new_slot_lem :
      (n : Slot V T) (key : ℕ) (val : V)
      → (l (new_slot n key val) ≡ none)
        × (r (new_slot n key val) ≡ none)
        × (height (new_slot n key val) ≡ 1)
        × ((new_slot n key val).key ≡ key)
        × ((new_slot n key val).val ≡ val)
        × ((new_slot n key val).tag ≡ n.tag)
  unfolding l r height set_l set_r set_height set_used
  new_slot_lem n key val = (refl, refl, omega arith, refl, refl, refl)

  IsAvl-root :
      (a : Arena V T) (cur : Option ℕ) (i : ℕ) (t u : Tree)
      → IsAvl a cur (node i t u)
      → (cur ≡ some i) × (in_range a i ≡ true)
  unfolding IsAvl
  IsAvl-root a cur i t u h = (h.0, h.1)

  -- Links and heights decide whether a tree is there.
  pub IsAvl-same_links :
      (a b : Arena V T) (cur : Option ℕ) (t : Tree)
      → b.capacity ≡ a.capacity
      → ((j : ℕ)
          → (l (b.slot j) ≡ l (a.slot j))
            × (r (b.slot j) ≡ r (a.slot j))
            × (height (b.slot j) ≡ height (a.slot j)))
      → IsAvl a cur t
      → IsAvl b cur t
  unfolding IsAvl
  IsAvl-same_links a b cur leaf c s h = h
  IsAvl-same_links a b cur (node i t u) c s (e, g, h, p, q, x, y) = (
    e,
    rw c g,
    (s i).2 ∙ h,
    p,
    q,
    rw ((s i).0) (IsAvl-same_links a b (l (a.slot i)) t c s x),
    rw ((s i).1) (IsAvl-same_links a b (r (a.slot i)) u c s y),
  )

  alloc_slot-ok :
      (a : Arena V T) (f key : ℕ) (val : V)
      → in_range a f ≡ true
      → alloc_slot a (some f) key val ≡ ok (f, l (a.slot f), put a f (new_slot (a.slot f) key val))
  unfolding alloc_slot
  alloc_slot-ok a f key val g = rw (read-ok a f g) refl

  insert_rec-none :
      (fuel : ℕ) (a : Arena V T) (f key : ℕ) (val : V)
      → in_range a f ≡ true
      → insert_rec (suc fuel) a (some f) none key val
        ≡ some (
            ok (record {
              arena = put a f (new_slot (a.slot f) key val);
              free_head = l (a.slot f);
              root = f;
              old = none;
              tag = ((put a f (new_slot (a.slot f) key val)).slot f).tag;
              inserted_new = true;
            }))
  unfolding insert_rec
  insert_rec-none fuel a f key val g =
      let b = put a f (new_slot (a.slot f) key val) in
      rw (alloc_slot-ok a f key val g) (rw (read-ok b f g) refl)

  insert_rec-full :
      (fuel : ℕ) (a : Arena V T) (key : ℕ) (val : V)
      → insert_rec (suc fuel) a none none key val ≡ some err
  unfolding insert_rec alloc_slot
  insert_rec-full fuel a key val = refl

  -- A write of an entry.
  Stores-put :
      (a : Arena V T) (i key : ℕ) (val : V) (n : Slot V T)
      → n.key ≡ key
      → n.val ≡ val
      → n.tag ≡ (a.slot i).tag
      → Stores a (put a i n) i key val
  Stores-put a i key val n k v t =
      let at = slot-put_same a i n in
      record {
        size = refl;
        new_key = ap (λ s. s.key) at ∙ k;
        new_val = ap (λ s. s.val) at ∙ v;
        tags = λ j. field-put (λ s. s.tag) a i n t j;
        keys = λ j h. ap (λ s. s.key) (slot-put_other a i j n h);
        vals = λ j h. ap (λ s. s.val) (slot-put_other a i j n h);
      }

  pub insert_leaf :
      (fuel : ℕ) (a : Arena V T) (free : Option ℕ) (fs : List ℕ) (key : ℕ) (val : V)
      → FreeList a free fs
      → InsertResult a free fs leaf key val (insert_rec (suc fuel) a free none key val)
  unfolding FreeList IsAvl inorder depth
  insert_leaf fuel a free [] key val e = inr (rw e (insert_rec-full fuel a key val), refl, tt)
  insert_leaf fuel a free (f ∷ fs) key val (e, g, rest) =
      let n = new_slot (a.slot f) key val in
      let laws = new_slot_lem (a.slot f) key val in
      let b = put a f n in
      let at : b.slot f ≡ n = slot-put_same a f n in
      inl (
        record {
          arena = b;
          free_head = l (a.slot f);
          root = f;
          old = none;
          tag = (b.slot f).tag;
          inserted_new = true;
        },
        node f leaf leaf,
        f,
        rw e (insert_rec-none fuel a f key val g),
        record {
          avl = (
            refl,
            g,
            ap height at ∙ laws.2 ∙ ground arith,
            omega arith,
            omega arith,
            ap l at ∙ laws.0,
            ap r at ∙ laws.1,
          );
          low = omega arith;
          high = omega arith;
          stores = Stores-put a f key val n (laws.3) (laws.4) (laws.5);
          out_tag = ap (λ s. s.tag) at ∙ laws.5;
          grown = λ j. omega arith;
          outside = λ j h. slot-put_other a f j n (ground (arith, h));
          place = inr (fs, [], [], refl, refl, refl, tt, tt, refl, refl, refl);
        },
      )

  insert_rec-eq :
      (fuel : ℕ) (a : Arena V T) (free : Option ℕ) (i key : ℕ) (val : V)
      → in_range a i ≡ true
      → key_at a i ≡ key
      → insert_rec (suc fuel) a free (some i) key val
        ≡ some (
            ok (record {
              arena = put a i (record (a.slot i) { val = val });
              free_head = free;
              root = i;
              old = some (a.slot i).val;
              tag = (a.slot i).tag;
              inserted_new = false;
            }))
  unfolding insert_rec
  insert_rec-eq fuel a free i key val g h = rw (read-ok a i g) (ground arith)

  links-put :
      (a : Arena V T) (i : ℕ) (val : V) (j : ℕ)
      → (l ((put a i (record (a.slot i) { val = val })).slot j) ≡ l (a.slot j))
        × (r ((put a i (record (a.slot i) { val = val })).slot j) ≡ r (a.slot j))
        × (height ((put a i (record (a.slot i) { val = val })).slot j) ≡ height (a.slot j))
  unfolding l r height
  links-put a i val j =
      let n = record (a.slot i) { val = val } in
      (field-put l a i n refl j, field-put r a i n refl j, field-put height a i n refl j)

  pub insert_same :
      (fuel : ℕ) (a : Arena V T) (free : Option ℕ) (fs : List ℕ) (cur : Option ℕ) (i : ℕ)
      (t u : Tree) (key : ℕ) (val : V)
      → IsAvl a cur (node i t u)
      → key_at a i ≡ key
      → InsertResult a free fs (node i t u) key val (insert_rec (suc fuel) a free cur key val)
  unfolding inorder
  insert_same fuel a free fs cur i t u key val h k =
      let n = record (a.slot i) { val = val } in
      let b = put a i n in
      let root = IsAvl-root a cur i t u h in
      inl (
        record {
          arena = b;
          free_head = free;
          root = i;
          old = some (a.slot i).val;
          tag = (a.slot i).tag;
          inserted_new = false;
        },
        node i t u,
        i,
        rw (root.0) (insert_rec-eq fuel a free i key val (root.1) k),
        record {
          avl =
              IsAvl-same_links a b (some i) (node i t u) refl (links-put a i val) (rw root.0 at h);
          low = omega arith;
          high = omega arith;
          stores = Stores-put a i key val n k refl refl;
          out_tag = refl;
          grown = λ j. omega arith;
          outside = λ j m. slot-put_other a i j n ((Avoids-node j i t u m).1);
          place = inl (contains-middle i (inorder t) (inorder u), k, refl, refl, refl, refl);
        },
      )
