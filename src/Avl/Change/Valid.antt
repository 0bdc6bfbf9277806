-- ===== src/Avl/Change/Valid.antt =====
-- A header and an arena that hold a map, and insertion into one.
use mathlib.Core.Option
use paradedb.Common.{
  ℕ, ◌+◌, ◌≤◌, ◌<◌, ◌≡◌, refl, sym, ◌∙◌, ap, ◌⊎◌, inl, inr, true, false, Option, none, some, List,
  [], ◌∷◌, ◌++◌, contains, contains-eq-true, count, count-append, IsDistinct, length, length-append,
  All, All-append, All-imp, ◌==◌, ==_refl, ◌≢◌, if◌then◌else◌, ok, err, arith,
}
use paradedb.Avl.{Arena, AvlTreeMapHeader, l, u16_mod}
use paradedb.Avl.Tree.{Tree, depth, inorder, key_at, IsOrdered}
use paradedb.Avl.Iter.Inorder.{IsAscending, inorder-IsAscending}
use paradedb.Avl.Change.{Inserted, insert_rec, insert}
use paradedb.Avl.Change.Shape.{IsAvl}
use paradedb.Avl.Change.Distinct.{contains-count_zero}
use paradedb.Avl.Change.Insert.{FreeList, Replaces, Inserts, InsertResult}
use paradedb.Avl.Change.Hang.{count-middle}
use paradedb.Avl.Change.InsertRec.{insert_rec_lem}
use paradedb.Avl.Change.Entries.{
  entries, lookup, insert_entry, lookup-absent, lookup-present, entries-replaced, entries-added,
}
use paradedb.Avl.Change.Order.{IsAscending-IsOrdered, IsAscending-replaced, IsAscending-added}
use paradedb.Avl.Change.Depth.{depth_lem}

-- Every slot is in the tree or on the free list, once; the tree is an AVL search tree with right
-- heights, and the header has its root and its size.
pub record IsMap {ℓ} {V T : Type ℓ} (header : AvlTreeMapHeader) (a : Arena V T) (t : Tree)
    (fs : List ℕ) : Type 0 where
  pub size : a.capacity < u16_mod
  pub avl : IsAvl a header.root t
  pub free : FreeList a header.free_head fs
  pub apart : IsDistinct (inorder t ++ fs)
  pub every : length (inorder t) + length fs ≡ a.capacity
  pub ordered : IsOrdered a t
  pub counted : header.len ≡ length (inorder t)

module _ {ℓ} {V T : Type ℓ} where
  pub IsMap-depth :
      (header : AvlTreeMapHeader) (a : Arena V T) (t : Tree) (fs : List ℕ)
      → IsMap header a t fs
      → depth t ≤ 33
  IsMap-depth header a t fs m = depth_lem a _ t m.avl (omega (arith, m.size, m.every))

  -- The slots of a free list are the same in another arena.
  pub FreeList-frame :
      (a b : Arena V T) (cur : Option ℕ) (fs : List ℕ)
      → b.capacity ≡ a.capacity
      → ((j : ℕ) → contains j fs ≡ true → b.slot j ≡ a.slot j)
      → FreeList a cur fs
      → FreeList b cur fs
  unfolding FreeList
  FreeList-frame a b cur [] c s h = h
  FreeList-frame a b cur (f ∷ fs) c s (e, g, rest) = (
    e,
    rw c g,
    rw (s f (ground arith))
        (FreeList-frame a b (l (a.slot f)) fs c (λ j m. s j (ground (arith, m))) rest),
  )

  -- The header that insert leaves.
  abbrev header_after : AvlTreeMapHeader → Inserted V T → AvlTreeMapHeader
  header_after header out = record {
    root = some out.root;
    free_head = out.free_head;
    len = header.len + (if out.inserted_new then 1 else 0);
  }

  insert-Replaces :
      (header : AvlTreeMapHeader) (a : Arena V T) (t : Tree) (fs : List ℕ) (key : ℕ) (val : V)
      → IsMap header a t fs
      → (out : Inserted V T) (t' : Tree) (i : ℕ) → Inserts a header.free_head fs t key val out t' i
      → Replaces a header.free_head t t' i key out
      → IsMap (header_after header out) out.arena t' fs
        × (entries out.arena (inorder t')
            ≡ insert_entry key (val, (a.slot i).tag) (entries a (inorder t)))
        × (out.old ≡ Option.map (λ p. p.0) (lookup key (entries a (inorder t))))
        × ((lookup key (entries a (inorder t)) ≡ none)
            ⊎ ((v : V) × (lookup key (entries a (inorder t)) ≡ some (v, (a.slot i).tag))))
  insert-Replaces header a t fs key val m out t' i s (c, k, order, old, new, fr) =
      let b = out.arena in
      let up : IsAscending a (inorder t) = inorder-IsAscending a t m.ordered in
      let outside : (j : ℕ) → contains j fs ≡ true → b.slot j ≡ a.slot j = λ j h. s.outside j (
        rw order (
          contains-count_zero j (inorder t)
            (omega (arith, m.apart j, count-append j (inorder t) fs, contains-eq-true j fs h)))) in
      (
        record {
          size = rw (s.stores).size (m.size);
          avl = s.avl;
          free = rw fr (FreeList-frame a b _ fs (s.stores).size outside m.free);
          apart = rw order (m.apart);
          every = rw order (m.every ∙ sym (s.stores).size);
          ordered =
              IsAscending-IsOrdered b t'
                (rw order (IsAscending-replaced a b i key val (inorder t) s.stores k up));
          counted = rw order (rw new (omega (arith, m.counted)));
        },
        rw order (entries-replaced a b i key val (inorder t) s.stores up c k),
        rw (lookup-present a key i (inorder t) up c k) old,
        inr ((a.slot i).val, lookup-present a key i (inorder t) up c k),
      )

  insert-Adds :
      (header : AvlTreeMapHeader) (a : Arena V T) (t : Tree) (key : ℕ) (val : V)
      (out : Inserted V T) (t' : Tree) (i : ℕ) (fs' : List ℕ)
      → IsMap header a t (i ∷ fs')
      → Inserts a header.free_head (i ∷ fs') t key val out t' i
      → (xs ys : List ℕ) → inorder t ≡ xs ++ ys
      → inorder t' ≡ xs ++ i ∷ ys
      → All (λ j. key_at a j < key) xs
      → All (λ j. key < key_at a j) ys
      → out.old ≡ none
      → out.inserted_new ≡ true
      → out.free_head ≡ l (a.slot i)
      → IsMap (header_after header out) out.arena t' fs'
        × (entries out.arena (inorder t')
            ≡ insert_entry key (val, (a.slot i).tag) (entries a (inorder t)))
        × (out.old ≡ Option.map (λ p. p.0) (lookup key (entries a (inorder t))))
        × ((lookup key (entries a (inorder t)) ≡ none)
            ⊎ ((v : V) × (lookup key (entries a (inorder t)) ≡ some (v, (a.slot i).tag))))
  unfolding FreeList
  insert-Adds header a t key val out t' i fs' m s xs ys before after lo hi old new fr =
      let b = out.arena in
      let up : IsAscending a (xs ++ ys) = rw before at (inorder-IsAscending a t m.ordered) in
      let total : (j : ℕ) → count j xs + count j ys + (if j == i then 1 else 0) + count j fs' ≤ 1 =
        λ j. omega (
          arith,
          rw before at m.apart j,
          count-append j (xs ++ ys) (i ∷ fs'),
          count-append j xs ys,
        ) in
      let total' : (j : ℕ)
          → count j (inorder t') ≡ count j xs + (if j == i then 1 else 0) + count j ys =
        λ j. rw after (count-middle j i xs ys) in
      let outside : (j : ℕ) → contains j fs' ≡ true → b.slot j ≡ a.slot j = λ j h. s.outside j (
        contains-count_zero j (inorder t')
          (omega (arith, total j, total' j, contains-eq-true j fs' h))) in
      let absent : lookup key (entries a (inorder t)) ≡ none = lookup-absent a key (inorder t) (
        rw before (
          All-append (λ j. key_at a j ≢ key) xs ys
            (All-imp (λ j. key_at a j < key) (λ j. key_at a j ≢ key) (λ j h. omega arith) xs lo)
            (All-imp (λ j. key < key_at a j) (λ j. key_at a j ≢ key) (λ j h. omega arith) ys
              hi))) in
      let from_xs : contains i xs ≡ false =
        contains-count_zero i xs (ground (arith, total i, ==_refl i)) in
      let from_ys : contains i ys ≡ false =
        contains-count_zero i ys (ground (arith, total i, ==_refl i)) in
      (
        record {
          size = rw (s.stores).size (m.size);
          avl = s.avl;
          free = rw fr (FreeList-frame a b _ fs' (s.stores).size outside ((m.free).2));
          apart = λ j. omega (arith, count-append j (inorder t') fs', total j, total' j);
          every = rw (s.stores).size (
              omega (
                arith,
                m.every,
                ap length before,
                ap length after,
                length-append xs ys,
                length-append xs (i ∷ ys),
              ));
          ordered =
              IsAscending-IsOrdered b t' (
                rw after (IsAscending-added a b i key val xs ys s.stores from_xs from_ys lo hi up));
          counted = rw new (
              omega (
                arith,
                m.counted,
                ap length before,
                ap length after,
                length-append xs ys,
                length-append xs (i ∷ ys),
              ));
        },
        rw after (rw before (entries-added a b i key val xs ys s.stores from_xs from_ys lo hi)),
        rw absent old,
        inl absent,
      )

  insert-run :
      (fuel : ℕ) (header : AvlTreeMapHeader) (a : Arena V T) (key : ℕ) (val : V)
      (out : Inserted V T)
      → insert_rec fuel a header.free_head header.root key val ≡ some (ok out)
      → insert fuel header a key val
        ≡ some (ok ((out.old, out.tag), header_after header out, out.arena))
  unfolding insert
  insert-run fuel header a key val out e = rw e refl

  insert-full :
      (fuel : ℕ) (header : AvlTreeMapHeader) (a : Arena V T) (key : ℕ) (val : V)
      → insert_rec fuel a header.free_head header.root key val ≡ some err
      → insert fuel header a key val ≡ some err
  unfolding insert
  insert-full fuel header a key val e = rw e refl

  -- What insert promises: the map with the entry, the old value and the tag of the entry's slot.
  abbrev pub InsertSpec : ℕ → AvlTreeMapHeader → Arena V T → Tree → List ℕ → ℕ → V → Type ℓ
  InsertSpec fuel header a t fs key val =
      ((tag : T) × (header' : AvlTreeMapHeader) × (a' : Arena V T) × (t' : Tree) × (fs' : List ℕ)
        × (insert fuel header a key val
            ≡ some (
                ok
                  ((Option.map (λ p. p.0) (lookup key (entries a (inorder t))), tag), header', a')))
        × IsMap header' a' t' fs'
        × (a'.capacity ≡ a.capacity)
        × (entries a' (inorder t') ≡ insert_entry key (val, tag) (entries a (inorder t)))
        × ((lookup key (entries a (inorder t)) ≡ none)
            ⊎ ((v : V) × (lookup key (entries a (inorder t)) ≡ some (v, tag)))))
      ⊎ ((insert fuel header a key val ≡ some err)
          × (fs ≡ [])
          × (lookup key (entries a (inorder t)) ≡ none))

  insert_result :
      (fuel : ℕ) (header : AvlTreeMapHeader) (a : Arena V T) (t : Tree) (fs : List ℕ) (key : ℕ)
      (val : V)
      → IsMap header a t fs
      → InsertResult a header.free_head fs t key val
          (insert_rec fuel a header.free_head header.root key val)
      → InsertSpec fuel header a t fs key val
  insert_result fuel header a t fs key val m (inr (e, full, absent)) =
      inr (insert-full fuel header a key val e, full, lookup-absent a key (inorder t) absent)
  insert_result fuel header a t fs key val m (inl (out, t', i, e, s)) =
      let run = insert-run fuel header a key val out e in
      elim (s.place) [
        | inl p ↦
            let (m', es, old, had) = insert-Replaces header a t fs key val m out t' i s p in
            inl (
              out.tag,
              header_after header out,
              out.arena,
              t',
              fs,
              rw (sym old) run,
              m',
              (s.stores).size,
              rw (s.out_tag) es,
              rw (s.out_tag) had,
            )
        | inr p ↦
            let (fs', xs, ys, e, before, after, lo, hi, old, new, fr) = p in
            let (m', es, old', had) =
              insert-Adds header a t key val out t' i fs' (rw e at m) (rw e at s) xs ys before after
                lo hi old new fr in
            inl (
              out.tag,
              header_after header out,
              out.arena,
              t',
              fs',
              rw (sym old') run,
              m',
              (s.stores).size,
              rw (s.out_tag) es,
              rw (s.out_tag) had,
            )
      ]

  -- With fuel 34, insertion into an arena that holds a map never panics nor runs out. It fails only
  -- when no slot is free and the key is not there. Otherwise it returns the value that the key had,
  -- none if it was not there, and the tag of its slot, and the arena holds a map again: the AVL
  -- balance, the heights, the order, the count and the free list are right, and the entries in
  -- order, each with its tag, are those of before with the key's put at its place or replaced, which
  -- keeps the tag.
  pub insert_lem :
      (fuel : ℕ) (header : AvlTreeMapHeader) (a : Arena V T) (t : Tree) (fs : List ℕ) (key : ℕ)
      (val : V)
      → 33 < fuel
      → IsMap header a t fs
      → InsertSpec fuel header a t fs key val
  insert_lem fuel header a t fs key val f m =
      let low = IsMap-depth header a t fs m in
      insert_result fuel header a t fs key val m (
        insert_rec_lem fuel a header.free_head fs header.root t key val m.size (omega arith)
          (omega arith) m.avl m.free m.apart m.ordered)
