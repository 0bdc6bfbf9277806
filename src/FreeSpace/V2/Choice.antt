-- ===== src/FreeSpace/V2/Choice.antt =====
-- The freelist that is chosen stands under a transaction id that is not earlier.
use paradedb.Common.{
  ℕ, ◌≤◌, ◌<◌, ◌≡◌, refl, ◌∙◌, ap, true, false, Option, none, some, List, [], ◌∷◌, contains,
  contains-eq-true, count-append, length, All, All-imp, ltb, ◌==◌, ==→eq, if◌then◌else◌, Bool-cases,
  Option-cases, inl, inr, Outcome, ok, arith,
}
use paradedb.Avl.{AvlTreeMapHeader, l, r, height, get, get_max_slot}
use paradedb.Avl.Tree.{Tree, inorder, key_at}
use paradedb.Avl.Iter.Inorder.{IsAscending, inorder-IsAscending}
use paradedb.Avl.Max.{IsGreatest, get_max_slot_lem}
use paradedb.Avl.Change.{and_then, insert}
use paradedb.Avl.Change.Shape.{IsAvl-Represents, slot-put_same, slot-put_other}
use paradedb.Avl.Change.Distinct.{contains-count_zero}
use paradedb.Avl.Change.Relinked.{field-put}
use paradedb.Avl.Change.Subtree.{IsAvl-same_links}
use paradedb.Avl.Change.Entries.{entries, lookup, lookup-present}
use paradedb.Avl.Change.Order.{apart, IsAscending-IsOrdered}
use paradedb.Avl.Change.Valid.{IsMap, IsMap-depth, FreeList-frame, insert_lem}
use paradedb.Avl.Maps.{get-lookup, lookup-inserted}
use paradedb.FreeSpace.V2.Root.{Value, FsmArena, raise_key, handle_full_tree, or_full, start_block}

raise-other :
    (a : FsmArena) (i key j : ℕ) → (j == i) ≡ false → key_at (raise_key a i key) j ≡ key_at a j
raise-other a i key j h = ap (λ n. n.key) (slot-put_other a i j (record (a.slot i) { key = key }) h)

raise-same : (a : FsmArena) (i key : ℕ) → key_at (raise_key a i key) i ≡ key
raise-same a i key = ap (λ n. n.key) (slot-put_same a i (record (a.slot i) { key = key }))

raise-above :
    (a : FsmArena) (i key j : ℕ) → key_at a i < key → key_at a j ≤ key_at (raise_key a i key) j
raise-above a i key j h = elim (Bool-cases (j == i)) [
  | inl e ↦ omega (
    arith,
    raise-same a i key,
    ap (key_at (raise_key a i key)) (==→eq j i e),
    ap (key_at a) (==→eq j i e),
  )
  | inr e ↦ omega (arith, raise-other a i key j e)
]

raise-IsAscending :
    (a : FsmArena) (i key : ℕ) (is : List ℕ)
    → key_at a i < key
    → contains i is ≡ true
    → All (λ j. key_at a j ≤ key_at a i) is
    → IsAscending a is
    → IsAscending (raise_key a i key) is
raise-IsAscending a i key [] h c m up = tt
raise-IsAscending a i key (x ∷ is) h c m (lo, up) = elim (Bool-cases (x == i)) [
  | inl e ↦ last is lo m.1 (==→eq x i e)
  | inr e ↦ (
    All-imp (λ j. key_at a x < key_at a j)
        (λ j. key_at (raise_key a i key) x < key_at (raise_key a i key) j)
        (λ j p. omega (arith, raise-other a i key x e, raise-above a i key j h)) is lo,
    raise-IsAscending a i key is h (ground (arith, c, e)) m.1 up,
  )
]
  where
    last :
        (is : List ℕ)
        → All (λ j. key_at a x < key_at a j) is
        → All (λ j. key_at a j ≤ key_at a i) is
        → x ≡ i
        → IsAscending (raise_key a i key) (x ∷ is)
    last [] lo m e = (tt, tt)
    last (y ∷ ys) lo m e = absurd (omega (arith, lo.0, m.0, ap (key_at a) e))

raise-links :
    (a : FsmArena) (i key j : ℕ)
    → (l ((raise_key a i key).slot j) ≡ l (a.slot j))
      × (r ((raise_key a i key).slot j) ≡ r (a.slot j))
      × (height ((raise_key a i key).slot j) ≡ height (a.slot j))
unfolding l r height
raise-links a i key j =
    let n = record (a.slot i) { key = key } in
    (field-put l a i n refl j, field-put r a i n refl j, field-put height a i n refl j)

raise-IsMap :
    (header : AvlTreeMapHeader) (a : FsmArena) (t : Tree) (fs : List ℕ) (i key : ℕ)
    → key_at a i < key
    → IsGreatest a (inorder t) i
    → IsMap header a t fs
    → IsMap header (raise_key a i key) t fs
raise-IsMap header a t fs i key h (c, g) m =
    let b = raise_key a i key in
    let away : contains i fs ≡ false =
      contains-count_zero i fs (
        omega
          (arith, m.apart i, count-append i (inorder t) fs, contains-eq-true i (inorder t) c)) in
    record {
      size = m.size;
      avl = IsAvl-same_links a b header.root t refl (raise-links a i key) m.avl;
      free =
          FreeList-frame a b header.free_head fs refl
            (λ j k. slot-put_other a i j (record (a.slot i) { key = key }) (apart j i fs k away))
            m.free;
      apart = m.apart;
      every = m.every;
      ordered =
          IsAscending-IsOrdered b t
            (raise-IsAscending a i key (inorder t) h c g (inorder-IsAscending a t m.ordered));
      counted = m.counted;
    }

-- The tag stands in the map under a transaction id that is not earlier.
abbrev pub Covers : ℕ → AvlTreeMapHeader → FsmArena → ℕ → ℕ → Type 0
Covers fuel header a when_recyclable tag =
    (k : ℕ) × (v : Value) × (get header a fuel k ≡ some (ok (some (v, tag))))
    × (when_recyclable ≤ k)

handle_full_tree-run :
    (fuel : ℕ) (header : AvlTreeMapHeader) (a : FsmArena) (when_recyclable i : ℕ)
    → get_max_slot header a fuel ≡ some (ok (some i))
    → handle_full_tree fuel header a when_recyclable
      ≡ some (
          ok (
            (a.slot i).tag,
            if ltb (a.slot i).key when_recyclable then raise_key a i when_recyclable else a,
          ))
unfolding handle_full_tree
handle_full_tree-run fuel header a when_recyclable i e = rw e refl

abbrev FullResult :
    ℕ → AvlTreeMapHeader → Tree → List ℕ → ℕ → Option (Outcome (ℕ × FsmArena)) → Type 0
FullResult fuel header t fs when_recyclable result =
    (tag : ℕ) × (a' : FsmArena) × (result ≡ some (ok (tag, a')))
    × IsMap header a' t fs
    × Covers fuel header a' when_recyclable tag

full_at :
    (fuel : ℕ) (header : AvlTreeMapHeader) (a : FsmArena) (t : Tree) (fs : List ℕ)
    (when_recyclable i : ℕ)
    → 33 < fuel
    → IsMap header a t fs
    → IsGreatest a (inorder t) i
    → FullResult fuel header t fs when_recyclable (
        some (
          ok (
            (a.slot i).tag,
            if ltb (a.slot i).key when_recyclable then raise_key a i when_recyclable else a,
          )))
full_at fuel header a t fs when_recyclable i f m (c, g) =
    elim (Bool-cases (ltb (a.slot i).key when_recyclable)) [
      | inl later ↦
          let b = raise_key a i when_recyclable in
          let m' = raise-IsMap header a t fs i when_recyclable (ground arith) (c, g) m in
          let up = inorder-IsAscending b t m'.ordered in
          rw later (
            (a.slot i).tag,
            b,
            refl,
            m',
            (
              when_recyclable,
              (b.slot i).val,
              get-lookup fuel header b t fs when_recyclable f m'
                  ∙ ap (λ o. some (ok o))
                      (lookup-present b when_recyclable i (inorder t) up c
                        (raise-same a i when_recyclable))
                  ∙ ap (λ n. some (ok (some ((b.slot i).val, n.tag))))
                      (slot-put_same a i (record (a.slot i) { key = when_recyclable })),
              omega arith,
            ),
          )
      | inr early ↦
          let up = inorder-IsAscending a t m.ordered in
          rw early (
            (a.slot i).tag,
            a,
            refl,
            m,
            (
              (a.slot i).key,
              (a.slot i).val,
              get-lookup fuel header a t fs (a.slot i).key f m
                  ∙ ap (λ o. some (ok o)) (lookup-present a (a.slot i).key i (inorder t) up c refl),
              ground arith,
            ),
          )
    ]

handle_full_tree_lem :
    (fuel : ℕ) (header : AvlTreeMapHeader) (a : FsmArena) (t : Tree) (fs : List ℕ)
    (when_recyclable : ℕ)
    → 33 < fuel
    → IsMap header a t fs
    → fs ≡ []
    → 0 < a.capacity
    → FullResult fuel header t fs when_recyclable (handle_full_tree fuel header a when_recyclable)
handle_full_tree_lem fuel header a t fs when_recyclable f m full c =
    let low = IsMap-depth header a t fs m in
    let (found, run, which) =
      get_max_slot_lem a header fuel t (omega arith) (IsAvl-Represents a _ t m.avl) m.ordered in
    elim which [
      | inl (nothing, e) ↦ absurd (omega (arith, m.every, ap length full, ap length nothing))
      | inr (i, e, g) ↦
          rw (handle_full_tree-run fuel header a when_recyclable i (run ∙ ap (λ o. some (ok o)) e))
            (full_at fuel header a t fs when_recyclable i f m g)
    ]

-- How start_block goes on.
start_block-found :
    (fuel : ℕ) (header : AvlTreeMapHeader) (a : FsmArena) (when_recyclable tag : ℕ) (v : Value)
    → get header a fuel when_recyclable ≡ some (ok (some (v, tag)))
    → start_block fuel header a when_recyclable ≡ some (ok (tag, header, a))
unfolding start_block
start_block-found fuel header a when_recyclable tag v e = rw e refl

start_block-none :
    (fuel : ℕ) (header : AvlTreeMapHeader) (a : FsmArena) (when_recyclable : ℕ)
    → get header a fuel when_recyclable ≡ some (ok none)
    → start_block fuel header a when_recyclable
      ≡ or_full
          (insert fuel header a when_recyclable tt)
          header
          (handle_full_tree fuel header a when_recyclable)
unfolding start_block
start_block-none fuel header a when_recyclable e = rw e refl

-- On a root page with a map of one slot at least, with fuel 34, a freelist is always chosen. Its
-- first block is the tag of an entry of the map, under the given transaction id or, when the map is
-- full, a later one, so that no block is free before its time; the page still holds a map.
pub start_block_lem :
    (fuel : ℕ) (header : AvlTreeMapHeader) (a : FsmArena) (t : Tree) (fs : List ℕ)
    (when_recyclable : ℕ)
    → 33 < fuel
    → IsMap header a t fs
    → 0 < a.capacity
    → (tag : ℕ) × (header' : AvlTreeMapHeader) × (a' : FsmArena) × (t' : Tree) × (fs' : List ℕ)
      × (start_block fuel header a when_recyclable ≡ some (ok (tag, header', a')))
      × IsMap header' a' t' fs'
      × Covers fuel header' a' when_recyclable tag
start_block_lem fuel header a t fs when_recyclable f m c =
    let es = entries a (inorder t) in
    let found = get-lookup fuel header a t fs when_recyclable f m in
    elim (Option-cases (lookup when_recyclable es)) [
      | inr ((v, tag), e) ↦
          let there = found ∙ ap (λ o. some (ok o)) e in
          (
            tag,
            header,
            a,
            t,
            fs,
            start_block-found fuel header a when_recyclable tag v there,
            m,
            (when_recyclable, v, there, omega arith),
          )
      | inl e ↦
          let step =
            start_block-none fuel header a when_recyclable (found ∙ ap (λ o. some (ok o)) e) in
          elim (insert_lem fuel header a t fs when_recyclable tt f m) [
            | inl (tag, header', a', t', fs', run, m', size, es', had) ↦ (
              tag,
              header',
              a',
              t',
              fs',
              step
                  ∙ ap (λ x. or_full x header (handle_full_tree fuel header a when_recyclable)) run,
              m',
              (
                when_recyclable,
                tt,
                get-lookup fuel header' a' t' fs' when_recyclable f m'
                    ∙ ap (λ zs. some (ok (lookup when_recyclable zs))) es'
                    ∙ lookup-inserted when_recyclable when_recyclable (tt, tag) es
                    ∙ ground arith,
                omega arith,
              ),
            )
            | inr (run, full, absent) ↦
                let (tag, a', over, m', covers) =
                  handle_full_tree_lem fuel header a t fs when_recyclable f m full c in
                (
                  tag,
                  header,
                  a',
                  t,
                  fs,
                  step
                      ∙ ap (λ x. or_full x header (handle_full_tree fuel header a when_recyclable))
                          run
                      ∙ ap (λ x. and_then x (λ (tag, b). some (ok (tag, header, b)))) over,
                  m',
                  covers,
                )
          ]
    ]
