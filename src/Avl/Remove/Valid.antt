-- ===== src/Avl/Remove/Valid.antt =====
-- Removal from an arena that holds a map.
use mathlib.Core.Option
use paradedb.Common.{
  ℕ, ◌<◌, ◌≡◌, refl, sym, ◌∙◌, inl, inr, true, Option, some, List, [], ◌∷◌, contains,
  contains-eq-true, count-append, All, Bool-cases, ◌==◌, if◌then◌else◌, ok, arith,
}
use paradedb.Avl.{Arena, AvlTreeMapHeader, u16_mod}
use paradedb.Avl.Tree.{Tree, inorder, key_at}
use paradedb.Avl.Iter.Inorder.{IsAscending, inorder-IsAscending}
use paradedb.Avl.Change.Shape.{Fits}
use paradedb.Avl.Change.Distinct.{contains-count_zero}
use paradedb.Avl.Change.Insert.{FreeList}
use paradedb.Avl.Change.Entries.{lookup}
use paradedb.Avl.Change.Order.{IsAscending-IsOrdered}
use paradedb.Avl.Change.Valid.{IsMap, IsMap-depth, FreeList-frame}
use paradedb.Avl.Remove.{Deleted, wrapping_pred, delete_rec, remove}
use paradedb.Avl.Change.Entries.{entries}
use paradedb.Avl.Remove.Deletes.{Deletes}
use paradedb.Avl.Remove.Entries.{remove_entry}
use paradedb.Avl.Remove.Sides.{DeleteResult}
use paradedb.Avl.Remove.Induction.{delete_rec_lem}

-- The keys of these entries increase.
abbrev pub Increasing {ℓ} : {A : Type ℓ} → List (ℕ × A) → Type 0
Increasing [] = Unit
Increasing ((k, v) ∷ es) = All (λ e. k < e.0) es × Increasing es

remove_entry-All {ℓ} :
    {A : Type ℓ} (m key : ℕ) (es : List (ℕ × A))
    → All (λ e. m < e.0) es
    → All (λ e. m < e.0) (remove_entry key es)
unfolding remove_entry
remove_entry-All m key [] h = tt
remove_entry-All m key ((k, v) ∷ es) h = elim (Bool-cases (key == k)) [
  | inl e ↦ rw e h.1
  | inr e ↦ rw e (h.0, remove_entry-All m key es h.1)
]

remove_entry-Increasing {ℓ} :
    {A : Type ℓ} (key : ℕ) (es : List (ℕ × A)) → Increasing es → Increasing (remove_entry key es)
unfolding remove_entry
remove_entry-Increasing key [] h = tt
remove_entry-Increasing key ((k, v) ∷ es) h = elim (Bool-cases (key == k)) [
  | inl e ↦ rw e h.1
  | inr e ↦ rw e (remove_entry-All k key es h.0, remove_entry-Increasing key es h.1)
]

module _ {ℓ} {V T : Type ℓ} where
  All-entries :
      (a : Arena V T) (m : ℕ) (is : List ℕ)
      → (All (λ j. m < key_at a j) is → All (λ e. m < e.0) (entries a is))
        × (All (λ e. m < e.0) (entries a is) → All (λ j. m < key_at a j) is)
  All-entries a m [] = (λ h. tt, λ h. tt)
  All-entries a m (i ∷ is) =
      let (p, q) = All-entries a m is in (λ h. (h.0, p h.1), λ h. (h.0, q h.1))

  pub Increasing-entries :
      (a : Arena V T) (is : List ℕ)
      → (IsAscending a is → Increasing (entries a is))
        × (Increasing (entries a is) → IsAscending a is)
  Increasing-entries a [] = (λ h. tt, λ h. tt)
  Increasing-entries a (i ∷ is) =
      let (p, q) = Increasing-entries a is in
      let (f, g) = All-entries a (key_at a i) is in (λ h. (f h.0, p h.1), λ h. (g h.0, q h.1))

  FreeList-Fits :
      (a : Arena V T) (cur : Option ℕ) (fs : List ℕ)
      → a.capacity < u16_mod
      → FreeList a cur fs
      → Fits cur
  unfolding FreeList
  FreeList-Fits a cur [] c e = rw e tt
  FreeList-Fits a cur (f ∷ fs) c (e, g, rest) = rw e (ground (arith, g))

  -- The header that remove leaves.
  abbrev header_after : AvlTreeMapHeader → Deleted V T → AvlTreeMapHeader
  header_after header out = record {
    root = out.root;
    free_head = out.free_head;
    len = if out.did_remove then wrapping_pred header.len else header.len;
  }

  remove-run :
      (fuel : ℕ) (header : AvlTreeMapHeader) (a : Arena V T) (key : ℕ) (out : Deleted V T)
      → delete_rec fuel a header.free_head header.root key ≡ some (ok out)
      → remove fuel header a key ≡ some (ok (out.removed_val, header_after header out, out.arena))
  unfolding remove
  remove-run fuel header a key out e = rw e refl

  remove-IsMap :
      (header : AvlTreeMapHeader) (a : Arena V T) (t : Tree) (fs : List ℕ) (key : ℕ)
      (out : Deleted V T) (t' : Tree)
      → IsMap header a t fs
      → Deletes a header.free_head t (remove_entry key (entries a (inorder t))) out t'
      → (fs' : List ℕ) × IsMap (header_after header out) out.arena t' fs'
  unfolding FreeList
  remove-IsMap header a t fs key out t' m s =
      let b = out.arena in
      let outside : (j : ℕ) → contains j fs ≡ true → b.slot j ≡ a.slot j = λ j h. s.outside j (
        contains-count_zero j (inorder t)
          (omega (arith, m.apart j, count-append j (inorder t) fs, contains-eq-true j fs h))) in
      let up : IsAscending b (inorder t') = (Increasing-entries b (inorder t')).1 (
        rw s.left (
          remove_entry-Increasing key _
            ((Increasing-entries a (inorder t)).0 (inorder-IsAscending a t m.ordered)))) in
      let order = IsAscending-IsOrdered b t' up in
      let list = FreeList-frame a b header.free_head fs s.size outside m.free in
      elim (s.place) [
        | inl (same, fr, did) ↦ (
          fs,
          record {
            size = rw s.size m.size;
            avl = s.avl;
            free = rw fr list;
            apart = rw same m.apart;
            every = rw same (m.every ∙ sym s.size);
            ordered = order;
            counted = rw same (rw did m.counted);
          },
        )
        | inr (f, g, fr, next, once, one, did) ↦ (
          f ∷ fs,
          record {
            size = rw s.size m.size;
            avl = s.avl;
            free = (fr, rw s.size g, rw next list);
            apart = λ j. omega (
              arith,
              m.apart j,
              once j,
              count-append j (inorder t') (f ∷ fs),
              count-append j (inorder t) fs,
            );
            every = rw s.size (omega (arith, m.every, one));
            ordered = order;
            counted = rw did (ground (arith, m.counted, one));
          },
        )
      ]

  -- What remove promises: the map without the key's entry, and the value that it had.
  abbrev pub RemoveSpec : ℕ → AvlTreeMapHeader → Arena V T → Tree → ℕ → Type ℓ
  RemoveSpec fuel header a t key =
      (header' : AvlTreeMapHeader) × (a' : Arena V T) × (t' : Tree) × (fs' : List ℕ) × (remove fuel
          header a key
        ≡ some (ok (Option.map (λ p. p.0) (lookup key (entries a (inorder t))), header', a')))
      × IsMap header' a' t' fs'
      × (a'.capacity ≡ a.capacity)
      × (entries a' (inorder t') ≡ remove_entry key (entries a (inorder t)))

  remove_result :
      (fuel : ℕ) (header : AvlTreeMapHeader) (a : Arena V T) (t : Tree) (fs : List ℕ) (key : ℕ)
      → IsMap header a t fs
      → DeleteResult a header.free_head t key (delete_rec fuel a header.free_head header.root key)
      → RemoveSpec fuel header a t key
  remove_result fuel header a t fs key m (out, t', e, s, val, did) =
      let (fs', m') = remove-IsMap header a t fs key out t' m s in
      (
        header_after header out,
        out.arena,
        t',
        fs',
        rw (sym val) (remove-run fuel header a key out e),
        m',
        s.size,
        s.left,
      )

  -- With fuel 34, removal from an arena that holds a map never panics nor runs out. It returns the
  -- value of the key, none when the key is not there, and the arena holds a map again: the AVL
  -- balance, the heights, the order, the count and the free list, which takes the slot, are right,
  -- and the entries in order, each with its tag, are those of before less that of the key.
  pub remove_lem :
      (fuel : ℕ) (header : AvlTreeMapHeader) (a : Arena V T) (t : Tree) (fs : List ℕ) (key : ℕ)
      → 33 < fuel
      → IsMap header a t fs
      → RemoveSpec fuel header a t key
  remove_lem fuel header a t fs key f m =
      let low = IsMap-depth header a t fs m in
      remove_result fuel header a t fs key m (
        delete_rec_lem fuel a header.free_head header.root t key m.size
          (FreeList-Fits a header.free_head fs m.size m.free) (omega arith) (omega arith) m.avl
          (λ j. omega (arith, m.apart j, count-append j (inorder t) fs)) m.ordered)
