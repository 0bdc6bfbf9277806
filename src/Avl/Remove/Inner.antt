-- ===== src/Avl/Remove/Inner.antt =====
-- Removal of a node with two children.
use paradedb.Common.{
  ℕ, ◌+◌, ◌≤◌, ◌<◌, ◌≡◌, refl, sym, ◌∙◌, ap, inl, inr, true, false, Option, some, List, ◌∷◌, ◌++◌,
  contains, IsDistinct, All, is_some, ◌==◌, ==_refl, Outcome, ok, arith,
}
use paradedb.Avl.{Arena, in_range, l, r, set_r, u16_mod}
use paradedb.Avl.Tree.{Tree, node, depth, inorder, key_at, contains-right, contains-middle}
use paradedb.Avl.Change.Shape.{IsAvl}
use paradedb.Avl.Change.Entries.{lookup}
use paradedb.Avl.Change.Distinct.{Parts, IsDistinct-Parts, contains-count_zero}
use paradedb.Avl.Change.Order.{apart, different}
use paradedb.Avl.Remove.{Deleted, min_index, overwrite, hang_deleted, delete_inner}
use paradedb.Avl.Change.Entries.{entry_at, entries}
use paradedb.Avl.Remove.Deletes.{Deletes, entries-same}
use paradedb.Avl.Remove.Entries.{remove_entry, remove-head}
use paradedb.Avl.Remove.HangRight.{hang_right}
use paradedb.Avl.Remove.Successor.{Moved}
use paradedb.Avl.Remove.Sides.{DeleteResult, delete_as, remove_here}

module _ {ℓ} {V T : Type ℓ} where
  -- The removed value is the node's own.
  Deletes-retv :
      (a : Arena V T) (free : Option ℕ) (t : Tree) (ts : List (ℕ × (V × T))) (out : Deleted V T)
      (t' : Tree) (val : V)
      → out.did_remove ≡ true
      → Deletes a free t ts out t'
      → Deletes a free t ts (record out { removed_val = some val; did_remove = true }) t'
  Deletes-retv a free t ts out t' val did s = record {
    avl = s.avl;
    low = s.low;
    high = s.high;
    size = s.size;
    outside = s.outside;
    left = s.left;
    shrunk = s.shrunk;
    place = elim (s.place) [
      | inl k ↦ absurd (ground (arith, k.2, did))
      | inr (f, g, fr, next, once, one, d) ↦ inr (f, g, fr, next, once, one, refl)
    ];
  }

  -- The writes to the node and to its successor come first.
  Deletes-Moved :
      (a b : Arena V T) (i s : ℕ) (free : Option ℕ) (t : Tree) (ts : List (ℕ × (V × T)))
      (out : Deleted V T) (t' : Tree)
      → Moved a b i s
      → contains i (inorder t) ≡ true
      → contains s (inorder t) ≡ true
      → Deletes b free t ts out t'
      → Deletes a free t ts out t'
  Deletes-Moved a b i s free t ts out t' m ci cs d = record {
    avl = d.avl;
    low = d.low;
    high = d.high;
    size = d.size ∙ m.size;
    outside = λ j h.
        d.outside j h
        ∙ m.others j (different j i (inorder t) h ci) (different j s (inorder t) h cs);
    left = d.left;
    shrunk = d.shrunk;
    place = elim (d.place) [
      | inl k ↦ inl k
      | inr (f, g, fr, next, once, one, e) ↦ inr (f, rw m.size at g, fr, next, once, one, e)
    ];
  }

  delete_inner-run :
      (fuel : ℕ) (a b : Arena V T) (i y s : ℕ) (val : V) (root : Option ℕ) (key : ℕ)
      (rec out : Deleted V T) (recurse : Arena V T → Option ℕ → ℕ → Option (Outcome (Deleted V T)))
      → min_index fuel a y ≡ some (ok s)
      → overwrite a i s ≡ ok (b, root, key)
      → recurse b root key ≡ some (ok rec)
      → hang_deleted i set_r (record rec { removed_val = some val; did_remove = true }) ≡ ok out
      → delete_inner fuel a i val y recurse ≡ some (ok out)
  unfolding delete_inner
  delete_inner-run fuel a b i y s val root key rec out recurse e f g h =
      rw e (rw f (rw g (rw h refl)))

  module _ (a b : Arena V T) (free : Option ℕ) (i s : ℕ) (t u : Tree) (ys : List ℕ) (key : ℕ)
      (c : a.capacity < u16_mod) (g : in_range a i ≡ true) (d : IsDistinct (inorder (node i t u)))
      (dt : depth t < 120) (du : depth u < 120) (p : depth t ≤ depth u + 1)
      (q : depth u ≤ depth t + 1) (m : Moved a b i s) (order : inorder u ≡ s ∷ ys) where
    parts : Parts i t u
    parts = IsDistinct-Parts i t u d

    in_right : contains s (inorder u) ≡ true
    in_right = rw order (rw (==_refl s))

    from_i : (i == s) ≡ false
    from_i = different i s (inorder u) parts.from_right in_right

    -- The entries of the two subtrees after the writes.
    moved_left : entries b (inorder t) ≡ entries a (inorder t)
    moved_left = entries-same a b (inorder t) (λ j h.
        ap (λ n. (n.key, (n.val, n.tag)))
          (m.others j (apart j i (inorder t) h parts.from_left)
            (different j s (inorder u) (parts.left_right j h) in_right)))

    moved_right : entries b ys ≡ entries a ys
    moved_right = entries-same a b ys (λ j h.
        ap (λ n. (n.key, (n.val, n.tag)))
          (m.others j (apart j i (inorder u) (rw order (later j s ys h)) parts.from_right)
            (apart j s ys h (head_apart ys (rw order at (parts.distinct_right))))))
      where
        later : (j s : ℕ) (ys : List ℕ) → contains j ys ≡ true → contains j (s ∷ ys) ≡ true
        later j s ys h = ground arith

        head_apart : (ys : List ℕ) → IsDistinct (s ∷ ys) → contains s ys ≡ false
        head_apart ys h = contains-count_zero s ys (ground (arith, h s, ==_refl s))

    moved_key : key_at b s ≡ key_at a s
    moved_key = m.keys s (ground (arith, from_i))

    -- The entries that are left of the right subtree, before it is hung back.
    successor_entries :
        (remove_entry (key_at a s) (entries b (inorder u)) ≡ entries a ys)
        × (lookup (key_at a s) (entries b (inorder u)) ≡ some ((b.slot s).val, (b.slot s).tag))
    successor_entries =
        let head = remove-head (key_at b s) ((b.slot s).val, (b.slot s).tag) (entries b ys) in
        let split : entries b (inorder u) ≡ entry_at b s ∷ entries b ys = ap (entries b) order in
        (
          rw (sym moved_key) (ap (remove_entry (key_at b s)) split ∙ head.0 ∙ moved_right),
          rw (sym moved_key) (ap (lookup (key_at b s)) split ∙ head.1),
        )

    pub inner_lem :
        (fuel y : ℕ) (recurse : Arena V T → Option ℕ → ℕ → Option (Outcome (Deleted V T)))
        → IsAvl b (l (b.slot i)) t
        → min_index fuel a y ≡ some (ok s)
        → overwrite a i s ≡ ok (b, r (a.slot i), key_at a s)
        → key_at a i ≡ key
        → All (λ j. key_at a j < key_at a i) (inorder t)
        → DeleteResult b free u (key_at a s) (recurse b (r (a.slot i)) (key_at a s))
        → DeleteResult a free (node i t u) key (delete_inner fuel a i (a.slot i).val y recurse)
    unfolding inorder
    inner_lem fuel y recurse it least over k lo (rec, u1, e, s1, val, did) =
        let found : rec.did_remove ≡ true = did ∙ ap is_some (successor_entries.1) in
        let kept = Deletes-retv b free u _ rec u1 (a.slot i).val found s1 in
        let (b2, i2, t2, run, s2) =
          hang_right b free i t u (rw m.size c) (rw m.size g) d dt du p q
            (record rec { removed_val = some (a.slot i).val; did_remove = true }) u1 _ it kept in
        let here = remove_here a free i t u key k lo in
        let same : entries b (inorder t)
              ++ entry_at b i ∷ remove_entry (key_at a s) (entries b (inorder u))
            ≡ entries a (inorder t) ++ entries a (inorder u) =
          rw moved_left (rw m.here (rw (successor_entries.0) (rw order))) in
        delete_as a free (node i t u) key _ _ _ (here.0) (here.1) (
          record rec {
            arena = b2;
            root = some i2;
            removed_val = some (a.slot i).val;
            did_remove = true;
          },
          t2,
          delete_inner-run fuel a b i y s (a.slot i).val (r (a.slot i)) (key_at a s) rec _ recurse
              least over e run,
          Deletes-Moved a b i s free (node i t u) _ _ t2 m
              (contains-middle i (inorder t) (inorder u))
              (contains-right s (inorder t) (i ∷ inorder u) (ground (arith, in_right)))
              (rw same at s2),
          refl,
          refl,
        )
