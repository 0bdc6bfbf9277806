-- ===== src/Avl/Remove/Sides.antt =====
-- What `delete_rec` makes of a node, from what it makes of a subtree.
use mathlib.Core.Option
use paradedb.Common.{
  ℕ, ◌+◌, ◌≤◌, ◌<◌, ◌≡◌, ◌≢◌, sym, ◌∙◌, ap, true, Option, some, List, [], ◌∷◌, ◌++◌, IsDistinct,
  All, All-imp, is_some, Outcome, ok, arith,
}
use paradedb.Avl.{Arena, in_range, l, r, set_l, set_r, u16_mod}
use paradedb.Avl.Tree.{Tree, node, depth, inorder, key_at}
use paradedb.Avl.Change.{and_then}
use paradedb.Avl.Change.Shape.{IsAvl}
use paradedb.Avl.Change.Entries.{lookup}
use paradedb.Avl.Remove.{Deleted, hang_deleted}
use paradedb.Avl.Change.Entries.{entry_at, entries}
use paradedb.Avl.Remove.Deletes.{Deletes, entries-middle}
use paradedb.Avl.Remove.Entries.{
  remove_entry, Lacks, remove-on_left, remove-on_right, remove-head, entries-Lacks,
}
use paradedb.Avl.Remove.Hang.{hang_left}
use paradedb.Avl.Remove.HangRight.{hang_right}

module _ {ℓ} {V T : Type ℓ} where
  abbrev pub DeleteResult :
      Arena V T → Option ℕ → Tree → ℕ → Option (Outcome (Deleted V T)) → Type ℓ
  DeleteResult a free t key result =
      (out : Deleted V T) × (t' : Tree) × (result ≡ some (ok out))
      × Deletes a free t (remove_entry key (entries a (inorder t))) out t'
      × (out.removed_val ≡ Option.map (λ p. p.0) (lookup key (entries a (inorder t))))
      × (out.did_remove ≡ is_some (lookup key (entries a (inorder t))))

  -- The entries that removal leaves, and the one that it finds, given in another way.
  pub delete_as :
      (a : Arena V T) (free : Option ℕ) (t : Tree) (key : ℕ) (ts : List (ℕ × (V × T)))
      (found : Option (V × T)) (result : Option (Outcome (Deleted V T)))
      → remove_entry key (entries a (inorder t)) ≡ ts
      → lookup key (entries a (inorder t)) ≡ found
      → (out : Deleted V T) × (t' : Tree) × (result ≡ some (ok out))
        × Deletes a free t ts out t'
        × (out.removed_val ≡ Option.map (λ p. p.0) found)
        × (out.did_remove ≡ is_some found)
      → DeleteResult a free t key result
  delete_as a free t key ts found result e f h = rw e (rw f h)

  module _ (a : Arena V T) (free : Option ℕ) (i : ℕ) (t u : Tree) (key : ℕ) where
    Lacks-right :
        key < key_at a i
        → All (λ j. key_at a i < key_at a j) (inorder u)
        → Lacks key (entry_at a i ∷ entries a (inorder u))
    Lacks-right k hi = (
      omega arith,
      entries-Lacks a key (inorder u) (
          All-imp (λ j. key_at a i < key_at a j) (λ j. key_at a j ≢ key) (λ j m. omega arith)
            (inorder u) hi),
    )

    Lacks-left :
        key_at a i ≤ key
        → All (λ j. key_at a j < key_at a i) (inorder t)
        → Lacks key (entries a (inorder t))
    Lacks-left k lo = entries-Lacks a key (inorder t) (
        All-imp (λ j. key_at a j < key_at a i) (λ j. key_at a j ≢ key) (λ j m. omega arith)
          (inorder t) lo)

    module _ (c : a.capacity < u16_mod) (g : in_range a i ≡ true)
        (d : IsDistinct (inorder (node i t u))) (dt : depth t < 120) (du : depth u < 120)
        (p : depth t ≤ depth u + 1) (q : depth u ≤ depth t + 1) where
      pub delete_left :
          IsAvl a (r (a.slot i)) u
          → key < key_at a i
          → All (λ j. key_at a i < key_at a j) (inorder u)
          → (result : Option (Outcome (Deleted V T))) → DeleteResult a free t key result
          → DeleteResult a free
              (node i t u)
              key
              (and_then result (λ rec. some (hang_deleted i set_l rec)))
      unfolding inorder
      delete_left iu k hi result (out, t1, e, s, val, did) =
          let (b2, i2, t2, run, s') = hang_left a free i t u c g d dt du p q out t1 _ iu s in
          let split = entries-middle a (inorder t) i (inorder u) in
          let laws =
            remove-on_left key (entries a (inorder t)) (entry_at a i ∷ entries a (inorder u))
              (Lacks-right k hi) in
          delete_as a free (node i t u) key _ (lookup key (entries a (inorder t))) _
            (ap (remove_entry key) split ∙ laws.0) (ap (lookup key) split ∙ laws.1)
            (record out { arena = b2; root = some i2 }, t2, rw e (ap some run), s', val, did)

      pub delete_right :
          IsAvl a (l (a.slot i)) t
          → key_at a i < key
          → All (λ j. key_at a j < key_at a i) (inorder t)
          → (result : Option (Outcome (Deleted V T))) → DeleteResult a free u key result
          → DeleteResult a free
              (node i t u)
              key
              (and_then result (λ rec. some (hang_deleted i set_r rec)))
      unfolding inorder
      delete_right it k lo result (out, u1, e, s, val, did) =
          let (b2, i2, t2, run, s') = hang_right a free i t u c g d dt du p q out u1 _ it s in
          let split = entries-middle a (inorder t) i (inorder u) in
          let at_i =
            remove-on_right key (entry_at a i ∷ []) (entries a (inorder u)) (omega arith, tt) in
          let laws =
            remove-on_right key (entries a (inorder t)) (entry_at a i ∷ entries a (inorder u))
              (Lacks-left (omega arith) lo) in
          delete_as a free (node i t u) key _ (lookup key (entries a (inorder u))) _
            (ap (remove_entry key) split ∙ laws.0 ∙ ap (λ es. entries a (inorder t) ++ es) (at_i.0))
            (ap (lookup key) split ∙ laws.1 ∙ at_i.1)
            (record out { arena = b2; root = some i2 }, t2, rw e (ap some run), s', val, did)

    -- The entries about a node with the key.
    pub remove_here :
        key_at a i ≡ key
        → All (λ j. key_at a j < key_at a i) (inorder t)
        → (remove_entry key (entries a (inorder (node i t u)))
            ≡ entries a (inorder t) ++ entries a (inorder u))
          × (lookup key (entries a (inorder (node i t u))) ≡ some ((a.slot i).val, (a.slot i).tag))
    unfolding inorder
    remove_here k lo =
        let split = entries-middle a (inorder t) i (inorder u) in
        let laws =
          remove-on_right key (entries a (inorder t)) (entry_at a i ∷ entries a (inorder u))
            (Lacks-left (omega arith) lo) in
        let head =
          remove-head (key_at a i) ((a.slot i).val, (a.slot i).tag) (entries a (inorder u)) in
        let at_head : (remove_entry key (entry_at a i ∷ entries a (inorder u))
              ≡ entries a (inorder u))
            × (lookup key (entry_at a i ∷ entries a (inorder u))
                ≡ some ((a.slot i).val, (a.slot i).tag)) =
          rw (sym k) head in
        (
          ap (remove_entry key) split ∙ laws.0 ∙ ap (λ es. entries a (inorder t) ++ es) (at_head.0),
          ap (lookup key) split ∙ laws.1 ∙ at_head.1,
        )
