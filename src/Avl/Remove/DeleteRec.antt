-- ===== src/Avl/Remove/DeleteRec.antt =====
-- `delete_rec` at a node, by the place of the key and the number of children.
use mathlib.Core.List.{append-nil}
use paradedb.Common.{
  ℕ, suc, ◌+◌, ◌≤◌, ◌<◌, ◌≡◌, refl, ◌∙◌, ap, true, Option, none, some, [], ◌∷◌, contains,
  IsDistinct, ==_refl, length-append, All, Outcome, arith,
}
use paradedb.Avl.{Arena, in_range, l, r, height, set_l, set_r, u16_mod}
use paradedb.Avl.Tree.{Tree, leaf, node, depth, inorder, key_at, IsOrdered}
use paradedb.Avl.Iter.Inorder.{inorder-IsAscending}
use paradedb.Avl.Change.{and_then}
use paradedb.Avl.Change.Shape.{Fits, IsAvl, read-ok}
use paradedb.Avl.Change.Distinct.{IsDistinct-Parts}
use paradedb.Avl.Change.Hang.{count-middle}
use paradedb.Avl.Change.Subtree.{IsAvl-same_links}
use paradedb.Avl.Change.Order.{apart, different, IsAscending-IsOrdered, IsAscending-keys}
use paradedb.Avl.Remove.{Deleted, unlink, hang_deleted, delete_inner, delete_here, delete_rec}
use paradedb.Avl.Change.Entries.{entries}
use paradedb.Avl.Remove.Unlink.{unlink_lem}
use paradedb.Avl.Remove.Successor.{min_index_lem, overwrite_lem}
use paradedb.Avl.Remove.Sides.{DeleteResult, delete_as, remove_here}
use paradedb.Avl.Remove.Inner.{inner_lem}

module _ {ℓ} {V T : Type ℓ} where
  pub delete_rec-lt :
      (fuel : ℕ) (a : Arena V T) (free : Option ℕ) (i key : ℕ)
      → in_range a i ≡ true
      → key < key_at a i
      → delete_rec (suc fuel) a free (some i) key
        ≡ and_then
            (delete_rec fuel a free (l (a.slot i)) key)
            (λ rec. some (hang_deleted i set_l rec))
  unfolding delete_rec
  delete_rec-lt fuel a free i key g h = rw (read-ok a i g) (ground arith)

  pub delete_rec-gt :
      (fuel : ℕ) (a : Arena V T) (free : Option ℕ) (i key : ℕ)
      → in_range a i ≡ true
      → key_at a i < key
      → delete_rec (suc fuel) a free (some i) key
        ≡ and_then
            (delete_rec fuel a free (r (a.slot i)) key)
            (λ rec. some (hang_deleted i set_r rec))
  unfolding delete_rec
  delete_rec-gt fuel a free i key g h = rw (read-ok a i g) (ground arith)

  delete_rec-eq :
      (fuel : ℕ) (a : Arena V T) (free : Option ℕ) (i key : ℕ)
      → in_range a i ≡ true
      → key_at a i ≡ key
      → delete_rec (suc fuel) a free (some i) key
        ≡ delete_here fuel a free i
            (a.slot i).val
            (l (a.slot i))
            (r (a.slot i))
            (λ b root k. delete_rec fuel b free root k)
  unfolding delete_rec
  delete_rec-eq fuel a free i key g h = rw (read-ok a i g) (ground arith)

  delete_here-no_left :
      (fuel : ℕ) (a : Arena V T) (free : Option ℕ) (i : ℕ) (val : V) (left right : Option ℕ)
      (recurse : Arena V T → Option ℕ → ℕ → Option (Outcome (Deleted V T)))
      → left ≡ none
      → delete_here fuel a free i val left right recurse ≡ some (unlink a free i val right)
  unfolding delete_here
  delete_here-no_left fuel a free i val left right recurse e = rw e refl

  delete_here-no_right :
      (fuel : ℕ) (a : Arena V T) (free : Option ℕ) (i : ℕ) (val : V) (left right : Option ℕ) (x : ℕ)
      (recurse : Arena V T → Option ℕ → ℕ → Option (Outcome (Deleted V T)))
      → left ≡ some x
      → right ≡ none
      → delete_here fuel a free i val left right recurse ≡ some (unlink a free i val left)
  unfolding delete_here
  delete_here-no_right fuel a free i val left right x recurse e f = rw e (rw f refl)

  delete_here-both :
      (fuel : ℕ) (a : Arena V T) (free : Option ℕ) (i : ℕ) (val : V) (left right : Option ℕ)
      (x y : ℕ) (recurse : Arena V T → Option ℕ → ℕ → Option (Outcome (Deleted V T)))
      → left ≡ some x
      → right ≡ some y
      → delete_here fuel a free i val left right recurse ≡ delete_inner fuel a i val y recurse
  unfolding delete_here
  delete_here-both fuel a free i val left right x y recurse e f = rw e (rw f refl)

  -- A node with the key and no left child, or no right child.
  pub delete_no_left :
      (fuel : ℕ) (a : Arena V T) (free : Option ℕ) (i : ℕ) (u : Tree) (key : ℕ)
      → in_range a i ≡ true
      → Fits free
      → IsDistinct (inorder (node i leaf u))
      → key_at a i ≡ key
      → l (a.slot i) ≡ none
      → IsAvl a (r (a.slot i)) u
      → DeleteResult a free (node i leaf u) key (delete_rec (suc fuel) a free (some i) key)
  unfolding inorder depth
  delete_no_left fuel a free i u key g fits d k e iu =
      let here = remove_here a free i leaf u key k tt in
      let (out, run, s, val, did) =
        unlink_lem a free i leaf u (a.slot i).val (r (a.slot i)) u g fits
          (IsDistinct-Parts i leaf u d).from_right iu (omega arith) (omega arith) (λ j. omega arith)
          (omega arith) in
      delete_as a free (node i leaf u) key _ _ _ (here.0) (here.1) (
        out,
        u,
        delete_rec-eq fuel a free i key g k
            ∙ delete_here-no_left fuel a free i _ _ _ _ e
            ∙ ap some run,
        s,
        val,
        did,
      )

  pub delete_no_right :
      (fuel : ℕ) (a : Arena V T) (free : Option ℕ) (i x : ℕ) (t : Tree) (key : ℕ)
      → in_range a i ≡ true
      → Fits free
      → IsDistinct (inorder (node i t leaf))
      → key_at a i ≡ key
      → All (λ j. key_at a j < key_at a i) (inorder t)
      → l (a.slot i) ≡ some x
      → r (a.slot i) ≡ none
      → IsAvl a (l (a.slot i)) t
      → DeleteResult a free (node i t leaf) key (delete_rec (suc fuel) a free (some i) key)
  unfolding inorder depth
  delete_no_right fuel a free i x t key g fits d k lo e f it =
      let here = remove_here a free i t leaf key k lo in
      let (out, run, s, val, did) =
        unlink_lem a free i t leaf (a.slot i).val (l (a.slot i)) t g fits
          (IsDistinct-Parts i t leaf d).from_left it (omega arith) (omega arith)
          (λ j. omega (arith, count-middle j i (inorder t) []))
          (omega (arith, length-append (inorder t) (i ∷ []))) in
      delete_as a free (node i t leaf) key _ _ _ (here.0 ∙ append-nil (entries a (inorder t)))
        (here.1)
        (
          out,
          t,
          delete_rec-eq fuel a free i key g k
              ∙ delete_here-no_right fuel a free i _ _ _ x _ e f
              ∙ ap some run,
          s,
          val,
          did,
        )

  -- A node with the key and two children, given the removal of any key from the right subtree.
  pub delete_both :
      (fuel : ℕ) (a : Arena V T) (free : Option ℕ) (i x y : ℕ) (t u1 u2 : Tree) (key : ℕ)
      → a.capacity < u16_mod
      → in_range a i ≡ true
      → IsDistinct (inorder (node i t (node y u1 u2)))
      → depth t < 120
      → depth (node y u1 u2) < 120
      → depth (node y u1 u2) ≤ fuel
      → depth t ≤ depth (node y u1 u2) + 1
      → depth (node y u1 u2) ≤ depth t + 1
      → IsAvl a (l (a.slot i)) t
      → IsAvl a (r (a.slot i)) (node y u1 u2)
      → l (a.slot i) ≡ some x
      → r (a.slot i) ≡ some y
      → key_at a i ≡ key
      → All (λ j. key_at a j < key_at a i) (inorder t)
      → IsOrdered a (node y u1 u2)
      → ((b : Arena V T) (k : ℕ)
          → b.capacity < u16_mod
          → IsAvl b (r (a.slot i)) (node y u1 u2)
          → IsOrdered b (node y u1 u2)
          → DeleteResult b free (node y u1 u2) k (delete_rec fuel b free (r (a.slot i)) k))
      → DeleteResult a free
          (node i t (node y u1 u2))
          key
          (delete_rec (suc fuel) a free (some i) key)
  delete_both fuel a free i x y t u1 u2 key c g d dt du f p q it iu e1 e2 k lo ou recurse =
      let u = node y u1 u2 in
      let parts = IsDistinct-Parts i t u d in
      let (s, ys, least, gs, order) = min_index_lem fuel a (r (a.slot i)) y u1 u2 f iu in
      let in_right : contains s (inorder u) ≡ true = rw order (rw (==_refl s)) in
      let (b, over, m) =
        overwrite_lem a i s g gs (different i s (inorder u) parts.from_right in_right) in
      let links : (j : ℕ)
          → (l (b.slot j) ≡ l (a.slot j))
            × (r (b.slot j) ≡ r (a.slot j))
            × (height (b.slot j) ≡ height (a.slot j)) =
        λ j. (m.lefts j, m.rights j, m.heights j) in
      let bt : IsAvl b (l (b.slot i)) t =
        rw (m.lefts i) (IsAvl-same_links a b _ t m.size links it) in
      let bu : IsAvl b (r (a.slot i)) u = IsAvl-same_links a b _ u m.size links iu in
      let ordered : IsOrdered b u = IsAscending-IsOrdered b u (
        IsAscending-keys a b (inorder u)
          (λ j h. m.keys j (apart j i (inorder u) h parts.from_right))
          (inorder-IsAscending a u ou)) in
      rw (delete_rec-eq fuel a free i key g k ∙ delete_here-both fuel a free i _ _ _ x y _ e1 e2) (
        inner_lem a b free i s t u ys key c g d dt du p q m order fuel y _ bt least over k lo
          (recurse b (key_at a s) (rw m.size c) bu ordered))
