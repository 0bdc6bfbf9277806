-- ===== src/Avl/Change/Insert.antt =====
-- What insertion does to a subtree.
use paradedb.Common.{
  ℕ, suc, ◌+◌, ◌≤◌, ◌<◌, ◌≡◌, ◌≢◌, ◌⊎◌, true, false, Option, none, some, List, [], ◌∷◌, ◌++◌,
  contains, count, All, ◌==◌, Outcome, ok, err, arith,
}
use paradedb.Avl.{Arena, in_range, l, r, set_l, set_r}
use paradedb.Avl.Tree.{Tree, depth, inorder, key_at}
use paradedb.Avl.Change.{and_then, Inserted, hang_inserted, insert_rec}
use paradedb.Avl.Change.Shape.{IsAvl, read-ok}

module _ {ℓ} {V T : Type ℓ} where
  -- The free slots, linked by their left links.
  unfoldable pub FreeList : Arena V T → Option ℕ → List ℕ → Type 0
  FreeList a cur [] = cur ≡ none
  FreeList a cur (f ∷ fs) = (cur ≡ some f) × (in_range a f ≡ true) × FreeList a (l (a.slot f)) fs

  -- Slot `i` now has the key and the value, and every other entry is as it was.
  pub record Stores (a b : Arena V T) (i key : ℕ) (val : V) : Type ℓ where
    pub size : b.capacity ≡ a.capacity
    pub new_key : (b.slot i).key ≡ key
    pub new_val : (b.slot i).val ≡ val
    pub tags : (j : ℕ) → (b.slot j).tag ≡ (a.slot j).tag
    pub keys : (j : ℕ) → (j == i) ≡ false → (b.slot j).key ≡ (a.slot j).key
    pub vals : (j : ℕ) → (j == i) ≡ false → (b.slot j).val ≡ (a.slot j).val

  -- The key was there, at index `i`.
  abbrev pub Replaces : Arena V T → Option ℕ → Tree → Tree → ℕ → ℕ → Inserted V T → Type ℓ
  Replaces a free t t' i key out =
      (contains i (inorder t) ≡ true)
      × (key_at a i ≡ key)
      × (inorder t' ≡ inorder t)
      × (out.old ≡ some (a.slot i).val)
      × (out.inserted_new ≡ false)
      × (out.free_head ≡ free)

  -- It was not, and now is, at the first free index.
  abbrev pub Adds : Arena V T → List ℕ → Tree → Tree → ℕ → ℕ → Inserted V T → Type ℓ
  Adds a fs t t' i key out =
      (fs' : List ℕ) × (xs : List ℕ) × (ys : List ℕ) × (fs ≡ i ∷ fs')
      × (inorder t ≡ xs ++ ys)
      × (inorder t' ≡ xs ++ i ∷ ys)
      × All (λ j. key_at a j < key) xs
      × All (λ j. key < key_at a j) ys
      × (out.old ≡ none)
      × (out.inserted_new ≡ true)
      × (out.free_head ≡ l (a.slot i))

  pub record Inserts (a : Arena V T) (free : Option ℕ) (fs : List ℕ) (t : Tree) (key : ℕ) (val : V)
      (out : Inserted V T) (t' : Tree) (i : ℕ) : Type ℓ where
    pub avl : IsAvl out.arena (some out.root) t'
    pub low : depth t ≤ depth t'
    pub high : depth t' ≤ depth t + 1
    pub stores : Stores a out.arena i key val
    pub out_tag : out.tag ≡ (a.slot i).tag
    pub grown : (j : ℕ) → count j (inorder t') ≤ count j (inorder t) + count j fs
    pub outside : (j : ℕ) → contains j (inorder t') ≡ false → out.arena.slot j ≡ a.slot j
    pub place : Replaces a free t t' i key out ⊎ Adds a fs t t' i key out

  -- The result of insert_rec on a subtree.
  abbrev pub InsertResult :
      Arena V T → Option ℕ → List ℕ → Tree → ℕ → V → Option (Outcome (Inserted V T)) → Type ℓ
  InsertResult a free fs t key val result =
      ((out : Inserted V T) × (t' : Tree) × (i : ℕ) × (result ≡ some (ok out))
        × Inserts a free fs t key val out t' i)
      ⊎ ((result ≡ some err) × (fs ≡ []) × All (λ j. key_at a j ≢ key) (inorder t))

  pub insert_rec-lt :
      (fuel : ℕ) (a : Arena V T) (free : Option ℕ) (i key : ℕ) (val : V)
      → in_range a i ≡ true
      → key < key_at a i
      → insert_rec (suc fuel) a free (some i) key val
        ≡ and_then
            (insert_rec fuel a free (l (a.slot i)) key val)
            (λ rec. some (hang_inserted i set_l rec))
  unfolding insert_rec
  insert_rec-lt fuel a free i key val g h = rw (read-ok a i g) (ground arith)

  pub insert_rec-gt :
      (fuel : ℕ) (a : Arena V T) (free : Option ℕ) (i key : ℕ) (val : V)
      → in_range a i ≡ true
      → key_at a i < key
      → insert_rec (suc fuel) a free (some i) key val
        ≡ and_then
            (insert_rec fuel a free (r (a.slot i)) key val)
            (λ rec. some (hang_inserted i set_r rec))
  unfolding insert_rec
  insert_rec-gt fuel a free i key val g h = rw (read-ok a i g) (ground arith)
