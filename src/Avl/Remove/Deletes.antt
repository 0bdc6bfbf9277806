-- ===== src/Avl/Remove/Deletes.antt =====
-- What removal does to a subtree, and a subtree hung back below its parent.
use paradedb.Common.{
  ℕ, suc, ◌+◌, ◌≤◌, ◌<◌, ◌≡◌, refl, ap, max, ◌⊎◌, inl, inr, true, false, Option, some, List, [],
  ◌∷◌, ◌++◌, contains, count, length, ◌==◌, leb, if◌then◌else◌, Bool-cases, ok, arith,
}
use paradedb.Avl.{Slot, Arena, in_range, l}
use paradedb.Avl.Tree.{Tree, depth, inorder}
use paradedb.Avl.Change.{modify, rebalance}
use paradedb.Avl.Change.Shape.{IsAvl}
use paradedb.Avl.Change.Relinked.{Relinked}
use paradedb.Avl.Change.Entries.{entry_at, entries}
use paradedb.Avl.Remove.{Deleted, hang_deleted}

module _ {ℓ} {V T : Type ℓ} where
  -- Index `f` of the tree is now at the head of the free list.
  abbrev pub Freed : Arena V T → Option ℕ → Tree → Tree → Deleted V T → Type 0
  Freed a free t t' out =
      (f : ℕ) × (in_range a f ≡ true)
      × (out.free_head ≡ some f)
      × (l ((out.arena).slot f) ≡ free)
      × ((j : ℕ) → count j (inorder t') + (if j == f then 1 else 0) ≡ count j (inorder t))
      × (length (inorder t') + 1 ≡ length (inorder t))
      × (out.did_remove ≡ true)

  abbrev pub Kept : Option ℕ → Tree → Tree → Deleted V T → Type 0
  Kept free t t' out = (inorder t' ≡ inorder t) × (out.free_head ≡ free) × (out.did_remove ≡ false)

  -- The subtree that is left is balanced and has the entries `ts`.
  pub record Deletes (a : Arena V T) (free : Option ℕ) (t : Tree) (ts : List (ℕ × (V × T)))
      (out : Deleted V T) (t' : Tree) : Type ℓ where
    pub avl : IsAvl out.arena out.root t'
    pub low : depth t' ≤ depth t
    pub high : depth t ≤ depth t' + 1
    pub size : (out.arena).capacity ≡ a.capacity
    pub outside : (j : ℕ) → contains j (inorder t) ≡ false → out.arena.slot j ≡ a.slot j
    pub left : entries out.arena (inorder t') ≡ ts
    pub shrunk : (j : ℕ) → count j (inorder t') ≤ count j (inorder t)
    pub place : Kept free t t' out ⊎ Freed a free t t' out

  pub entries-middle :
      (a : Arena V T) (xs : List ℕ) (i : ℕ) (ys : List ℕ)
      → entries a (xs ++ i ∷ ys) ≡ entries a xs ++ entry_at a i ∷ entries a ys
  entries-middle a [] i ys = refl
  entries-middle a (x ∷ xs) i ys = ap (λ es. entry_at a x ∷ es) (entries-middle a xs i ys)

  pub entries-same :
      (a b : Arena V T) (is : List ℕ)
      → ((j : ℕ) → contains j is ≡ true → entry_at b j ≡ entry_at a j)
      → entries b is ≡ entries a is
  entries-same a b [] e = refl
  entries-same a b (i ∷ is) e =
      rw (e i (ground arith)) (rw (entries-same a b is (λ j m. e j (ground (arith, m)))))

  pub entries-Relinked :
      (js is : List ℕ) (a b : Arena V T) → Relinked js a b → entries b is ≡ entries a is
  entries-Relinked js is a b p =
      entries-same a b is (λ j m. rw (p.keys j) (rw (p.vals j) (rw (p.tags j))))

  pub hang_deleted-run :
      (b b2 : Arena V T) (i0 i2 : ℕ) (link : Slot V T → Option ℕ → Slot V T) (out : Deleted V T)
      → modify out.arena i0 (λ s. link s out.root) ≡ ok b
      → rebalance b i0 ≡ ok (b2, i2)
      → hang_deleted i0 link out ≡ ok (record out { arena = b2; root = some i2 })
  unfolding hang_deleted
  hang_deleted-run b b2 i0 i2 link out e f = rw e (rw f refl)

-- How deep a node is once one subtree has shrunk by one at most and it is rebalanced.
pub shrunk_depth :
    (t t' u d : ℕ)
    → t' ≤ t
    → t ≤ t' + 1
    → t ≤ u + 1
    → u ≤ t + 1
    → max t' u ≤ d
    → d ≤ 1 + max t' u
    → (t' ≤ u + 1 → u ≤ t' + 1 → d ≡ 1 + max t' u)
    → (d ≤ suc (max t u)) × (suc (max t u) ≤ d + 1)
shrunk_depth t t' u d a b p q low high same = elim (Bool-cases (leb u (t' + 1))) [
  | inl h ↦ let e = same (omega arith) (ground arith) in (omega arith, omega arith)
  | inr h ↦ let big : t' + 1 < u = ground arith in (omega arith, omega arith)
]
