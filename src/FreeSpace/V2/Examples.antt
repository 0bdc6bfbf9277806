-- ===== src/FreeSpace/V2/Examples.antt =====
-- Runs and instances for the second free space manager.
use paradedb.Common.{ℕ, ◌+◌, ◌≡◌, refl, false, none, some, List, [], ◌∷◌, count, ◌==◌, ok, arith}
use paradedb.Avl.{AvlTreeMapHeader, l}
use paradedb.Avl.Tree.{Tree, leaf, inorder, IsOrdered}
use paradedb.Avl.Change.Shape.{IsAvl}
use paradedb.Avl.Change.Insert.{FreeList}
use paradedb.Avl.Change.Valid.{IsMap}
use paradedb.FreeSpace.V2.{AvlLeaf, extend_freelist}
use paradedb.FreeSpace.V2.Root.{FsmArena, Chains, extend_with_when_recyclable}
use paradedb.FreeSpace.V2.Choice.{Covers}
use paradedb.FreeSpace.V2.Extend.{AreChains, extend_with_when_recyclable-Covers}
use paradedb.FreeSpace.V2.Freelist.{stored, Fit, Extends}
use paradedb.FreeSpace.V2.Chain.{extend_freelist_lem}

-- A full page and one with room for one block more.
abbrev full_leaf : AvlLeaf
full_leaf = record { blockno = 7; entries = 1 ∷ 2 ∷ [] }

abbrev next_leaf : AvlLeaf
next_leaf = record { blockno = 8; entries = 3 ∷ [] }

abbrev new_pages : List ℕ
new_pages = 20 ∷ 21 ∷ 22 ∷ []

abbrev middle_leaf : AvlLeaf
middle_leaf = record { blockno = 20; entries = 4 ∷ 5 ∷ [] }

abbrev last_leaf : AvlLeaf
last_leaf = record { blockno = 21; entries = 6 ∷ [] }

between :
    extend_freelist 2 new_pages full_leaf (next_leaf ∷ []) (4 ∷ 5 ∷ 6 ∷ [])
    ≡ some (full_leaf ∷ middle_leaf ∷ last_leaf ∷ next_leaf ∷ [])
unfolding extend_freelist
between = refl

leaves-Fit : Fit 2 (full_leaf ∷ next_leaf ∷ [])
leaves-Fit = omega arith

extend_freelist_lem_example :
    Extends 2 new_pages full_leaf
      (next_leaf ∷ [])
      (4 ∷ 5 ∷ 6 ∷ [])
      (extend_freelist 2 new_pages full_leaf (next_leaf ∷ []) (4 ∷ 5 ∷ 6 ∷ []))
extend_freelist_lem_example =
    extend_freelist_lem 2 new_pages full_leaf (next_leaf ∷ []) (4 ∷ 5 ∷ 6 ∷ []) (omega arith)
      leaves-Fit (omega arith) (omega arith)

-- A root page with one slot, free, whose tag is block 9.
abbrev root_header : AvlTreeMapHeader
root_header = record { root = none; free_head = some 0; len = 0 }

abbrev root_arena : FsmArena
root_arena = record {
  capacity = 1;
  slot = λ i. record { left = 0; right = 0; tag = 9; key = 0; val = tt; meta = 0 };
}

root-IsMap : IsMap root_header root_arena leaf (0 ∷ [])
unfolding IsAvl FreeList IsOrdered inorder l
root-IsMap = record {
  size = omega arith;
  avl = refl;
  free = (refl, refl, refl);
  apart = λ a. ground arith;
  every = refl;
  ordered = tt;
  counted = refl;
}

abbrev empty_chains : Chains
empty_chains b = record { blockno = b; entries = [] } ∷ []

empty_chains-AreChains : AreChains 2 empty_chains
empty_chains-AreChains tag = (record { blockno = tag; entries = [] }, [], refl, (omega arith, tt))

extend_with_when_recyclable-Covers_example :
    (tag : ℕ) × (header' : AvlTreeMapHeader) × (a' : FsmArena) × (t' : Tree) × (fs' : List ℕ)
    × (chains' : Chains) × (extend_with_when_recyclable 34 2 new_pages false root_header root_arena
          empty_chains 50
          (4 ∷ 5 ∷ 6 ∷ [])
        ≡ some (ok (header', a', chains')))
    × IsMap header' a' t' fs'
    × Covers 34 header' a' 50 tag
    × ((j : ℕ)
        → count j (stored (chains' tag))
          ≡ count j (stored (empty_chains tag)) + count j (4 ∷ 5 ∷ 6 ∷ []))
    × Fit 2 (chains' tag)
    × ((j : ℕ) → (j == tag) ≡ false → chains' j ≡ empty_chains j)
extend_with_when_recyclable-Covers_example =
    extend_with_when_recyclable-Covers 34 2 new_pages false root_header root_arena leaf (0 ∷ [])
      empty_chains 50 4 (5 ∷ 6 ∷ []) (omega arith) root-IsMap (omega arith) (omega arith)
      empty_chains-AreChains (omega arith)
