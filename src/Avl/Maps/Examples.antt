-- ===== src/Avl/Maps/Examples.antt =====
-- Runs and instances for the operations that change the map in an arena.
use mathlib.Core.Option
use paradedb.Common.{
  ℕ, ◌+◌, ◌≡◌, refl, ◌⊎◌, Option, none, some, List, [], ◌∷◌, Outcome, ok, err, panic, if◌then◌else◌,
  ◌==◌, arith,
}
use paradedb.Avl.{Slot, Arena, AvlTreeMapHeader, l, r, height, set_l, set_r, set_height, get}
use paradedb.Avl.Tree.{Tree, leaf, node, depth, inorder, IsOrdered}
use paradedb.Avl.Change.{insert}
use paradedb.Avl.Change.Shape.{IsAvl}
use paradedb.Avl.Change.Insert.{FreeList}
use paradedb.Avl.Change.Relinked.{Relinked}
use paradedb.Avl.Change.Valid.{IsMap, InsertSpec, insert_lem}
use paradedb.Avl.Remove.{remove}
use paradedb.Avl.Remove.Valid.{RemoveSpec, remove_lem}
use paradedb.Avl.New.{from, new, new_lem}
use paradedb.Avl.Maps.{get-insert, get-remove}

abbrev tree : Tree
tree = node 0 (node 1 leaf leaf) (node 2 leaf leaf)

abbrev map_slot : ℕ → ℕ → ℕ → ℕ → ℕ → Slot ℕ ℕ
map_slot left right key tag meta = record {
  left = left;
  right = right;
  tag = tag;
  key = key;
  val = key + 1000;
  meta = meta;
}

-- Key 20 at index 0, above 10 at index 1 and 30 at index 2, and a free slot at index 3.
abbrev map_arena : Arena ℕ ℕ
map_arena = record {
  capacity = 4;
  slot = λ i.
      if i == 0
      then map_slot 2 3 20 5 130
      else if i == 1
      then map_slot 0 0 10 6 129
      else if i == 2
      then map_slot 0 0 30 7 129
      else map_slot 0 0 0 8 0;
}

abbrev map_header : AvlTreeMapHeader
map_header = record { root = some 0; free_head = some 3; len = 3 }

abbrev spare : List ℕ
spare = 3 ∷ []

map_arena-IsMap : IsMap map_header map_arena tree spare
unfolding IsAvl FreeList IsOrdered inorder depth l r height
map_arena-IsMap = record {
  size = omega arith;
  avl = (
    refl,
    refl,
    refl,
    omega arith,
    omega arith,
    (refl, refl, refl, omega arith, omega arith, refl, refl),
    (refl, refl, refl, omega arith, omega arith, refl, refl),
  );
  free = (refl, refl, refl);
  apart = λ a. ground arith;
  every = refl;
  ordered = omega arith;
  counted = refl;
}

-- 30 above 20 above 10 in one chain to the left.
abbrev chain_arena : Arena ℕ ℕ
chain_arena = record {
  capacity = 3;
  slot = λ i.
      if i == 0
      then map_slot 2 0 30 5 131
      else if i == 1
      then map_slot 3 0 20 6 130
      else map_slot 0 0 10 7 129;
}

abbrev chain : Tree
chain = node 1 (node 2 leaf leaf) leaf

new_lem_example :
    (header' : AvlTreeMapHeader) × (a' : Arena ℕ ℕ) × (new map_arena ≡ ok (header', a'))
    × (a'.capacity ≡ 4)
    × IsMap header' a' leaf (from 0 4)
new_lem_example = new_lem map_arena (omega arith)

insert_lem_example : InsertSpec 34 map_header map_arena tree spare 25 7
insert_lem_example =
    insert_lem 34 map_header map_arena tree spare 25 7 (omega arith) map_arena-IsMap

remove_lem_example : RemoveSpec 34 map_header map_arena tree 20
remove_lem_example = remove_lem 34 map_header map_arena tree spare 20 (omega arith) map_arena-IsMap

get-insert_example :
    ((old : Option ℕ) × (tag : ℕ) × (header' : AvlTreeMapHeader) × (a' : Arena ℕ ℕ) × (insert 34
          map_header map_arena 25 7
        ≡ some (ok ((old, tag), header', a')))
      × (get header' a' 34 25 ≡ some (ok (some (7, tag)))))
    ⊎ ((insert 34 map_header map_arena 25 7 ≡ some err)
        × (spare ≡ [])
        × (get map_header map_arena 34 25 ≡ some (ok none)))
get-insert_example =
    get-insert 34 map_header map_arena tree spare 25 7 25 (omega arith) map_arena-IsMap

get-remove_example :
    (found : Option (ℕ × ℕ)) × (header' : AvlTreeMapHeader) × (a' : Arena ℕ ℕ) × (get map_header
        map_arena 34 20
      ≡ some (ok found))
    × (remove 34 map_header map_arena 20 ≡ some (ok (Option.map (λ p. p.0) found, header', a')))
    × (get header' a' 34 20 ≡ some (ok none))
get-remove_example =
    get-remove 34 map_header map_arena tree spare 20 20 (omega arith) map_arena-IsMap

-- Tests: no slot is free for a fourth key, and old values come back.
full : insert 34 (record map_header { free_head = none }) map_arena 25 7 ≡ some err
unfolding insert l r
full = refl

-- What the operation returns beside the header and the arena.
abbrev result_of : {A : Type 0} → Option (Outcome (A × AvlTreeMapHeader × Arena ℕ ℕ)) → Option A
result_of none = none
result_of (some (ok x)) = some (x.0)
result_of (some err) = none
result_of (some panic) = none

replaced : result_of (insert 34 map_header map_arena 10 7) ≡ some (some 1010, 6)
unfolding insert l r set_l set_height height
replaced = refl

removed : result_of (remove 34 map_header map_arena 20) ≡ some (some 1020)
unfolding remove l r set_r set_height height
removed = refl
