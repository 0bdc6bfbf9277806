-- ===== src/Avl/Examples.antt =====
-- Runs and instances for the map in an arena.
use mathlib.Core.Option
use paradedb.Common.{
  map, length, ℕ, ◌+◌, ◌<◌, ◌≤◌, ◌≡◌, refl, ◌⊎◌, false, Option, none, some, [], All, ok,
  if◌then◌else◌, ◌==◌, arith,
}
use paradedb.Avl.{
  Slot, Arena, AvlTreeMapHeader, l, r, is_used, set_used, height, set_height, set_l, set_r, get,
  get_lte, get_max_slot, get_slot_mut,
}
use paradedb.Avl.Packed.{slot_roundtrip}
use paradedb.Avl.Tree.{Tree, leaf, node, depth, inorder, key_at, Represents, IsOrdered}
use paradedb.Avl.Lookup.{Found, get_lem}
use paradedb.Avl.Floor.{IsFloor, get_lte_lem}
use paradedb.Avl.Iter.{iter, collect}
use paradedb.Avl.Iter.Inorder.{pair_at, IsAscending, iter_lem}
use paradedb.Avl.Max.{IsGreatest, get_max_slot_lem}

abbrev slot_of : ℕ → ℕ → ℕ → ℕ → Slot ℕ ℕ
slot_of left right key tag = record {
  left = left;
  right = right;
  tag = tag;
  key = key;
  val = key + 1000;
  meta = 129;
}

-- Key 20 at index 0, above 10 at index 1 and 30 at index 2.
abbrev arena : Arena ℕ ℕ
arena = record {
  capacity = 3;
  slot = λ i.
      if i == 0 then slot_of 2 3 20 5 else if i == 1 then slot_of 0 0 10 6 else slot_of 0 0 30 7;
}

abbrev header : AvlTreeMapHeader
header = record { root = some 0; free_head = none; len = 3 }

abbrev tree : Tree
tree = node 0 (node 1 leaf leaf) (node 2 leaf leaf)

arena-Represents : Represents arena header.root tree
unfolding Represents l r
arena-Represents = (refl, refl, (refl, refl, refl, refl), (refl, refl, refl, refl))

arena-IsOrdered : IsOrdered arena tree
unfolding IsOrdered
arena-IsOrdered = omega arith

shallow : depth tree ≤ 2
unfolding depth
shallow = omega arith

below_25 : get_lte header arena 3 25 ≡ some (ok (some (20, 1020, 5)))
unfolding get_lte
below_25 = refl

slot_roundtrip_example :
    ((l (set_l (slot_of 2 3 20 5) (some 9)) ≡ some 9)
      × (l (set_l (slot_of 2 3 20 5) none) ≡ none)
      × (l (set_l (slot_of 2 3 20 5) (some 65535)) ≡ none)
      × (r (set_l (slot_of 2 3 20 5) (some 9)) ≡ r (slot_of 2 3 20 5)))
    × ((r (set_r (slot_of 2 3 20 5) (some 9)) ≡ some 9)
        × (r (set_r (slot_of 2 3 20 5) none) ≡ none)
        × (l (set_r (slot_of 2 3 20 5) (some 9)) ≡ l (slot_of 2 3 20 5)))
    × ((height (set_height (slot_of 2 3 20 5) 7) ≡ 7)
        × (is_used (set_height (slot_of 2 3 20 5) 7) ≡ is_used (slot_of 2 3 20 5))
        × (height (set_used (slot_of 2 3 20 5) false) ≡ height (slot_of 2 3 20 5))
        × (is_used (set_used (slot_of 2 3 20 5) false) ≡ false))
slot_roundtrip_example =
    slot_roundtrip (slot_of 2 3 20 5) 9 7 false (omega arith) (omega arith) (omega arith)

get_lem_example :
    (found : Option ℕ) × (get header arena 2 30
      ≡ some (ok (Option.map (λ i. ((arena.slot i).val, (arena.slot i).tag)) found)))
    × (get_slot_mut header arena 2 30 ≡ some (ok found))
    × Found arena 30 (inorder tree) found
get_lem_example = get_lem arena header 2 30 tree shallow arena-Represents arena-IsOrdered

get_lte_lem_example :
    (found : Option ℕ) × (get_lte header arena 2 25
      ≡ some (
          ok
            (Option.map (λ i. ((arena.slot i).key, (arena.slot i).val, (arena.slot i).tag)) found)))
    × (((found ≡ none) × All (λ j. 25 < key_at arena j) (inorder tree))
        ⊎ ((i : ℕ) × (found ≡ some i) × IsFloor arena 25 (inorder tree) i))
get_lte_lem_example = get_lte_lem arena header 2 25 tree shallow arena-Represents arena-IsOrdered

get_max_slot_lem_example :
    (found : Option ℕ) × (get_max_slot header arena 2 ≡ some (ok found))
    × (((inorder tree ≡ []) × (found ≡ none))
        ⊎ ((i : ℕ) × (found ≡ some i) × IsGreatest arena (inorder tree) i))
get_max_slot_lem_example =
    get_max_slot_lem arena header 2 tree shallow arena-Represents arena-IsOrdered

three_nodes : length (inorder tree) < 4
unfolding inorder
three_nodes = omega arith

low : depth tree ≤ 128
unfolding depth
low = omega arith

iter_lem_example :
    (collect arena 2 4 (iter header) ≡ some (ok (map (pair_at arena) (inorder tree))))
    × IsAscending arena (inorder tree)
iter_lem_example =
    iter_lem arena header 2 4 tree shallow low three_nodes arena-Represents arena-IsOrdered
