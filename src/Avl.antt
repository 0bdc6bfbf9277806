-- ===== src/Avl.antt =====
-- The ordered map that lives in an array of slots: AvlTreeMap and AvlTreeMapView of
-- pg_search/src/postgres/storage/avl.rs. Keys are numbers (the source's users take 64-bit
-- transaction ids). An index is stored as a `u16` one greater, 0 for none, and the byte `meta` has
-- the height in its low seven bits and a flag in the highest. A `while` loop recurses on fuel;
-- `none` is the lack of it, and an index that is out of range is a panic.
pub mod Packed
pub mod Tree
pub mod Lookup
pub mod Floor
pub mod Max
pub mod Iter
pub mod Change
pub mod Remove
pub mod New
pub mod Maps
mod Examples
use Prim.Native.Nat.{compare, Ordering}
use mathlib.Core.Option
use paradedb.Common.{
  ℕ, zero, suc, ◌+◌, ◌-◌, ◌*◌, ◌/◌, ◌%◌, Bool, true, false, Option, none, some, if◌then◌else◌, leb,
  ltb, ◌==◌, is_some, Outcome, ok, panic,
}

pub record Slot {ℓ} (V T : Type ℓ) : Type ℓ where
  pub left : ℕ
  pub right : ℕ
  pub tag : T
  pub key : ℕ
  pub val : V
  pub meta : ℕ

abbrev pub u16_mod : ℕ
u16_mod = 65536

-- ix_some, in a release build, where the sum wraps; NonZero::new answers none at 0.
unfoldable pub ix_some : ℕ → ℕ
ix_some i = (i % u16_mod + 1) % u16_mod

unfoldable pub ix_to_usize : ℕ → Option ℕ
ix_to_usize o = if o == 0 then none else some (o - 1)

unfoldable pub meta_height : ℕ → ℕ
meta_height meta = meta % 128

unfoldable pub meta_is_used : ℕ → Bool
meta_is_used meta = leb 128 meta

unfoldable pub meta_set_used : ℕ → Bool → ℕ
meta_set_used meta used = meta % 128 + (if used then 128 else 0)

unfoldable pub meta_set_height : ℕ → ℕ → ℕ
meta_set_height meta h = meta / 128 * 128 + h % 128

-- The free list, the root and the count.
pub record AvlTreeMapHeader : Type 0 where
  pub root : Option ℕ
  pub free_head : Option ℕ
  pub len : ℕ

-- The arena: its length, and the slot at each index.
pub record Arena {ℓ} (V T : Type ℓ) : Type ℓ where
  pub capacity : ℕ
  pub slot : ℕ → Slot V T

-- What stands at the index that a loop ends with.
abbrev pub map_found {κ} :
    {A : Type κ} → (ℕ → A) → Option (Outcome (Option ℕ)) → Option (Outcome (Option A))
map_found f none = none
map_found f (some (ok i)) = some (ok (Option.map f i))
map_found f (some Outcome.err) = some Outcome.err
map_found f (some panic) = some panic

module _ {ℓ} {V T : Type ℓ} where
  -- Slot::is_used
  unfoldable pub is_used : Slot V T → Bool
  unfolding meta_is_used
  is_used n = meta_is_used n.meta

  unfoldable pub set_used : Slot V T → Bool → Slot V T
  unfolding meta_set_used
  set_used n u = record n { meta = meta_set_used n.meta u }

  -- Slot::height
  unfoldable pub height : Slot V T → ℕ
  unfolding meta_height
  height n = meta_height n.meta

  unfoldable pub set_height : Slot V T → ℕ → Slot V T
  unfolding meta_set_height
  set_height n h = record n { meta = meta_set_height n.meta h }

  unfoldable pub l : Slot V T → Option ℕ
  unfolding ix_to_usize
  l n = ix_to_usize n.left

  unfoldable pub r : Slot V T → Option ℕ
  unfolding ix_to_usize
  r n = ix_to_usize n.right

  unfoldable pub set_l : Slot V T → Option ℕ → Slot V T
  unfolding ix_some
  set_l n i = record n { left = elim i [ none ↦ 0 | some j ↦ ix_some j ] }

  unfoldable pub set_r : Slot V T → Option ℕ → Slot V T
  unfolding ix_some
  set_r n i = record n { right = elim i [ none ↦ 0 | some j ↦ ix_some j ] }

  abbrev pub in_range : Arena V T → ℕ → Bool
  in_range a i = ltb i a.capacity

  -- The loop of `get`: the index at which the key is found.
  unfoldable pub search : Arena V T → ℕ → ℕ → Option ℕ → Option (Outcome (Option ℕ))
  unfolding l r
  search a zero key none = some (ok none)
  search a zero key (some i) = none
  search a (suc fuel) key none = some (ok none)
  search a (suc fuel) key (some i) = elim (in_range a i) [
    | false ↦ some panic
    | true ↦ elim (compare key (a.slot i).key) [
      | Ordering.eq ↦ some (ok (some i))
      | Ordering.lt ↦ search a fuel key (l (a.slot i))
      | Ordering.gt ↦ search a fuel key (r (a.slot i))
    ]
  ]

  -- AvlTreeMapView::get
  unfoldable pub get : AvlTreeMapHeader → Arena V T → ℕ → ℕ → Option (Outcome (Option (V × T)))
  unfolding search
  get header a fuel key =
      map_found (λ i. ((a.slot i).val, (a.slot i).tag)) (search a fuel key header.root)

  -- The loop of `get_lte`, with the best index so far.
  unfoldable pub search_lte : Arena V T → ℕ → ℕ → Option ℕ → Option ℕ → Option (Outcome (Option ℕ))
  unfolding l r
  search_lte a zero key none best = some (ok best)
  search_lte a zero key (some i) best = none
  search_lte a (suc fuel) key none best = some (ok best)
  search_lte a (suc fuel) key (some i) best = elim (in_range a i) [
    | false ↦ some panic
    | true ↦ elim (compare key (a.slot i).key) [
      | Ordering.eq ↦ some (ok (some i))
      | Ordering.lt ↦ search_lte a fuel key (l (a.slot i)) best
      | Ordering.gt ↦ search_lte a fuel key (r (a.slot i)) (some i)
    ]
  ]

  -- AvlTreeMapView::get_lte
  unfoldable pub get_lte :
      AvlTreeMapHeader → Arena V T → ℕ → ℕ → Option (Outcome (Option (ℕ × V × T)))
  unfolding search_lte
  get_lte header a fuel key =
      map_found (λ i. ((a.slot i).key, (a.slot i).val, (a.slot i).tag))
        (search_lte a fuel key header.root none)

  -- The loop of `get_max_slot`.
  unfoldable pub search_max : Arena V T → ℕ → Option ℕ → Option ℕ → Option (Outcome (Option ℕ))
  unfolding r
  search_max a zero none max = some (ok max)
  search_max a zero (some i) max = none
  search_max a (suc fuel) none max = some (ok max)
  search_max a (suc fuel) (some i) max = elim (in_range a i) [
    | false ↦ some panic
    | true ↦ search_max a fuel (r (a.slot i)) (some i)
  ]

  -- The index of the slot that get_max_slot refers to.
  unfoldable pub get_max_slot : AvlTreeMapHeader → Arena V T → ℕ → Option (Outcome (Option ℕ))
  unfolding search_max
  get_max_slot header a fuel = search_max a fuel header.root none

  -- The index of the slot that get_slot_mut refers to.
  unfoldable pub get_slot_mut : AvlTreeMapHeader → Arena V T → ℕ → ℕ → Option (Outcome (Option ℕ))
  unfolding search
  get_slot_mut header a fuel key = search a fuel key header.root
