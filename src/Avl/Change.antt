-- ===== src/Avl/Change.antt =====
-- Insertion in the arena, and its rotations: AvlTreeMap of pg_search/src/postgres/storage/avl.rs. An
-- operation takes the arena and the head of the free list, and returns the new ones. Indexing out
-- of range and an `expect` on none are a panic, Error::Full is `err`. The recursive functions run on
-- fuel; `none` is the lack of it. A balance factor is the pair of the two heights.
pub mod Shape
pub mod Relinked
pub mod RotateRight
pub mod RotateLeft
pub mod Distinct
pub mod Balanced
pub mod LeftHeavy
pub mod RightHeavy
pub mod Rebalance
pub mod Insert
pub mod Hang
pub mod HangRight
pub mod Subtree
pub mod InsertRec
pub mod Entries
pub mod Order
pub mod Depth
pub mod Valid
use Prim.Native.Nat.{compare, Ordering, max}
use paradedb.Common.{
  ℕ, zero, suc, ◌+◌, ◌-◌, Bool, true, false, Option, none, some, if◌then◌else◌, ltb, ◌==◌, Outcome,
  ok, err, panic, ◌>>=◌, or_panic,
}
use paradedb.Avl.{
  Slot, Arena, AvlTreeMapHeader, in_range, l, r, height, set_l, set_r, set_height, set_used,
}

abbrev pub and_then {ℓ κ} :
    {A : Type ℓ} {B : Type κ} → Option (Outcome A) → (A → Option (Outcome B)) → Option (Outcome B)
and_then none f = none
and_then (some (ok a)) f = f a
and_then (some err) f = some err
and_then (some panic) f = some panic

module _ {ℓ} {V T : Type ℓ} where
  -- self.arena[i]
  unfoldable pub read : Arena V T → ℕ → Outcome (Slot V T)
  read a i = if in_range a i then ok (a.slot i) else panic

  abbrev pub put : Arena V T → ℕ → Slot V T → Arena V T
  put a i n = record a { slot = λ j. if j == i then n else a.slot j }

  -- A change of the slot at an index.
  unfoldable pub modify : Arena V T → ℕ → (Slot V T → Slot V T) → Outcome (Arena V T)
  unfolding read
  modify a i f = do n ← read a i; ok (put a i (f n))

  -- AvlTreeMapView::height
  unfoldable pub height_of : Arena V T → Option ℕ → Outcome ℕ
  unfolding read
  height_of a none = ok 0
  height_of a (some i) = do n ← read a i; ok (height n)

  -- balance_factor, as the heights on the left and on the right
  unfoldable pub balance_factor : Arena V T → ℕ → Outcome (ℕ × ℕ)
  unfolding read height_of
  balance_factor a i = do n ← read a i; lh ← height_of a (l n); rh ← height_of a (r n); ok (lh, rh)

  unfoldable pub update_height : Arena V T → ℕ → Outcome (Arena V T)
  unfolding balance_factor modify
  update_height a i = do
    (lh, rh) ← balance_factor a i
    modify a i (λ n. set_height n (1 + max lh rh))

  unfoldable pub rotate_right : Arena V T → ℕ → Outcome (Arena V T × ℕ)
  unfolding read modify update_height
  rotate_right a y = do
    n ← read a y
    x ← or_panic (l n)
    m ← read a x
    a1 ← modify a x (λ s. set_r s (some y))
    a2 ← modify a1 y (λ s. set_l s (r m))
    a3 ← update_height a2 y
    a4 ← update_height a3 x
    ok (a4, x)

  unfoldable pub rotate_left : Arena V T → ℕ → Outcome (Arena V T × ℕ)
  unfolding read modify update_height
  rotate_left a x = do
    n ← read a x
    y ← or_panic (r n)
    m ← read a y
    a1 ← modify a y (λ s. set_l s (some x))
    a2 ← modify a1 x (λ s. set_r s (l m))
    a3 ← update_height a2 x
    a4 ← update_height a3 y
    ok (a4, y)

  -- The two heavy branches of `rebalance`.
  unfoldable pub rebalance_left : Arena V T → ℕ → Outcome (Arena V T × ℕ)
  unfolding read modify balance_factor rotate_left rotate_right
  rebalance_left a i = do
    n ← read a i
    x ← or_panic (l n)
    (lh, rh) ← balance_factor a x
    let double : Outcome (Arena V T × ℕ) = do
      (a1, nl) ← rotate_left a x
      a2 ← modify a1 i (λ s. set_l s (some nl))
      rotate_right a2 i
    if ltb lh rh then double else rotate_right a i

  unfoldable pub rebalance_right : Arena V T → ℕ → Outcome (Arena V T × ℕ)
  unfolding read modify balance_factor rotate_left rotate_right
  rebalance_right a i = do
    n ← read a i
    x ← or_panic (r n)
    (lh, rh) ← balance_factor a x
    let double : Outcome (Arena V T × ℕ) = do
      (a1, nr) ← rotate_right a x
      a2 ← modify a1 i (λ s. set_r s (some nr))
      rotate_left a2 i
    if ltb rh lh then double else rotate_left a i

  unfoldable pub rebalance : Arena V T → ℕ → Outcome (Arena V T × ℕ)
  unfolding update_height balance_factor rebalance_left rebalance_right
  rebalance a i = do
    a1 ← update_height a i
    (lh, rh) ← balance_factor a1 i
    let right_heavy : Outcome (Arena V T × ℕ) =
        if ltb (lh + 1) rh then rebalance_right a1 i else ok (a1, i)
    if ltb (rh + 1) lh then rebalance_left a1 i else right_heavy

  -- alloc_slot, which is called with a value: the index, the free list and the arena.
  unfoldable pub alloc_slot : Arena V T → Option ℕ → ℕ → V → Outcome (ℕ × Option ℕ × Arena V T)
  unfolding read modify
  alloc_slot a none key val = err
  alloc_slot a (some idx) key val = do
    n ← read a idx
    a' ← modify a idx (λ s.
        set_used (set_height (set_r (set_l (record s { key = key; val = val }) none) none) 1) true)
    ok (idx, l n, a')

-- What insert_rec returns, with its out-parameters.
pub record Inserted {ℓ} (V T : Type ℓ) : Type ℓ where
  pub arena : Arena V T
  pub free_head : Option ℕ
  pub root : ℕ
  pub old : Option V
  pub tag : T
  pub inserted_new : Bool

module _ {ℓ} {V T : Type ℓ} where
  -- The subtree `rec` hangs below index `i` by `link`, and `i` is rebalanced.
  unfoldable pub hang_inserted :
      ℕ → (Slot V T → Option ℕ → Slot V T) → Inserted V T → Outcome (Inserted V T)
  unfolding modify rebalance
  hang_inserted i link rec = do
    a1 ← modify (rec.arena) i (λ s. link s (some rec.root))
    (a2, new_i) ← rebalance a1 i
    ok (record rec { arena = a2; root = new_i })

  unfoldable pub insert_rec :
      ℕ → Arena V T → Option ℕ → Option ℕ → ℕ → V → Option (Outcome (Inserted V T))
  unfolding read modify alloc_slot hang_inserted
  insert_rec zero a free_head root key val = none
  insert_rec (suc fuel) a free_head none key val = some (do
    (slot, free', a') ← alloc_slot a free_head key val
    n ← read a' slot
    ok (record {
      arena = a';
      free_head = free';
      root = slot;
      old = none;
      tag = n.tag;
      inserted_new = true;
    }))
  insert_rec (suc fuel) a free_head (some i) key val = and_then (some (read a i)) (λ n.
      elim (compare key n.key) [
        | Ordering.eq ↦ some (do
          a' ← modify a i (λ s. record s { val = val })
          ok (record {
            arena = a';
            free_head = free_head;
            root = i;
            old = some n.val;
            tag = n.tag;
            inserted_new = false;
          }))
        | Ordering.lt ↦
            and_then (insert_rec fuel a free_head (l n) key val)
              (λ rec. some (hang_inserted i set_l rec))
        | Ordering.gt ↦
            and_then (insert_rec fuel a free_head (r n) key val)
              (λ rec. some (hang_inserted i set_r rec))
      ])

  -- insert: the old value and the tag, the header and the arena.
  unfoldable pub insert :
      ℕ
      → AvlTreeMapHeader
      → Arena V T
      → ℕ
      → V
      → Option (Outcome ((Option V × T) × AvlTreeMapHeader × Arena V T))
  unfolding insert_rec
  insert fuel header a key val =
      and_then (insert_rec fuel a header.free_head header.root key val) (λ rec. some (
        ok (
          (rec.old, rec.tag),
          record {
            root = some rec.root;
            free_head = rec.free_head;
            len = header.len + (if rec.inserted_new then 1 else 0);
          },
          rec.arena,
        )))
