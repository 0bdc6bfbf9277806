-- ===== src/Avl/Remove.antt =====
-- Removal from the arena: AvlTreeMap of pg_search/src/postgres/storage/avl.rs, by the conventions of
-- insertion. Of a node with two children the entry is overwritten with that of its successor,
-- their tags are swapped, and the successor's key is removed from the right subtree.
pub mod Deletes
pub mod Hang
pub mod HangRight
pub mod Entries
pub mod Unlink
pub mod Successor
pub mod Sides
pub mod Inner
pub mod DeleteRec
pub mod Induction
pub mod Valid
use Prim.Native.Nat.{compare, Ordering}
use paradedb.Common.{
  ℕ, zero, suc, ◌+◌, ◌-◌, ◌^◌, Bool, true, false, Option, none, some, if◌then◌else◌, ◌==◌, Outcome,
  ok, ◌>>=◌,
}
use paradedb.Avl.{Slot, Arena, AvlTreeMapHeader, l, r, set_l, set_r, set_height, set_used}
use paradedb.Avl.Change.{and_then, read, modify, rebalance}

-- What delete_rec returns, with its out-parameters.
pub record Deleted {ℓ} (V T : Type ℓ) : Type ℓ where
  pub arena : Arena V T
  pub free_head : Option ℕ
  pub root : Option ℕ
  pub removed_val : Option V
  pub did_remove : Bool

-- The count after a removal, in a release build, where it wraps.
abbrev pub wrapping_pred : ℕ → ℕ
wrapping_pred n = if n == 0 then 2 ^ 64 - 1 else n - 1

module _ {ℓ} {V T : Type ℓ} where
  unfoldable pub free_slot : Arena V T → Option ℕ → ℕ → Outcome (Option ℕ × Arena V T)
  unfolding modify
  free_slot a free_head idx = do
    a' ← modify a idx (λ s. set_l (set_r (set_height (set_used s false) 0) none) free_head)
    ok (some idx, a')

  unfoldable pub min_index : ℕ → Arena V T → ℕ → Option (Outcome ℕ)
  unfolding read l
  min_index zero a i = none
  min_index (suc fuel) a i =
      and_then (some (read a i))
        (λ n. elim (l n) [ none ↦ some (ok i) | some j ↦ min_index fuel a j ])

  -- A node with one child at most is freed, and the child takes its place.
  unfoldable pub unlink : Arena V T → Option ℕ → ℕ → V → Option ℕ → Outcome (Deleted V T)
  unfolding free_slot
  unlink a free_head i retv child = do
    (free', a') ← free_slot a free_head i
    ok (record {
      arena = a';
      free_head = free';
      root = child;
      removed_val = some retv;
      did_remove = true;
    })

  -- The successor's entry moves to index `i`, and the tags are swapped: the arena, the right link of
  -- `i`, and the successor's key.
  unfoldable pub overwrite : Arena V T → ℕ → ℕ → Outcome (Arena V T × Option ℕ × ℕ)
  unfolding read modify r
  overwrite a i succ = do
    s ← read a succ
    a1 ← modify a i (λ m. record m { key = s.key; val = s.val })
    n ← read a1 i
    a2 ← modify a1 i (λ m. record m { tag = s.tag })
    a3 ← modify a2 succ (λ m. record m { tag = n.tag })
    n' ← read a3 i
    ok (a3, r n', s.key)

  -- A subtree hangs below index `i` by `link`, and `i` is rebalanced.
  unfoldable pub hang_deleted :
      ℕ → (Slot V T → Option ℕ → Slot V T) → Deleted V T → Outcome (Deleted V T)
  unfolding modify rebalance
  hang_deleted i link rec = do
    a1 ← modify (rec.arena) i (λ s. link s rec.root)
    (a2, new_i) ← rebalance a1 i
    ok (record rec { arena = a2; root = some new_i })

  -- The branch of two children, with the recursive call.
  unfoldable pub delete_inner :
      ℕ
      → Arena V T
      → ℕ
      → V
      → ℕ
      → (Arena V T → Option ℕ → ℕ → Option (Outcome (Deleted V T)))
      → Option (Outcome (Deleted V T))
  unfolding min_index overwrite hang_deleted
  delete_inner fuel a i retv right recurse = and_then (min_index fuel a right) (λ succ.
      and_then (some (overwrite a i succ)) (λ (a3, root, succ_key).
        and_then (recurse a3 root succ_key) (λ rec.
          some (hang_deleted i set_r (record rec { removed_val = some retv; did_remove = true })))))

  -- The branch Equal, by the two children.
  unfoldable pub delete_here :
      ℕ
      → Arena V T
      → Option ℕ
      → ℕ
      → V
      → Option ℕ
      → Option ℕ
      → (Arena V T → Option ℕ → ℕ → Option (Outcome (Deleted V T)))
      → Option (Outcome (Deleted V T))
  unfolding unlink delete_inner
  delete_here fuel a free_head i retv none right recurse = some (unlink a free_head i retv right)
  delete_here fuel a free_head i retv (some x) none recurse =
      some (unlink a free_head i retv (some x))
  delete_here fuel a free_head i retv (some x) (some y) recurse =
      delete_inner fuel a i retv y recurse

  unfoldable pub delete_rec :
      ℕ → Arena V T → Option ℕ → Option ℕ → ℕ → Option (Outcome (Deleted V T))
  unfolding read hang_deleted delete_here l r
  delete_rec zero a free_head root key = none
  delete_rec (suc fuel) a free_head none key = some (
      ok (record {
        arena = a;
        free_head = free_head;
        root = none;
        removed_val = none;
        did_remove = false;
      }))
  delete_rec (suc fuel) a free_head (some i) key = and_then (some (read a i)) (λ n.
      elim (compare key n.key) [
        | Ordering.lt ↦
            and_then (delete_rec fuel a free_head (l n) key)
              (λ rec. some (hang_deleted i set_l rec))
        | Ordering.gt ↦
            and_then (delete_rec fuel a free_head (r n) key)
              (λ rec. some (hang_deleted i set_r rec))
        | Ordering.eq ↦
            delete_here fuel a free_head i n.val (l n) (r n)
              (λ a3 root k. delete_rec fuel a3 free_head root k)
      ])

  -- remove: the removed value, the header and the arena.
  unfoldable pub remove :
      ℕ
      → AvlTreeMapHeader
      → Arena V T
      → ℕ
      → Option (Outcome (Option V × AvlTreeMapHeader × Arena V T))
  unfolding delete_rec
  remove fuel header a key = and_then (delete_rec fuel a header.free_head header.root key) (λ rec.
      some (
        ok (
          rec.removed_val,
          record {
            root = rec.root;
            free_head = rec.free_head;
            len = if rec.did_remove then wrapping_pred header.len else header.len;
          },
          rec.arena,
        )))
