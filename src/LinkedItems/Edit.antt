-- ===== src/LinkedItems/Edit.antt =====
-- The edits of single items, and the removal of dead ones: remove_item, update_item, lookup and
-- garbage_collect of pg_search/src/postgres/storage/linked_items.rs. Between the search and the
-- lock of the page that it found, other backends may change that page. A round of the retry loop
-- is the chain as it was searched, and what the page with a given block number holds once it is
-- locked. A list of rounds is used up when the loop still retries.
pub mod Race
pub mod Quiet
pub mod Garbage
use mathlib.Core.Option
use paradedb.Common.{
  ℕ, zero, suc, Bool, true, false, Option, none, some, List, [], ◌∷◌, if◌then◌else◌, ◌==◌, Outcome,
  ok, err, panic,
}
use paradedb.LinkedItems.{Page, RetainItem, remove, retain_item, retain, lookup_ex}

abbrev pub Round {ℓ} : Type ℓ → Type ℓ
Round T = List (Page T) × (ℕ → List T)

module _ {ℓ} {T : Type ℓ} where
  -- deserialize_item: the item at an offset of a page; offsets start at 1.
  unfoldable pub deserialize_item : ℕ → List T → Option T
  deserialize_item i [] = none
  deserialize_item zero (x ∷ xs) = none
  deserialize_item (suc zero) (x ∷ xs) = some x
  deserialize_item (suc (suc i)) (x ∷ xs) = deserialize_item (suc i) xs

  -- delete_item: the items behind it move up.
  unfoldable pub delete_item : ℕ → List T → List T
  delete_item i [] = []
  delete_item zero (x ∷ xs) = x ∷ xs
  delete_item (suc zero) (x ∷ xs) = xs
  delete_item (suc (suc i)) (x ∷ xs) = x ∷ delete_item (suc i) xs

  unfoldable pub replace_item : ℕ → T → List T → List T
  replace_item i y [] = []
  replace_item zero y (x ∷ xs) = x ∷ xs
  replace_item (suc zero) y (x ∷ xs) = y ∷ xs
  replace_item (suc (suc i)) y (x ∷ xs) = x ∷ replace_item (suc i) y xs

  -- The item, the block number of its page, and what that page holds afterwards.
  unfoldable pub remove_item : (T → Bool) → List (Round T) → Option (Outcome (T × ℕ × List T))
  unfolding lookup_ex deserialize_item delete_item
  remove_item cmp [] = none
  remove_item cmp ((searched, locked) ∷ rounds) =
      let retry = remove_item cmp rounds in
      elim (lookup_ex cmp searched) [
        | none ↦ some err
        | some (x, b, o) ↦ elim (deserialize_item o (locked b)) [
          | none ↦ retry
          | some item ↦ if cmp item then some (ok (item, b, delete_item o (locked b))) else retry
        ]
      ]

  -- `size` is the size of an item as it is stored; an update that changes it panics.
  unfoldable pub update_item :
      (T → ℕ) → (T → Bool) → (T → T) → List (Round T) → Option (Outcome (T × ℕ × List T))
  unfolding lookup_ex deserialize_item replace_item
  update_item size cmp update [] = none
  update_item size cmp update ((searched, locked) ∷ rounds) =
      let retry = update_item size cmp update rounds in
      elim (lookup_ex cmp searched) [
        | none ↦ some err
        | some (x, b, o) ↦ elim (deserialize_item o (locked b)) [
          | none ↦ retry
          | some item ↦
              if cmp item
              then (if size item == size (update item)
                  then some (ok (update item, b, replace_item o (update item) (locked b)))
                  else some panic)
              else retry
        ]
      ]

  unfoldable pub lookup : (T → Bool) → List (Page T) → Option T
  unfolding lookup_ex
  lookup cmp pages = Option.map (λ r. r.0) (lookup_ex cmp pages)

  -- garbage_collect: `recyclable` is the test of the item type.
  unfoldable pub garbage_collect : (T → Bool) → List (Page T) → List (Page T) × List T × List ℕ
  unfolding retain
  garbage_collect recyclable pages =
      retain (λ entry. if recyclable entry then remove else retain_item) pages
