-- ===== src/LinkedItems/Examples.antt =====
-- Runs and instances for lists of linked items.
use mathlib.Core.List.{tail}
use paradedb.Common.{
  ℕ, ◌+◌, ◌≡◌, ◌≢◌, refl, some, List, [], ◌∷◌, ◌++◌, keep, All, all, count, IsDistinct, not, ok,
  panic, none, true, ◌↔◌, ltb, ◌==◌, if◌then◌else◌, arith,
}
use paradedb.LinkedItems.{
  Page, RetainItem, remove, retain_item, list, is_empty, freeable_blocks_without_header, add_items,
  retain, lookup_ex, AtomicGuard, atomically, commit,
}
use paradedb.LinkedItems.Append.{uniform, IsPacked, list-add_items}
use paradedb.LinkedItems.Retain.{retain_lem, retained, removes}
use paradedb.LinkedItems.Search.{Located, first, found_value, lookup_ex_lem}
use paradedb.LinkedItems.Atomic.{commit-atomically}
use paradedb.LinkedItems.Edit.{Round, remove_item, update_item, lookup, garbage_collect}
use paradedb.LinkedItems.Edit.Race.{SomeRound, Replaced, Updated, edits_under_lock}
use paradedb.LinkedItems.Edit.Quiet.{quiet, Settles, edits_first_match}
use paradedb.LinkedItems.Edit.Garbage.{garbage_collect_lem}

abbrev start : Page ℕ
start = record { blockno = 4; items = 10 ∷ 11 ∷ [] }

abbrev behind : List (Page ℕ)
behind = record { blockno = 6; items = 12 ∷ [] } ∷ []

abbrev drop_large : ℕ → RetainItem
drop_large x = if ltb 10 x then remove else retain_item

-- The third item opens a new page.
opens_page :
    add_items (uniform 2) (7 ∷ 8 ∷ []) (13 ∷ 14 ∷ []) (start ∷ behind)
    ≡ some (
        start
        ∷ record { blockno = 6; items = 12 ∷ 13 ∷ [] }
        ∷ record { blockno = 7; items = 14 ∷ [] }
        ∷ [])
unfolding add_items
opens_page = refl

list-add_items_example :
    (after : List (Page ℕ)) × (add_items (uniform 2) (7 ∷ 8 ∷ []) (13 ∷ 14 ∷ []) (start ∷ behind)
      ≡ some after)
    × (list after ≡ list (start ∷ behind) ++ 13 ∷ 14 ∷ [])
    × IsPacked 2 after
list-add_items_example =
    list-add_items 2 (7 ∷ 8 ∷ []) (13 ∷ 14 ∷ []) start behind (omega arith) (omega arith)
      (refl, omega arith)

retain_lem_example :
    (list (retain drop_large (start ∷ behind)).0
      ≡ keep (λ x. retained (drop_large x)) (list (start ∷ behind)))
    × ((retain drop_large (start ∷ behind)).1
        ≡ keep (λ x. removes (drop_large x)) (list (start ∷ behind)))
    × ((b : ℕ)
        → count b (freeable_blocks_without_header (retain drop_large (start ∷ behind)).0)
            + count b (retain drop_large (start ∷ behind)).2
          ≡ count b (freeable_blocks_without_header (start ∷ behind)))
    × All (λ q. q.items ≢ []) (tail (retain drop_large (start ∷ behind)).0)
retain_lem_example = retain_lem drop_large start behind

lookup_ex_lem_example :
    (found_value (lookup_ex (λ x. x == 12) (start ∷ behind))
      ≡ first (λ x. x == 12) (list (start ∷ behind)))
    × ((x : ℕ) (b o : ℕ)
        → lookup_ex (λ x. x == 12) (start ∷ behind) ≡ some (x, b, o)
        → Located x b o (start ∷ behind))
lookup_ex_lem_example = lookup_ex_lem (λ x. x == 12) (start ∷ behind)

commit-atomically_example :
    (guard : AtomicGuard ℕ) × (atomically (20 ∷ 21 ∷ 22 ∷ []) (start ∷ behind) ≡ some (ok guard))
    × (list guard.cloned ≡ list (start ∷ behind))
    × ((rest : List ℕ) × (21 ∷ 22 ∷ [] ≡ freeable_blocks_without_header guard.cloned ++ rest))
    × ((changed : List (Page ℕ))
        → ((commit (record guard { cloned = changed })).0 ≡ changed)
          × ((a : ℕ)
              → count a (commit (record guard { cloned = changed })).1
                ≡ count a (freeable_blocks_without_header (start ∷ behind)) + count a (20 ∷ [])))
    × (atomically {T = ℕ} (20 ∷ 21 ∷ 22 ∷ []) [] ≡ some panic)
commit-atomically_example = commit-atomically 20 (21 ∷ 22 ∷ []) start behind (omega arith)

abbrev one_word : ℕ → ℕ
one_word x = 8

abbrev next_value : ℕ → ℕ
next_value x = x + 1

blocks-IsDistinct : IsDistinct (freeable_blocks_without_header (start ∷ behind))
unfolding freeable_blocks_without_header
blocks-IsDistinct a = ground arith

edits_first_match_example :
    Settles
      (λ x. x == 11)
      (λ x. [])
      (λ x. x)
      (start ∷ behind)
      (remove_item (λ x. x == 11) (quiet (start ∷ behind) ∷ []))
    × Settles
        (λ x. x == 11)
        (λ x. next_value x ∷ [])
        next_value
        (start ∷ behind)
        (update_item one_word (λ x. x == 11) next_value (quiet (start ∷ behind) ∷ []))
edits_first_match_example =
    edits_first_match one_word (λ x. x == 11) next_value (start ∷ behind) [] blocks-IsDistinct
      (λ x. refl)

-- Another backend removed item 10 before the first lock, so the second round finds item 11.
abbrev moved : List (Round ℕ)
moved =
    (start ∷ behind, λ b. 11 ∷ [])
    ∷ (record { blockno = 4; items = 11 ∷ [] } ∷ behind, λ b. 11 ∷ 15 ∷ [])
    ∷ []

edits_under_lock_example :
    (remove_item (λ x. x == 11) moved ≡ some (ok (11, 4, 15 ∷ []))
      → SomeRound (Replaced (λ x. x == 11) 4 11 [] (15 ∷ [])) moved)
    × (update_item one_word (λ x. x == 11) next_value moved ≡ some (ok (11, 4, 15 ∷ []))
        → SomeRound (Updated one_word (λ x. x == 11) next_value 4 11 (15 ∷ [])) moved)
edits_under_lock_example = edits_under_lock one_word (λ x. x == 11) next_value moved 11 4 (15 ∷ [])

garbage_collect_lem_example :
    (list (garbage_collect (ltb 10) (start ∷ behind)).0
      ≡ keep (λ x. not (ltb 10 x)) (list (start ∷ behind)))
    × (lookup (ltb 10) (garbage_collect (ltb 10) (start ∷ behind)).0 ≡ none)
    × ((is_empty (garbage_collect (ltb 10) (start ∷ behind)).0 ≡ true)
        ↔ (all (ltb 10) (list (start ∷ behind)) ≡ true))
garbage_collect_lem_example = garbage_collect_lem (ltb 10) start behind
