-- ===== src/LinkedItems.antt =====
-- LinkedItemList of pg_search/src/postgres/storage/linked_items.rs: items of one type on a chain
-- of pages. The chain is the list of its pages in the order of their next_blockno links, the start
-- page first, so each loop over the links is a recursion on that list. What the page layer decides,
-- whether an item still fits on a page (Postgres' PageAddItem), is the parameter `room`. The blocks
-- that the buffer manager hands out, recycled or new, are an explicit supply. A page has no
-- dead items: the deletions of Postgres that the source calls close the gap.
pub mod Append
pub mod Retain
pub mod Search
pub mod Edit
pub mod Atomic
mod Examples
use mathlib.Core.Option
use paradedb.Common.{
  ℕ, suc, Bool, true, false, Option, none, some, List, [], ◌∷◌, ◌++◌, if◌then◌else◌, Outcome, ok,
  panic,
}

pub record Page {ℓ} (T : Type ℓ) : Type ℓ where
  pub blockno : ℕ
  pub items : List T

-- Its answer for one item of `retain`.
pub data RetainItem : Type 0 where
  remove retain_item : RetainItem

module _ {ℓ} {T : Type ℓ} where
  -- list: the items of every page, in order.
  unfoldable pub list : List (Page T) → List T
  list [] = []
  list (p ∷ ps) = p.items ++ list ps

  unfoldable pub is_empty : List (Page T) → Bool
  is_empty [] = true
  is_empty (p ∷ ps) = let rest = is_empty ps in elim p.items [ [] ↦ rest | x ∷ xs ↦ false ]

  -- freeable_blocks_without_header: the blocks of the chain.
  unfoldable pub freeable_blocks_without_header : List (Page T) → List ℕ
  freeable_blocks_without_header [] = []
  freeable_blocks_without_header (p ∷ ps) = p.blockno ∷ freeable_blocks_without_header ps

  -- freeable_blocks: the header block first.
  unfoldable pub freeable_blocks : ℕ → List (Page T) → List ℕ
  unfolding freeable_blocks_without_header
  freeable_blocks header_blockno pages = header_blockno ∷ freeable_blocks_without_header pages

  abbrev pub push_item : Page T → T → Page T
  push_item p x = record p { items = p.items ++ x ∷ [] }

  -- The loop of add_items, at the page that the current buffer holds and the pages behind it.
  -- `none`: the supply of blocks is used up, or an item does not even fit on an empty page.
  unfoldable pub add_items_at :
      (List T → T → Bool) → List ℕ → List T → Page T → List (Page T) → Option (List (Page T))
  add_items_at room supply [] p ps = some (p ∷ ps)
  add_items_at room supply (x ∷ xs) p [] = elim (room p.items x) [
    | true ↦ add_items_at room supply xs (push_item p x) []
    | false ↦ elim supply [
      | [] ↦ none
      | b ∷ supply' ↦ elim (room [] x) [
        | true ↦
            Option.map (λ qs. p ∷ qs)
              (add_items_at room supply' xs (record { blockno = b; items = x ∷ [] }) [])
        | false ↦ none
      ]
    ]
  ]
  add_items_at room supply (x ∷ xs) p (q ∷ ps) = elim (room p.items x) [
    | true ↦ add_items_at room supply xs (push_item p x) (q ∷ ps)
    | false ↦ Option.map (λ qs. p ∷ qs) (add_items_at room supply (x ∷ xs) q ps)
  ]

  -- add_items with no buffer given: from the start page.
  unfoldable pub add_items :
      (List T → T → Bool) → List ℕ → List T → List (Page T) → Option (List (Page T))
  unfolding add_items_at
  add_items room supply xs [] = none
  add_items room supply xs (p ∷ ps) = add_items_at room supply xs p ps

  -- One page of `retain`: the items kept, and the items removed.
  unfoldable pub retain_page : (T → RetainItem) → List T → List T × List T
  retain_page f [] = ([], [])
  retain_page f (x ∷ xs) =
      let (kept, removed) = retain_page f xs in
      elim (f x) [ remove ↦ (kept, x ∷ removed) | retain_item ↦ (x ∷ kept, removed) ]

  -- The pages behind the start page: an emptied one is unlinked, and its block is freed.
  unfoldable pub retain_rest : (T → RetainItem) → List (Page T) → List (Page T) × List T × List ℕ
  unfolding retain_page
  retain_rest f [] = ([], [], [])
  retain_rest f (p ∷ ps) =
      let (kept, removed) = retain_page f p.items in
      let (ps', removed', freed) = retain_rest f ps in
      elim kept [
        | [] ↦ (ps', removed ++ removed', p.blockno ∷ freed)
        | x ∷ xs ↦ (record p { items = x ∷ xs } ∷ ps', removed ++ removed', freed)
      ]

  -- retain: the new chain, the removed items, and the blocks returned to the free space manager.
  -- The start page stays, empty or not.
  unfoldable pub retain : (T → RetainItem) → List (Page T) → List (Page T) × List T × List ℕ
  unfolding retain_rest
  retain f [] = ([], [], [])
  retain f (p ∷ ps) =
      let (kept, removed) = retain_page f p.items in
      let (ps', removed', freed) = retain_rest f ps in
      (record p { items = kept } ∷ ps', removed ++ removed', freed)

  -- The first match on one page, with its offset (offset numbers start at 1).
  unfoldable pub find_on_page : (T → Bool) → ℕ → List T → Option (T × ℕ)
  find_on_page cmp offsetno [] = none
  find_on_page cmp offsetno (x ∷ xs) =
      let rest = find_on_page cmp (suc offsetno) xs in if cmp x then some (x, offsetno) else rest

  -- lookup_ex; `none` is its error.
  unfoldable pub lookup_ex : (T → Bool) → List (Page T) → Option (T × ℕ × ℕ)
  unfolding find_on_page
  lookup_ex cmp [] = none
  lookup_ex cmp (p ∷ ps) =
      let rest = lookup_ex cmp ps in
      elim (find_on_page cmp 1 p.items) [
        | some (x, offsetno) ↦ some (x, p.blockno, offsetno)
        | none ↦ rest
      ]

-- AtomicGuard: the chain as it is, and the copy that changes are made to.
pub record AtomicGuard {ℓ} (T : Type ℓ) : Type ℓ where
  pub original : List (Page T)
  pub cloned_header_blockno : ℕ
  pub cloned : List (Page T)

module _ {ℓ} {T : Type ℓ} where
  -- The copy loop of `atomically`: each page is copied to a page of its own.
  unfoldable pub clone_pages : List ℕ → List (Page T) → Option (List (Page T))
  clone_pages supply [] = some []
  clone_pages [] (p ∷ ps) = none
  clone_pages (b ∷ supply) (p ∷ ps) =
      Option.map (λ qs. record p { blockno = b } ∷ qs) (clone_pages supply ps)

  -- The result of the copy loop: `none` is the lack of blocks.
  abbrev pub copied : List (Page T) → ℕ → Option (List (Page T)) → Option (Outcome (AtomicGuard T))
  copied pages b none = none
  copied pages b (some qs) =
      some (ok (record { original = pages; cloned_header_blockno = b; cloned = qs }))

  -- atomically: the first block handed out is the header of the copy. A list has at least one block,
  -- or the assertion panics.
  unfoldable pub atomically : List ℕ → List (Page T) → Option (Outcome (AtomicGuard T))
  unfolding clone_pages
  atomically [] pages = none
  atomically (b ∷ supply) [] = some panic
  atomically (b ∷ supply) (p ∷ ps) = copied (p ∷ ps) b (clone_pages supply (p ∷ ps))

  -- commit: the header now leads to the copy, and the old pages and the header of the copy go to
  -- the free space manager.
  unfoldable pub commit : AtomicGuard T → List (Page T) × List ℕ
  unfolding freeable_blocks_without_header
  commit guard = (
    guard.cloned,
    freeable_blocks_without_header guard.original ++ guard.cloned_header_blockno ∷ [],
  )
