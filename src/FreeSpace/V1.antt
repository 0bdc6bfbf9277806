-- ===== src/FreeSpace/V1.antt =====
-- V1FSM of pg_search/src/postgres/storage/fsm.rs (module v1): free blocks on a chain of pages, each
-- with the transaction id from which on it may be used again. The chain is the list of its pages
-- in the order of their next_blockno links. What other backends do is the parameter `Locks`: which
-- conditional lock upgrades succeed, and what a page holds once it is locked. A waiting upgrade
-- always succeeds. `slots` is MAX_ENTRIES_PER_PAGE.
pub mod Tracked
pub mod Pop
pub mod Drain
pub mod Extend
pub mod Pages
mod Examples
use mathlib.Core.Option
use paradedb.Common.{
  ℕ, zero, suc, ◌+◌, ◌%◌, Bool, true, false, not, ◌&&◌, ◌||◌, Option, none, some, List, [], ◌∷◌,
  ◌++◌, length, ltb, ◌==◌, if◌then◌else◌, is_some,
}
use paradedb.Xid.{transaction_id_precedes_or_equals, u32_mod, invalid_transaction_id}
use paradedb.Segment.Meta.{invalid_block_number}

pub data FsmBlockKind : Type 0 where
  v0 v1_uncompressed v2_avl_tree : FsmBlockKind

-- FSMEntry: a block number and a transaction id.
abbrev pub FsmEntry : Type 0
FsmEntry = ℕ × ℕ

-- FSMBlock, with the fields of its header.
pub record FsmBlock : Type 0 where
  pub kind : FsmBlockKind
  pub empty : Bool
  pub entries : List FsmEntry

pub record FsmPage : Type 0 where
  pub blockno : ℕ
  pub block : FsmBlock

pub record Locks : Type 0 where
  pub granted : ℕ → Bool
  pub found : ℕ → FsmBlock → FsmBlock

unfoldable pub is_v0 : FsmBlock → Bool
is_v0 b = elim b.kind [ v0 ↦ true | v1_uncompressed ↦ false | v2_avl_tree ↦ false ]

abbrev pub is_invalid : ℕ → Bool
is_invalid b = b == invalid_block_number

unfoldable pub default_entries : ℕ → List FsmEntry
default_entries zero = []
default_entries (suc n) = (invalid_block_number, invalid_transaction_id) ∷ default_entries n

unfoldable pub default_block : ℕ → FsmBlock
unfolding default_entries
default_block slots = record {
  kind = v1_uncompressed;
  empty = false;
  entries = default_entries slots;
}

unfoldable pub any_invalid : List FsmEntry → Bool
any_invalid [] = false
any_invalid (e ∷ es) = let rest = any_invalid es in if is_invalid e.0 then true else rest

-- passses_visibility_horizon
unfoldable pub passes_visibility_horizon : ℕ → ℕ → Bool
passes_visibility_horizon fsm_xid xid_horizon =
    transaction_id_precedes_or_equals fsm_xid xid_horizon

-- The loop of `pop` over the entries of a locked page.
unfoldable pub pop_scan : ℕ → List FsmEntry → Option ℕ → Bool → Option ℕ × Bool × List FsmEntry
pop_scan horizon [] found all_invalid = (found, all_invalid, [])
pop_scan horizon ((b, xid) ∷ es) found all_invalid =
    let hit =
      not (is_some found) && (not (is_invalid b) && passes_visibility_horizon xid horizon) in
    let found' = if hit then some b else found in
    let b' = if hit then invalid_block_number else b in
    let (f, i, es') = pop_scan horizon es found' (all_invalid && is_invalid b') in
    (f, i, (b', xid) ∷ es')

abbrev pub is_last : List FsmPage → Bool
is_last [] = true
is_last (p ∷ ps) = false

-- One round of the loop of `pop`: a page of the oldest format, an empty page and a page whose
-- lock is not granted are passed; at the end of the chain the upgrade waits for the lock.
unfoldable pub pop_page : Locks → ℕ → Bool → FsmPage → Option ℕ × FsmPage
unfolding is_v0
pop_page locks horizon last p =
    if is_v0 p.block || (p.block).empty
    then (none, p)
    else if not (last || locks.granted p.blockno)
    then (none, p)
    else (let block = locks.found p.blockno p.block in
        if block.empty
        then (none, record p { block = block })
        else (let (hit, all_invalid, es) = pop_scan horizon block.entries none true in
            (hit, record p { block = record block { empty = all_invalid; entries = es } })))

-- pop: the block found, and the chain afterwards.
unfoldable pub pop : Locks → ℕ → List FsmPage → Option ℕ × List FsmPage
unfolding pop_page pop_scan
pop locks horizon [] = (none, [])
pop locks horizon (p ∷ ps) =
    let (hit, p') = pop_page locks horizon (is_last ps) p in
    let rest = pop locks horizon ps in if is_some hit then (hit, p' ∷ ps) else (rest.0, p' ∷ rest.1)

-- The loop of `drain` over the entries of a locked page.
unfoldable pub drain_scan : ℕ → ℕ → List ℕ → List FsmEntry → Bool → List ℕ × Bool × List FsmEntry
drain_scan horizon n blocks [] all_invalid = (blocks, all_invalid, [])
drain_scan horizon n blocks ((b, xid) ∷ es) all_invalid =
    let hit =
      ltb (length blocks) n && (not (is_invalid b) && passes_visibility_horizon xid horizon) in
    let blocks' = if hit then blocks ++ b ∷ [] else blocks in
    let b' = if hit then invalid_block_number else b in
    let (bs, i, es') = drain_scan horizon n blocks' es (all_invalid && is_invalid b') in
    (bs, i, (b', xid) ∷ es')

-- One round of the loop of `drain`: the blocks drained so far, whether the loop returns, and the page.
unfoldable pub drain_page : Locks → ℕ → ℕ → List ℕ → FsmPage → List ℕ × Bool × FsmPage
unfolding is_v0
drain_page locks horizon n blocks p =
    if is_v0 p.block || (p.block).empty
    then (blocks, false, p)
    else if not (locks.granted p.blockno)
    then (blocks, false, p)
    else (let block = locks.found p.blockno p.block in
        if block.empty
        then (blocks, false, record p { block = block })
        else (let (bs, all_invalid, es) = drain_scan horizon n blocks block.entries true in
            let unchanged = not all_invalid && (length blocks == length bs) in
            (
              bs,
              not unchanged && (length bs == n),
              record p { block = record block { empty = all_invalid; entries = es } },
            )))

-- drain, from a page on, with the blocks drained so far.
unfoldable pub drain_from : Locks → ℕ → ℕ → List ℕ → List FsmPage → List ℕ × List FsmPage
unfolding drain_page drain_scan
drain_from locks horizon n blocks [] = (blocks, [])
drain_from locks horizon n blocks (p ∷ ps) =
    let (bs, done, p') = drain_page locks horizon n blocks p in
    let rest = drain_from locks horizon n bs ps in
    if done then (bs, p' ∷ ps) else (rest.0, p' ∷ rest.1)

unfoldable pub drain : Locks → ℕ → ℕ → List FsmPage → List ℕ × List FsmPage
unfolding drain_from
drain locks horizon n pages = drain_from locks horizon n [] pages

-- Invalid entries are filled from the iterator, as long as it yields: the entries, what is left of
-- the iterator, and how many entries were written.
unfoldable pub fill_entries : ℕ → List FsmEntry → List ℕ → List FsmEntry × List ℕ × ℕ
fill_entries xid [] blocks = ([], blocks, 0)
fill_entries xid (e ∷ es) [] = (e ∷ es, [], 0)
fill_entries xid (e ∷ es) (b ∷ blocks) = elim (is_invalid e.0) [
  | true ↦ let (es', left, cnt) = fill_entries xid es blocks in ((b, xid) ∷ es', left, suc cnt)
  | false ↦ let (es', left, cnt) = fill_entries xid es (b ∷ blocks) in (e ∷ es', left, cnt)
]

unfoldable pub space_available : FsmBlock → Bool
unfolding is_v0 any_invalid
space_available b = is_v0 b || (b.empty || any_invalid b.entries)

abbrev pub is_done : List ℕ → Bool
is_done [] = true
is_done (b ∷ bs) = false

-- The page after the fill, and what is left of the iterator.
unfoldable pub extend_page : ℕ → ℕ → List ℕ → FsmBlock → FsmBlock × List ℕ
unfolding is_v0 default_block fill_entries
extend_page slots xid blocks b =
    let block = if is_v0 b then default_block slots else b in
    let (es, left, cnt) = fill_entries xid block.entries blocks in
    (record block { empty = if cnt == 0 then block.empty else false; entries = es }, left)

-- A page with space is locked and filled, another one is passed.
unfoldable pub visit : Locks → ℕ → ℕ → List ℕ → FsmPage → FsmBlock × List ℕ
unfolding extend_page space_available
visit locks slots xid blocks p =
    if space_available p.block
    then extend_page slots xid blocks (locks.found p.blockno p.block)
    else (p.block, blocks)

-- The loop of extend_with_when_recyclable, at a page and the pages behind it. `none`: the supply of
-- new blocks is used up.
unfoldable pub extend_at :
    Locks → ℕ → ℕ → List ℕ → List ℕ → FsmPage → List FsmPage → Option (List FsmPage)
unfolding visit
extend_at locks slots xid [] blocks p [] =
    let (b, left) = visit locks slots xid blocks p in
    if space_available p.block && is_done left then some (record p { block = b } ∷ []) else none
extend_at locks slots xid (new ∷ supply) blocks p [] =
    let (b, left) = visit locks slots xid blocks p in
    let rest =
      extend_at locks slots xid supply left (record { blockno = new; block = default_block slots })
        [] in
    if space_available p.block && is_done left
    then some (record p { block = b } ∷ [])
    else Option.map (λ qs. record p { block = b } ∷ qs) rest
extend_at locks slots xid supply blocks p (q ∷ ps) =
    let (b, left) = visit locks slots xid blocks p in
    let rest = extend_at locks slots xid supply left q ps in
    if space_available p.block && is_done left
    then some (record p { block = b } ∷ q ∷ ps)
    else Option.map (λ qs. record p { block = b } ∷ qs) rest

-- extend_with_when_recyclable: the full transaction id is cut to 32 bits.
unfoldable pub extend_with_when_recyclable :
    Locks → ℕ → List ℕ → ℕ → List ℕ → List FsmPage → Option (List FsmPage)
unfolding extend_at
extend_with_when_recyclable locks slots supply when_recyclable blocks [] = none
extend_with_when_recyclable locks slots supply when_recyclable blocks (p ∷ ps) =
    extend_at locks slots (when_recyclable % u32_mod) supply blocks p ps

-- used_blocks: the pages of the manager itself.
unfoldable pub used_blocks : List FsmPage → List ℕ
used_blocks [] = []
used_blocks (p ∷ ps) = p.blockno ∷ used_blocks ps
