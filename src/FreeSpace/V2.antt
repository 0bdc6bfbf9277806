-- ===== src/FreeSpace/V2.antt =====
-- V2FSM of pg_search/src/postgres/storage/fsm.rs (module v2): an AVL map from 64-bit transaction ids
-- to freelists, as one backend extends it. The tag of a slot is the first block of its freelist, a
-- chain of leaf pages in the order of their next_blockno links. `room` is MAX_ENTRIES, and `supply`
-- has the block numbers of the new pages that the buffer manager hands out; `none` is the lack of
-- them or of fuel. The lock upgrade between the lookup and the insertion is taken to let no other
-- backend in.
pub mod Fill
pub mod Freelist
pub mod Chain
pub mod Root
pub mod Choice
pub mod Extend
mod Examples
use paradedb.Common.{
  ℕ, zero, suc, ◌&&◌, Bool, true, false, Option, none, some, List, [], ◌∷◌, ◌++◌, length, ltb, ◌==◌,
  if◌then◌else◌,
}

-- AvlLeaf, with its page's block number and the entries before `len`.
pub record AvlLeaf : Type 0 where
  pub blockno : ℕ
  pub entries : List ℕ

-- The loop that fills a page: its entries, and the blocks that are left.
unfoldable pub fill_leaf : ℕ → List ℕ → List ℕ → List ℕ × List ℕ
fill_leaf room entries [] = (entries, [])
fill_leaf room entries (b ∷ extend_with) =
    let more = fill_leaf room (entries ++ b ∷ []) extend_with in
    if ltb (length entries) room then more else (entries, b ∷ extend_with)

-- Whether blocks are left.
abbrev pub until_empty {ℓ} : {A : Type ℓ} → List ℕ → A → A → A
until_empty [] done more = done
until_empty (b ∷ bs) done more = more

abbrev pub put_before : AvlLeaf → Option (List AvlLeaf) → Option (List AvlLeaf)
put_before p none = none
put_before p (some ps) = some (p ∷ ps)

abbrev pub put_behind : Option (List AvlLeaf) → List AvlLeaf → Option (List AvlLeaf)
put_behind none qs = none
put_behind (some ps) qs = some (ps ++ qs)

-- extend_freelist from a page that is the last.
unfoldable pub extend_last : ℕ → List ℕ → AvlLeaf → List ℕ → Option (List AvlLeaf)
unfolding fill_leaf
extend_last room [] p extend_with =
    let (entries, left) = fill_leaf room p.entries extend_with in
    until_empty left (some (record p { entries = entries } ∷ [])) none
extend_last room (new_blockno ∷ supply) p extend_with =
    let (entries, left) = fill_leaf room p.entries extend_with in
    let rest = extend_last room supply (record { blockno = new_blockno; entries = [] }) left in
    until_empty left (some (record p { entries = entries } ∷ []))
      (put_before (record p { entries = entries }) rest)

-- The branch of a full page with a next one: new pages come between.
unfoldable pub link_between : ℕ → List ℕ → AvlLeaf → List AvlLeaf → List ℕ → Option (List AvlLeaf)
unfolding extend_last
link_between room [] p ps extend_with = none
link_between room (new_blockno ∷ supply) p ps extend_with = put_before p (
    put_behind
      (extend_last room supply (record { blockno = new_blockno; entries = [] }) extend_with) ps)

-- extend_freelist, at a page and the pages behind it.
unfoldable pub extend_freelist :
    ℕ → List ℕ → AvlLeaf → List AvlLeaf → List ℕ → Option (List AvlLeaf)
unfolding fill_leaf extend_last link_between
extend_freelist room supply p [] extend_with = extend_last room supply p extend_with
extend_freelist room supply p (q ∷ ps) extend_with =
    let (entries, left) = fill_leaf room p.entries extend_with in
    let rest = extend_freelist room supply q ps left in
    if length p.entries == room
    then link_between room supply p (q ∷ ps) extend_with
    else until_empty left (some (record p { entries = entries } ∷ q ∷ ps))
        (put_before (record p { entries = entries }) rest)
