-- ===== src/Segment/Mutable.antt =====
-- Mutable segments: a log of added and removed row pointers, kept in a list of linked items, and
-- the part of it that a reader may see. mutable_add_items, mutable_delete_items and
-- mutable_snapshot of pg_search/src/postgres/storage/block.rs. A HashSet of row pointers is its
-- increasing list of elements, so that sorting it changes nothing.
pub mod Sets
pub mod Snapshot
pub mod Writes
use paradedb.Common.{
  ℕ, ◌+◌, ◌-◌, ◌%◌, Bool, true, Option, List, [], ◌∷◌, map, length, take, ltb, leb, ◌==◌,
  if◌then◌else◌, unwrap_or, Outcome, ok, err, panic, or_panic, ◌>>=◌,
}
use paradedb.Xid.{u32_mod}
use paradedb.LinkedItems.{Page, list, add_items}
use paradedb.Segment.Data.{
  SegmentMetaEntry, SegmentMetaEntryMutable, MutableSegmentEntry, immutable, mutable_content, add,
  remove_entry,
}

abbrev pub Log : Type 0
Log = List (Page MutableSegmentEntry)

-- Whether an entry still fits on a page of the log.
abbrev pub Room : Type 0
Room = List MutableSegmentEntry → MutableSegmentEntry → Bool

-- items.len().try_into().unwrap()
unfoldable pub u32_of_len : ℕ → Outcome ℕ
u32_of_len n = if ltb n u32_mod then ok n else panic

-- The content after `new_max_doc` documents are in: full segments are frozen.
unfoldable pub freeze_at : ℕ → Option ℕ → SegmentMetaEntryMutable → SegmentMetaEntryMutable
freeze_at new_max_doc mutable_segment_rows c =
    if leb (unwrap_or 0 mutable_segment_rows) new_max_doc then record c { frozen = true } else c

-- `mutable_segment_rows` is the index option; `pages` is the log that the entry's header block
-- leads to.
unfoldable pub mutable_add_items :
    Room
    → List ℕ
    → Option ℕ
    → SegmentMetaEntry
    → List MutableSegmentEntry
    → Log
    → Outcome (SegmentMetaEntry × Log)
unfolding u32_of_len freeze_at
mutable_add_items room supply mutable_segment_rows e items pages = do
  items_len ← u32_of_len (length items)
  let new_max_doc = (e.header.max_doc + items_len) % u32_mod
  elim e.content [
    | immutable c ↦ err
    | mutable_content c ↦ if c.frozen then err else (do
      pages' ← or_panic (add_items room supply items pages)
      ok (
        record {
          header = record (e.header) { max_doc = new_max_doc };
          content = mutable_content (freeze_at new_max_doc mutable_segment_rows c);
        },
        pages',
      ))
  ]

unfoldable pub mutable_delete_items :
    Room → List ℕ → SegmentMetaEntry → List ℕ → Log → Outcome (SegmentMetaEntry × Log)
unfolding u32_of_len
mutable_delete_items room supply e ctids pages = elim e.content [
  | immutable c ↦ err
  | mutable_content c ↦ (do
    let entries = map remove_entry ctids
    pages' ← or_panic (add_items room supply entries pages)
    deleted ← u32_of_len (length entries)
    ok (
      record e {
        content =
            mutable_content
              (record c { num_deleted_docs = (c.num_deleted_docs + deleted) % u32_mod });
      },
      pages',
    ))
]

-- ctid_set.insert
unfoldable pub set_insert : ℕ → List ℕ → List ℕ
set_insert x [] = x ∷ []
set_insert x (y ∷ ys) =
    let rest = set_insert x ys in
    if x == y then y ∷ ys else if ltb x y then x ∷ y ∷ ys else y ∷ rest

-- ctid_set.remove
unfoldable pub set_remove : ℕ → List ℕ → List ℕ
set_remove x [] = []
set_remove x (y ∷ ys) = let rest = set_remove x ys in if x == y then ys else y ∷ rest

-- The loop over the entries of the snapshot.
unfoldable pub replay : List MutableSegmentEntry → List ℕ → List ℕ
unfolding set_insert set_remove
replay [] ctid_set = ctid_set
replay (add ctid ∷ log) ctid_set = replay log (set_insert ctid ctid_set)
replay (remove_entry ctid ∷ log) ctid_set = replay log (set_remove ctid ctid_set)

-- `expected_ctids` is a `u32` difference, which wraps in a release build.
unfoldable pub mutable_snapshot : SegmentMetaEntry → Log → Outcome (List ℕ)
mutable_snapshot e pages = elim e.content [
  | immutable c ↦ err
  | mutable_content c ↦
      let snapshot_entries = e.header.max_doc + c.num_deleted_docs in
      let expected_ctids = (e.header.max_doc + u32_mod - c.num_deleted_docs) % u32_mod in
      let ctid_set = replay (take snapshot_entries (list pages)) [] in
      if length ctid_set == expected_ctids then ok ctid_set else panic
]
