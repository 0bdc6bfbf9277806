-- ===== src/Segment/Lifecycle.antt =====
-- The life of a segment's entry: the calls of SegmentMetaEntry in
-- pg_search/src/postgres/storage/block.rs that change it, in any order. An entry is marked deleted
-- with the frozen id, as save_new_metas of pg_search/src/index/directory/utils.rs does, the only
-- caller of set_xmax.
pub mod Calls
pub mod Deleted
pub mod Frozen
use paradedb.Common.{ℕ, ◌≡◌, Option, List, ok}
use paradedb.Xid.{frozen_transaction_id}
use paradedb.Segment.Data.{SegmentMetaEntry, MutableSegmentEntry, DeleteEntry, set_xmax}
use paradedb.Segment.Mutable.{Log, Room, mutable_add_items, mutable_delete_items}
use paradedb.Segment.Meta.{replace_deletes}

module _ (room : Room) (rows : Option ℕ) where
  -- One call that succeeds, from an entry with its log to the next.
  pub data Step : SegmentMetaEntry → Log → SegmentMetaEntry → Log → Type 0 where
    adds_items :
        {e e' : SegmentMetaEntry} {pages pages' : Log}
        → (supply : List ℕ) (items : List MutableSegmentEntry)
        → mutable_add_items room supply rows e items pages ≡ ok (e', pages')
        → Step e pages e' pages'
    deletes_items :
        {e e' : SegmentMetaEntry} {pages pages' : Log}
        → (supply ctids : List ℕ) → mutable_delete_items room supply e ctids pages ≡ ok (e', pages')
        → Step e pages e' pages'
    replaces_deletes :
        {e e' : SegmentMetaEntry} {pages : Log}
        → (d : DeleteEntry) (old : Option SegmentMetaEntry) → replace_deletes e d ≡ ok (e', old)
        → Step e pages e' pages
    marks_deleted :
        {e : SegmentMetaEntry} {pages : Log} → Step e pages (set_xmax e frozen_transaction_id) pages

  pub data Reaches (e : SegmentMetaEntry) (pages : Log) : SegmentMetaEntry → Log → Type 0 where
    here : Reaches e pages e pages
    next :
        {e1 e2 : SegmentMetaEntry} {pages1 pages2 : Log}
        → Reaches e pages e1 pages1
        → Step e1 pages1 e2 pages2
        → Reaches e pages e2 pages2
