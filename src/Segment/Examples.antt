-- ===== src/Segment/Examples.antt =====
-- Runs and instances for the entries of segments.
use paradedb.Common.{
  ℕ, ◌+◌, ◌≡◌, refl, Option, some, none, List, [], ◌∷◌, ◌++◌, true, false, map, length, contains,
  leb, unwrap_or, if◌then◌else◌, ◌==◌, ok, err, panic, arith,
}
use paradedb.Xid.{frozen_transaction_id}
use paradedb.LinkedItems.{Page, list}
use paradedb.LinkedItems.Append.{uniform, IsPacked}
use paradedb.Segment.Tag.{
  SegmentMetaEntryTag, mutable_tag, immutable_tag, tag_to_u32, tag_from_u32, tag_from_u32_total,
}
use paradedb.Segment.Data.{
  DeleteEntry, SegmentMetaEntry, SegmentMetaEntryMutable, SegmentMetaEntryImmutable,
  MutableSegmentEntry, immutable, add, remove_entry, new_mutable, new_immutable, is_mutable,
  is_orphaned_delete, is_deleted, num_deleted_docs, set_xmax,
}
use paradedb.Segment.Mutable.{
  Log, mutable_add_items, mutable_delete_items, mutable_snapshot, replay,
}
use paradedb.Segment.Mutable.Sets.{live_after, IsIncreasing}
use paradedb.Segment.Mutable.Snapshot.{IsLogged, mutable_snapshot_stable}
use paradedb.Segment.Mutable.Writes.{mutable_add_items-IsLogged}
use paradedb.Segment.Lifecycle.{deletes_items, replaces_deletes, marks_deleted, here, next}
use paradedb.Segment.Lifecycle.Deleted.{deleted_stays}
use paradedb.Segment.Lifecycle.Frozen.{IsFrozenAfter, frozen_stays}
use paradedb.Segment.Meta.{
  visible, is_mergeable, num_docs, as_tantivy, file_of, replace_deletes, bytes_of, byte_size,
  freeable_blocks,
}
use paradedb.Segment.Meta.Laws.{
  tantivy_docs, delete_blocks, as_tantivy-num_docs, freeable_blocks-replace_deletes,
  byte_size-replace_deletes,
}

-- A mutable segment to which rows 5 and 9 were added, and from which row 5 was removed.
abbrev rows_content : SegmentMetaEntryMutable
rows_content = record { header_block = 30; num_deleted_docs = 1; frozen = false }

abbrev rows_entry : SegmentMetaEntry
rows_entry = new_mutable 77 2 0 rows_content

abbrev rows_log : List MutableSegmentEntry
rows_log = add 5 ∷ add 9 ∷ remove_entry 5 ∷ []

abbrev rows_page : Page MutableSegmentEntry
rows_page = record { blockno = 31; items = rows_log }

abbrev two_rows : List ℕ
two_rows = 5 ∷ 6 ∷ []

-- The same page, once row 9 is removed as well.
abbrev later_pages : Log
later_pages = record { blockno = 31; items = rows_log ++ remove_entry 9 ∷ [] } ∷ []

rows_IsLogged : IsLogged rows_entry rows_content rows_log
unfolding new_mutable replay
rows_IsLogged = record {
  content = refl;
  max_doc = refl;
  deleted = refl;
  consistent = (refl, (refl, (refl, tt)));
  fits = omega arith;
}

mutable_snapshot_stable_example :
    (mutable_snapshot rows_entry later_pages ≡ ok (replay rows_log []))
    × IsIncreasing (replay rows_log [])
    × ((ctid : ℕ) → contains ctid (replay rows_log []) ≡ live_after rows_log ctid false)
unfolding list
mutable_snapshot_stable_example =
    mutable_snapshot_stable rows_entry rows_content rows_log (remove_entry 9 ∷ []) later_pages
      rows_IsLogged refl

list_rows : list (rows_page ∷ []) ≡ rows_log
unfolding list
list_rows = refl

mutable_add_items-IsLogged_example :
    (e' : SegmentMetaEntry) × (c' : SegmentMetaEntryMutable) × (after : Log) × (mutable_add_items
        (uniform 4)
        (40 ∷ 41 ∷ [])
        (some 4)
        rows_entry
        (map add two_rows)
        (rows_page ∷ [])
      ≡ ok (e', after))
    × (list after ≡ list (rows_page ∷ []) ++ map add two_rows)
    × IsPacked 4 after
    × IsLogged e' c' (list after)
    × (c'.frozen ≡ leb (unwrap_or 0 (some 4)) (rows_entry.header.max_doc + length two_rows))
unfolding list new_mutable replay
mutable_add_items-IsLogged_example =
    mutable_add_items-IsLogged 4 (40 ∷ 41 ∷ []) rows_page [] (some 4) rows_entry rows_content
      two_rows (omega arith) (omega arith) (omega arith) rows_IsLogged refl (refl, (refl, tt))
      (omega arith)

-- The same segment once it is frozen, and what is left of it when row 9 is removed.
abbrev full_content : SegmentMetaEntryMutable
full_content = record { header_block = 30; num_deleted_docs = 1; frozen = true }

abbrev full_entry : SegmentMetaEntry
full_entry = new_mutable 77 2 0 full_content

abbrev empty_entry : SegmentMetaEntry
empty_entry = new_mutable 77 2 0 (record { header_block = 30; num_deleted_docs = 2; frozen = true })

abbrev full_log : Log
full_log = rows_page ∷ []

row_9_goes :
    mutable_delete_items (uniform 4) [] full_entry (9 ∷ []) full_log ≡ ok (empty_entry, later_pages)
unfolding mutable_delete_items new_mutable paradedb.LinkedItems.add_items
row_9_goes = refl

frozen_stays_example :
    (c' : SegmentMetaEntryMutable) × (removed : ℕ) × IsFrozenAfter full_entry full_content full_log
      removed
      (set_xmax empty_entry frozen_transaction_id)
      c'
      later_pages
    × (mutable_add_items
          (uniform 4)
          (40 ∷ [])
          (some 2)
          (set_xmax empty_entry frozen_transaction_id)
          (map add two_rows)
          later_pages
        ≡ err)
unfolding new_mutable
frozen_stays_example =
    frozen_stays (uniform 4) (some 2) full_entry (set_xmax empty_entry frozen_transaction_id)
      full_content full_log later_pages (40 ∷ []) (map add two_rows) refl refl (omega arith)
      (omega arith) (next (next here (deletes_items [] (9 ∷ []) row_9_goes)) marks_deleted)

-- An immutable segment with a file of terms and a delete file.
abbrev old_deletes : DeleteEntry
old_deletes = record {
  file_entry = record { starting_block = 51; total_bytes = 300 };
  num_deleted_docs = 2;
}

abbrev new_deletes : DeleteEntry
new_deletes = record {
  file_entry = record { starting_block = 61; total_bytes = 400 };
  num_deleted_docs = 3;
}

abbrev files : SegmentMetaEntryImmutable
files = record {
  postings = none;
  positions = none;
  fast_fields = none;
  field_norms = none;
  terms = some (record { starting_block = 50; total_bytes = 9000 });
  store = none;
  temp_store = none;
  delete = some old_deletes;
}

abbrev files_entry : SegmentMetaEntry
files_entry = new_immutable 78 10 0 files

abbrev two_blocks : ℕ → List ℕ
two_blocks b = b ∷ (b + 100) ∷ []

freeable_blocks-replace_deletes_example :
    (e' : SegmentMetaEntry) × (old : Option SegmentMetaEntry) × (others : List ℕ) × (replace_deletes
        files_entry new_deletes
      ≡ ok (e', old))
    × (freeable_blocks two_blocks two_blocks files_entry
        ≡ ok (others ++ delete_blocks two_blocks two_blocks (some old_deletes)))
    × (freeable_blocks two_blocks two_blocks e' ≡ ok (others ++ two_blocks 61))
    × (◌≡◌ {A = Option DeleteEntry} (some old_deletes) none → old ≡ none)
    × ((o : DeleteEntry)
        → some old_deletes ≡ some o
        → (fake : SegmentMetaEntry) × (old ≡ some fake)
          × (visible fake ≡ false)
          × (freeable_blocks two_blocks two_blocks fake
              ≡ ok (two_blocks (o.file_entry).starting_block)))
unfolding new_immutable is_orphaned_delete
freeable_blocks-replace_deletes_example =
    freeable_blocks-replace_deletes two_blocks two_blocks files_entry files new_deletes refl refl

byte_size-replace_deletes_example :
    ((c : SegmentMetaEntryImmutable)
      → files_entry.content ≡ immutable c
      → (e' : SegmentMetaEntry) × (old : Option SegmentMetaEntry) × (replace_deletes files_entry
            new_deletes
          ≡ ok (e', old))
        × (byte_size e' + bytes_of (file_of c.delete) ≡ byte_size files_entry + 400)
        × (e'.header ≡ files_entry.header)
        × (num_deleted_docs e' ≡ 3))
    × (is_mutable files_entry ≡ true → replace_deletes files_entry new_deletes ≡ panic)
byte_size-replace_deletes_example = byte_size-replace_deletes files_entry new_deletes

as_tantivy-num_docs_example :
    (tantivy_docs (as_tantivy rows_entry) ≡ num_docs rows_entry)
    × (num_docs rows_entry + num_deleted_docs rows_entry ≡ rows_entry.header.max_doc)
unfolding num_deleted_docs new_mutable
as_tantivy-num_docs_example = as_tantivy-num_docs rows_entry (omega arith) (omega arith)

abbrev gone_entry : SegmentMetaEntry
gone_entry = set_xmax files_entry frozen_transaction_id

abbrev gone_later : SegmentMetaEntry
gone_later = record gone_entry { content = immutable (record files { delete = some new_deletes }) }

deletes_replaced :
    (old : Option SegmentMetaEntry) × (replace_deletes gone_entry new_deletes
      ≡ ok (gone_later, old))
unfolding replace_deletes new_immutable set_xmax
deletes_replaced = (_, refl)

deleted_stays_example :
    (visible gone_later ≡ false)
    × (is_mergeable (some 4) gone_later ≡ false)
    × (gone_later.header.segment_id ≡ gone_entry.header.segment_id)
    × (is_mutable gone_later ≡ is_mutable gone_entry)
unfolding visible is_deleted set_xmax
deleted_stays_example =
    deleted_stays (uniform 4) (some 4) gone_entry gone_later full_log full_log
      (next here (replaces_deletes new_deletes deletes_replaced.0 deletes_replaced.1)) refl

tag_from_u32_total_example :
    (tag_from_u32 1 ≡ some (if 1 == 1 then mutable_tag else immutable_tag))
    × ((tag : SegmentMetaEntryTag) → tag_from_u32 (tag_to_u32 tag) ≡ some tag)
tag_from_u32_total_example = tag_from_u32_total 1
