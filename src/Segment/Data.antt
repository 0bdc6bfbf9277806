-- ===== src/Segment/Data.antt =====
-- The data types of pg_search/src/postgres/storage/block.rs.
use paradedb.Common.{ℕ, Bool, true, false, Option, ◌==◌}
use paradedb.Xid.{frozen_transaction_id}
use paradedb.Segment.Tag.{SegmentMetaEntryTag, mutable_tag, immutable_tag}

-- FileEntry: where a file starts.
pub record FileEntry : Type 0 where
  pub starting_block : ℕ
  pub total_bytes : ℕ

-- DeleteEntry: where a ".del" file starts.
pub record DeleteEntry : Type 0 where
  pub file_entry : FileEntry
  pub num_deleted_docs : ℕ

pub record SegmentMetaEntryMutable : Type 0 where
  pub header_block : ℕ
  pub num_deleted_docs : ℕ
  pub frozen : Bool

pub record SegmentMetaEntryImmutable : Type 0 where
  pub postings : Option FileEntry
  pub positions : Option FileEntry
  pub fast_fields : Option FileEntry
  pub field_norms : Option FileEntry
  pub terms : Option FileEntry
  pub store : Option FileEntry
  pub temp_store : Option FileEntry
  pub delete : Option DeleteEntry

pub data SegmentMetaEntryContent : Type 0 where
  immutable : SegmentMetaEntryImmutable → SegmentMetaEntryContent
  mutable_content : SegmentMetaEntryMutable → SegmentMetaEntryContent

pub record SegmentMetaEntryHeader : Type 0 where
  pub segment_id : ℕ
  pub max_doc : ℕ
  pub tag : SegmentMetaEntryTag
  pub xmax : ℕ

pub record SegmentMetaEntry : Type 0 where
  pub header : SegmentMetaEntryHeader
  pub content : SegmentMetaEntryContent

-- One entry of the log of a mutable segment; the number is a row pointer (ctid).
pub data MutableSegmentEntry : Type 0 where
  add remove_entry : ℕ → MutableSegmentEntry

-- SegmentComponent of tantivy, as far as this file names it.
pub data SegmentComponent : Type 0 where
  postings_file positions_file fast_fields_file field_norms_file : SegmentComponent
  terms_file temp_store_file delete_file : SegmentComponent

unfoldable pub new_mutable : ℕ → ℕ → ℕ → SegmentMetaEntryMutable → SegmentMetaEntry
new_mutable segment_id max_doc xmax content = record {
  header = record { segment_id = segment_id; max_doc = max_doc; tag = mutable_tag; xmax = xmax };
  content = mutable_content content;
}

unfoldable pub new_immutable : ℕ → ℕ → ℕ → SegmentMetaEntryImmutable → SegmentMetaEntry
new_immutable segment_id max_doc xmax content = record {
  header = record { segment_id = segment_id; max_doc = max_doc; tag = immutable_tag; xmax = xmax };
  content = immutable content;
}

unfoldable pub is_mutable : SegmentMetaEntry → Bool
is_mutable e = elim e.content [ immutable c ↦ false | mutable_content c ↦ true ]

unfoldable pub is_deleted : SegmentMetaEntry → Bool
is_deleted e = e.header.xmax == frozen_transaction_id

-- The id of sixteen zero bytes marks an entry that only keeps an old ".del" file.
unfoldable pub is_orphaned_delete : SegmentMetaEntry → Bool
is_orphaned_delete e = e.header.segment_id == 0

unfoldable pub set_xmax : SegmentMetaEntry → ℕ → SegmentMetaEntry
set_xmax e xmax = record e { header = record (e.header) { xmax = xmax } }

abbrev deleted_docs_of : Option DeleteEntry → ℕ
deleted_docs_of d = elim d [ Option.none ↦ 0 | Option.some entry ↦ entry.num_deleted_docs ]

unfoldable pub num_deleted_docs : SegmentMetaEntry → ℕ
num_deleted_docs e = elim e.content [
  | immutable c ↦ deleted_docs_of c.delete
  | mutable_content c ↦ c.num_deleted_docs
]
