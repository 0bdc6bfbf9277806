-- ===== src/Segment/Meta.antt =====
-- Reading and changing the entry of a segment: the rest of SegmentMetaEntry, and its MVCC methods,
-- in pg_search/src/postgres/storage/block.rs. What a `LinkedBytesList` or a `LinkedItemList` frees
-- is a parameter, a function from the block it starts at; so is whether a page is free of pins.
pub mod Laws
use mathlib.Core.List.{flat_map}
use paradedb.Common.{
  ℕ, ◌+◌, ◌-◌, ◌*◌, ◌%◌, Bool, true, false, not, ◌&&◌, ◌||◌, Option, none, some, List, [], ◌∷◌,
  ◌++◌, map, leb, ltb, ◌==◌, if◌then◌else◌, is_some, Outcome, ok, err, panic, ◌>>=◌,
}
use paradedb.Xid.{frozen_transaction_id, u32_mod}
use paradedb.Segment.Data.{
  FileEntry, DeleteEntry, SegmentMetaEntry, SegmentMetaEntryImmutable, SegmentMetaEntryContent,
  SegmentComponent, postings_file, positions_file, fast_fields_file, field_norms_file, terms_file,
  temp_store_file, delete_file, immutable, mutable_content, new_immutable, is_deleted,
  is_orphaned_delete, num_deleted_docs,
}

abbrev pub invalid_block_number : ℕ
invalid_block_number = 4294967295

-- option.iter().map(|fe| (fe, component))
abbrev pub entry_of : SegmentComponent → Option FileEntry → List (FileEntry × SegmentComponent)
entry_of component none = []
entry_of component (some fe) = (fe, component) ∷ []

abbrev pub file_of : Option DeleteEntry → Option FileEntry
file_of none = none
file_of (some d) = some d.file_entry

-- file_entries: every file but the document store, which has no blocks.
unfoldable pub file_entries : SegmentMetaEntryImmutable → List (FileEntry × SegmentComponent)
file_entries c =
    entry_of postings_file c.postings
    ++ (entry_of positions_file c.positions
        ++ (entry_of fast_fields_file c.fast_fields
            ++ (entry_of field_norms_file c.field_norms
                ++ (entry_of terms_file c.terms
                    ++ (entry_of temp_store_file c.temp_store
                        ++ entry_of delete_file (file_of c.delete))))))

-- The page whose pins tell that a reader still uses the segment.
unfoldable pub pintest_blockno : SegmentMetaEntry → Outcome ℕ
unfolding file_entries
pintest_blockno e = elim e.content [
  | immutable c ↦ elim (file_entries c) [ [] ↦ panic | x ∷ xs ↦ ok (x.0).starting_block ]
  | mutable_content c ↦ ok c.header_block
]

unfoldable pub visible : SegmentMetaEntry → Bool
visible e = not (is_deleted e)

-- `unpinned` is get_buffer_for_cleanup_conditional(..).is_some().
unfoldable pub recyclable : (ℕ → Bool) → SegmentMetaEntry → Outcome Bool
unfolding pintest_blockno
recyclable unpinned e =
    if is_deleted e
    then pintest_blockno e >>= (λ b. ok (b == invalid_block_number || unpinned b))
    else ok false

-- `mutable_segment_rows` is the index option.
unfoldable pub is_mergeable : Option ℕ → SegmentMetaEntry → Bool
is_mergeable mutable_segment_rows e = not (is_deleted e) && elim e.content [
  | immutable c ↦ true
  | mutable_content c ↦ c.frozen || not (is_some mutable_segment_rows)
]

-- max_doc as usize - num_deleted_docs, on 64-bit words.
unfoldable pub num_docs : SegmentMetaEntry → ℕ
num_docs e = (e.header.max_doc + 18446744073709551616 - num_deleted_docs e) % 18446744073709551616

-- InnerSegmentMeta of tantivy: the id, the largest document number, and the deleted documents, if
-- the segment has a delete file.
pub record InnerSegmentMeta : Type 0 where
  pub segment_id : ℕ
  pub max_doc : ℕ
  pub deletes : Option ℕ

unfoldable pub as_tantivy : SegmentMetaEntry → InnerSegmentMeta
as_tantivy e = elim e.content [
  | immutable c ↦ record {
    segment_id = e.header.segment_id;
    max_doc = e.header.max_doc;
    deletes = elim c.delete [ none ↦ none | some d ↦ some d.num_deleted_docs ];
  }
  | mutable_content c ↦ record {
    segment_id = e.header.segment_id;
    max_doc = (e.header.max_doc + u32_mod - c.num_deleted_docs) % u32_mod;
    deletes = none;
  }
]

-- replace_deletes: the entry with the new delete file, and the entry that keeps the old one.
unfoldable pub replace_deletes :
    SegmentMetaEntry → DeleteEntry → Outcome (SegmentMetaEntry × Option SegmentMetaEntry)
replace_deletes e delete = elim e.content [
  | immutable c ↦ ok (
    record e { content = immutable (record c { delete = some delete }) },
    if is_some c.delete
        then some (new_immutable 0 e.header.max_doc frozen_transaction_id c)
        else none,
  )
  | mutable_content c ↦ panic
]

abbrev pub bytes_of : Option FileEntry → ℕ
bytes_of none = 0
bytes_of (some fe) = fe.total_bytes

unfoldable pub byte_size : SegmentMetaEntry → ℕ
byte_size e = elim e.content [
  | immutable c ↦
      bytes_of c.postings
      + bytes_of c.positions
      + bytes_of c.fast_fields
      + bytes_of c.field_norms
      + bytes_of c.terms
      + bytes_of c.store
      + bytes_of c.temp_store
      + bytes_of (file_of c.delete)
  | mutable_content c ↦ e.header.max_doc * 1000 + c.num_deleted_docs * 10
]

-- The components of get_component_paths, whose paths are named for them.
unfoldable pub component_paths : SegmentMetaEntry → List SegmentComponent
unfolding file_entries
component_paths e = elim e.content [
  | immutable c ↦ map (λ f. f.1) (file_entries c)
  | mutable_content c ↦ []
]

-- `bytes_blocks` and `items_blocks`: the blocks that the list starting at a block frees.
unfoldable pub freeable_blocks : (ℕ → List ℕ) → (ℕ → List ℕ) → SegmentMetaEntry → Outcome (List ℕ)
unfolding file_entries
freeable_blocks bytes_blocks items_blocks e = elim e.content [
  | immutable c ↦
      if is_orphaned_delete e
      then elim c.delete [ none ↦ panic | some d ↦ ok (bytes_blocks (d.file_entry).starting_block) ]
      else ok (flat_map (λ f. bytes_blocks (f.0).starting_block) (file_entries c))
  | mutable_content c ↦ ok (items_blocks c.header_block)
]
