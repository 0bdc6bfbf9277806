-- ===== src/Segment/Meta/Laws.antt =====
-- What the entry of a segment promises to readers, to the merger and to the garbage collector.
use mathlib.Core.List.{flat_map, append-nil, append_assoc}
use paradedb.Common.{
  ℕ, ◌+◌, ◌-◌, ◌≤◌, ◌<◌, ◌≡◌, refl, ap, ◌∙◌, true, false, Option, none, some, List, [], ◌∷◌, ◌++◌,
  is_some, if◌then◌else◌, ok, panic, arith,
}
use paradedb.Xid.{frozen_transaction_id, u32_mod}
use paradedb.Segment.Data.{
  FileEntry, DeleteEntry, SegmentComponent, delete_file, SegmentMetaEntry,
  SegmentMetaEntryImmutable, immutable, new_immutable, is_mutable, is_deleted, is_orphaned_delete,
  num_deleted_docs,
}
use paradedb.Segment.Meta.{
  file_entries, entry_of, file_of, visible, num_docs, as_tantivy, InnerSegmentMeta, replace_deletes,
  bytes_of, byte_size, freeable_blocks,
}

-- The live documents that tantivy sees: the largest document number less the deletes it is told.
abbrev pub tantivy_docs : InnerSegmentMeta → ℕ
tantivy_docs m = m.max_doc - elim m.deletes [ none ↦ 0 | some d ↦ d ]

-- For an entry whose deletes do not exceed its documents, tantivy sees as many live documents as
-- the entry reports, whether the deletes are in a delete file or, for a mutable segment, are taken
-- off the largest document number.
pub as_tantivy-num_docs :
    (e : SegmentMetaEntry)
    → num_deleted_docs e ≤ e.header.max_doc
    → e.header.max_doc < u32_mod
    → (tantivy_docs (as_tantivy e) ≡ num_docs e)
      × (num_docs e + num_deleted_docs e ≡ e.header.max_doc)
unfolding as_tantivy num_docs num_deleted_docs
as_tantivy-num_docs e h b = (ground arith, ground arith)

abbrev without_delete : SegmentMetaEntryImmutable → SegmentMetaEntryImmutable
without_delete c = record c { delete = none }

file_entries-delete :
    (c : SegmentMetaEntryImmutable)
    → file_entries c ≡ file_entries (without_delete c) ++ entry_of delete_file (file_of c.delete)
unfolding file_entries
file_entries-delete c = simp (append-nil, append_assoc)

flat_map-append {ℓ κ} :
    {A : Type ℓ} {B : Type κ} (f : A → List B) (xs ys : List A)
    → flat_map f (xs ++ ys) ≡ flat_map f xs ++ flat_map f ys
unfolding flat_map
flat_map-append f [] ys = refl
flat_map-append f (x ∷ xs) ys = simp (flat_map-append f xs ys, append_assoc)

module _ (bytes_blocks items_blocks : ℕ → List ℕ) where
  abbrev file_blocks : FileEntry × SegmentComponent → List ℕ
  file_blocks f = bytes_blocks (f.0).starting_block

  abbrev pub delete_blocks : Option DeleteEntry → List ℕ
  delete_blocks none = []
  delete_blocks (some d) = bytes_blocks (d.file_entry).starting_block

  delete_part :
      (d : Option DeleteEntry)
      → flat_map file_blocks (entry_of delete_file (file_of d)) ≡ delete_blocks d
  unfolding flat_map
  delete_part none = refl
  delete_part (some d) = append-nil _

  freeable_blocks-immutable :
      (e : SegmentMetaEntry) (c : SegmentMetaEntryImmutable)
      → e.content ≡ immutable c
      → is_orphaned_delete e ≡ false
      → freeable_blocks bytes_blocks items_blocks e
        ≡ ok (flat_map file_blocks (file_entries (without_delete c)) ++ delete_blocks c.delete)
  unfolding freeable_blocks flat_map
  freeable_blocks-immutable e c h i =
      let step : freeable_blocks bytes_blocks items_blocks e
          ≡ ok (flat_map file_blocks (file_entries c)) =
        rw (h, freeable_blocks) (rw i) in
      step
      ∙ ap ok (
          ap (flat_map file_blocks) (file_entries-delete c)
          ∙ flat_map-append file_blocks (file_entries (without_delete c)) _
          ∙ ap (λ t. flat_map file_blocks (file_entries (without_delete c)) ++ t)
              (delete_part c.delete))

  -- Replacing the deletes of an immutable entry, whose id is not the all-zero one, loses no block
  -- and frees none twice: the blocks of the other files stay as they are, the new entry frees the
  -- blocks of the new delete file behind them, and if there was an old delete file, a second entry
  -- comes back that is invisible and frees exactly the blocks of that file.
  pub freeable_blocks-replace_deletes :
      (e : SegmentMetaEntry) (c : SegmentMetaEntryImmutable) (d : DeleteEntry)
      → e.content ≡ immutable c
      → is_orphaned_delete e ≡ false
      → (e' : SegmentMetaEntry) × (old : Option SegmentMetaEntry) × (others : List ℕ)
        × (replace_deletes e d ≡ ok (e', old))
        × (freeable_blocks bytes_blocks items_blocks e ≡ ok (others ++ delete_blocks c.delete))
        × (freeable_blocks bytes_blocks items_blocks e'
            ≡ ok (others ++ bytes_blocks (d.file_entry).starting_block))
        × (c.delete ≡ none → old ≡ none)
        × ((o : DeleteEntry)
            → c.delete ≡ some o
            → (fake : SegmentMetaEntry) × (old ≡ some fake)
              × (visible fake ≡ false)
              × (freeable_blocks bytes_blocks items_blocks fake
                  ≡ ok (bytes_blocks (o.file_entry).starting_block)))
  unfolding replace_deletes
  freeable_blocks-replace_deletes e c d h i = (
    record e { content = immutable (record c { delete = some d }) },
    (if is_some c.delete
        then some (new_immutable 0 e.header.max_doc frozen_transaction_id c)
        else none),
    flat_map file_blocks (file_entries (without_delete c)),
    ground arith,
    freeable_blocks-immutable e c h i,
    freeable_blocks-immutable (record e { content = immutable (record c { delete = some d }) })
        (record c { delete = some d }) refl (unfold is_orphaned_delete in i),
    λ n. rw n,
    λ o s. (
      new_immutable 0 e.header.max_doc frozen_transaction_id c,
      rw s,
      unfold visible is_deleted new_immutable in refl,
      unfold freeable_blocks is_orphaned_delete new_immutable in rw s,
    ),
  )

-- Replacing the deletes of an immutable entry exchanges the size of the old delete file for that of
-- the new one and the count of deleted documents for the new count, and keeps the header. On a
-- mutable entry the call panics.
pub byte_size-replace_deletes :
    (e : SegmentMetaEntry) (d : DeleteEntry)
    → ((c : SegmentMetaEntryImmutable)
        → e.content ≡ immutable c
        → (e' : SegmentMetaEntry) × (old : Option SegmentMetaEntry) × (replace_deletes e d
            ≡ ok (e', old))
          × (byte_size e' + bytes_of (file_of c.delete) ≡ byte_size e + d.file_entry.total_bytes)
          × (e'.header ≡ e.header)
          × (num_deleted_docs e' ≡ d.num_deleted_docs))
      × (is_mutable e ≡ true → replace_deletes e d ≡ panic)
unfolding replace_deletes byte_size is_mutable num_deleted_docs
byte_size-replace_deletes e d = (
  λ c h. (
    record e { content = immutable (record c { delete = some d }) },
    (if is_some c.delete
        then some (new_immutable 0 e.header.max_doc frozen_transaction_id c)
        else none),
    ground arith,
    rw (h, byte_size) (omega arith),
    refl,
    refl,
  ),
  λ m. ground arith,
)
