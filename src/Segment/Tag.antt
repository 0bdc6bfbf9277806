-- ===== src/Segment/Tag.antt =====
-- SegmentMetaEntryTag of pg_search/src/postgres/storage/block.rs: the word that once held a
-- transaction id tells mutable from immutable segments.
use paradedb.Common.{ℕ, ◌≡◌, ◌||◌, Option, none, some, arith, leb, ◌==◌, if◌then◌else◌}
use paradedb.Xid.{first_normal_transaction_id, invalid_transaction_id}

pub data SegmentMetaEntryTag : Type 0 where
  mutable_tag immutable_tag : SegmentMetaEntryTag

-- From<SegmentMetaEntryTag> for u32
unfoldable pub tag_to_u32 : SegmentMetaEntryTag → ℕ
tag_to_u32 mutable_tag = 1
tag_to_u32 immutable_tag = 2

-- From<u32> for SegmentMetaEntryTag; `none` is the panic.
unfoldable pub tag_from_u32 : ℕ → Option SegmentMetaEntryTag
tag_from_u32 value =
    if (value == 2 || value == invalid_transaction_id) || leb first_normal_transaction_id value
    then some immutable_tag
    else if value == 1
    then some mutable_tag
    else none

-- Every word decodes, so the panic is unreachable: to a mutable segment exactly when the word is
-- BootstrapTransactionId (1), so a word left by an older version, 0 or the id of a transaction,
-- is read as an immutable one. A tag that was written is read back.
pub tag_from_u32_total :
    (value : ℕ)
    → (tag_from_u32 value ≡ some (if value == 1 then mutable_tag else immutable_tag))
      × ((tag : SegmentMetaEntryTag) → tag_from_u32 (tag_to_u32 tag) ≡ some tag)
unfolding tag_from_u32 tag_to_u32
tag_from_u32_total value = (ground arith, λ tag. ground arith)
