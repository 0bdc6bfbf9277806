-- ===== src/Segment/Lifecycle/Frozen.antt =====
-- A frozen mutable segment: mutable_add_items and mutable_delete_items of
-- pg_search/src/postgres/storage/block.rs, over any number of calls.
use paradedb.Common.{
  ℕ, ◌+◌, ◌%◌, ◌<◌, ◌≡◌, refl, ◌∙◌, ap, true, false, Option, List, map, length, ok, err, arith,
}
use paradedb.Xid.{u32_mod}
use paradedb.LinkedItems.{list}
use paradedb.Segment.Data.{
  SegmentMetaEntry, SegmentMetaEntryMutable, MutableSegmentEntry, mutable_content, remove_entry,
  set_xmax,
}
use paradedb.Segment.Mutable.{Log, Room, u32_of_len, mutable_add_items, mutable_delete_items}
use paradedb.Segment.Mutable.Sets.{adds, removes}
use paradedb.Segment.Mutable.Writes.{adds-append, removes-append, removes_of_removes, length-map}
use paradedb.Segment.Lifecycle.{
  Step, adds_items, deletes_items, replaces_deletes, marks_deleted, Reaches, here, next,
}
use paradedb.Segment.Lifecycle.Calls.{
  add-result, delete-result, replace-on_mutable, count-add_items,
}

-- A frozen mutable entry with its log, `removed` removals after another.
pub record IsFrozenAfter (e : SegmentMetaEntry) (c : SegmentMetaEntryMutable) (pages : Log)
    (removed : ℕ) (e' : SegmentMetaEntry) (c' : SegmentMetaEntryMutable) (pages' : Log)
    : Type 0 where
  pub content : e'.content ≡ mutable_content c'
  pub frozen : c'.frozen ≡ true
  pub header_block : c'.header_block ≡ c.header_block
  pub segment_id : e'.header.segment_id ≡ e.header.segment_id
  pub max_doc : e'.header.max_doc ≡ e.header.max_doc
  pub deleted : c'.num_deleted_docs ≡ (c.num_deleted_docs + removed) % u32_mod
  pub adds_kept : adds (list pages') ≡ adds (list pages)
  pub removes_grown : removes (list pages') ≡ removes (list pages) + removed

module _ (room : Room) (rows : Option ℕ) where
  After : SegmentMetaEntry → SegmentMetaEntryMutable → Log → SegmentMetaEntry → Log → Type 0
  After e c pages e' pages' =
      (c' : SegmentMetaEntryMutable) × (removed : ℕ) × IsFrozenAfter e c pages removed e' c' pages'

  delete-After :
      (e e1 e2 : SegmentMetaEntry) (c : SegmentMetaEntryMutable) (pages pages1 pages2 : Log)
      (supply ctids : List ℕ)
      → After e c pages e1 pages1
      → mutable_delete_items room supply e1 ctids pages1 ≡ ok (e2, pages2)
      → After e c pages e2 pages2
  unfolding After
  delete-After e e1 e2 c pages pages1 pages2 supply ctids (c1, n, a) r =
      let (added, same) = delete-result room supply e1 e2 pages1 pages2 ctids c1 a.content r in
      let items = map remove_entry ctids in
      let more_adds = count-add_items adds adds-append room supply items pages1 pages2 added in
      let more_removes =
        count-add_items removes removes-append room supply items pages1 pages2 added in
      let counted = removes_of_removes ctids in
      let len = length-map remove_entry ctids in
      (
        record c1 { num_deleted_docs = (c1.num_deleted_docs + length items) % u32_mod },
        n + length ctids,
        record {
          content = ap (λ x. x.content) same;
          frozen = a.frozen;
          header_block = a.header_block;
          segment_id = ap (λ x. x.header.segment_id) same ∙ a.segment_id;
          max_doc = ap (λ x. x.header.max_doc) same ∙ a.max_doc;
          deleted = omega (arith, len, a.deleted);
          adds_kept = omega (arith, more_adds, counted.0, a.adds_kept);
          removes_grown = omega (arith, more_removes, counted.1, a.removes_grown);
        },
      )

  true≢false : true ≡ false → ⊥
  true≢false h = ground (arith, h)

  Step-After :
      {e1 : SegmentMetaEntry} {pages1 : Log} {e2 : SegmentMetaEntry} {pages2 : Log}
      (e : SegmentMetaEntry) (c : SegmentMetaEntryMutable) (pages : Log)
      → After e c pages e1 pages1
      → Step room rows e1 pages1 e2 pages2
      → After e c pages e2 pages2
  unfolding After set_xmax
  Step-After {e1} {pages1} {e2} {pages2} e c pages (c1, n, a) (adds_items supply items r) = absurd (
      ground
        (arith, a.frozen, (add-result room supply e1 e2 pages1 pages2 rows items c1 a.content r).0))
  Step-After {e1} {pages1} {e2} {pages2} e c pages before (deletes_items supply ctids r) =
      delete-After e e1 e2 c pages pages1 pages2 supply ctids before r
  Step-After {e1} {pages1} {e2} e c pages (c1, n, a) (replaces_deletes d old r) =
      absurd (replace-on_mutable e1 e2 d old c1 a.content r)
  Step-After e c pages (c1, n, a) marks_deleted = (
    c1,
    n,
    record {
      content = a.content;
      frozen = a.frozen;
      header_block = a.header_block;
      segment_id = a.segment_id;
      max_doc = a.max_doc;
      deleted = a.deleted;
      adds_kept = a.adds_kept;
      removes_grown = a.removes_grown;
    },
  )

  Reaches-After :
      {e : SegmentMetaEntry} {pages : Log} {e' : SegmentMetaEntry} {pages' : Log}
      (c : SegmentMetaEntryMutable)
      → e.content ≡ mutable_content c
      → c.frozen ≡ true
      → c.num_deleted_docs < u32_mod
      → Reaches room rows e pages e' pages'
      → After e c pages e' pages'
  unfolding After
  Reaches-After c h f fits here = (
    c,
    0,
    record {
      content = h;
      frozen = f;
      header_block = refl;
      segment_id = refl;
      max_doc = refl;
      deleted = omega arith;
      adds_kept = refl;
      removes_grown = omega arith;
    },
  )
  Reaches-After {e} {pages} c h f fits (next run s) =
      Step-After e c pages (Reaches-After c h f fits run) s

  add-err :
      (supply : List ℕ) (e : SegmentMetaEntry) (c : SegmentMetaEntryMutable)
      (items : List MutableSegmentEntry) (pages : Log)
      → e.content ≡ mutable_content c
      → c.frozen ≡ true
      → length items < u32_mod
      → mutable_add_items room supply rows e items pages ≡ err
  unfolding mutable_add_items u32_of_len
  add-err supply e c items pages h f fits = ground arith

  -- A frozen mutable segment stays frozen, whatever successful calls follow, in any order and number,
  -- and takes no row again: a further mutable_add_items is an `Err`. It keeps its id, its log's first
  -- block and its document count; its log has the same number of added rows, and the deletes it counts
  -- grow (on 32 bits) by exactly the removals that came into the log. Fewer than 2^32 items are added
  -- at once, and the count of deletes is a `u32`.
  pub frozen_stays :
      (e e' : SegmentMetaEntry) (c : SegmentMetaEntryMutable) (pages pages' : Log) (supply : List ℕ)
      (items : List MutableSegmentEntry)
      → e.content ≡ mutable_content c
      → c.frozen ≡ true
      → c.num_deleted_docs < u32_mod
      → length items < u32_mod
      → Reaches room rows e pages e' pages'
      → (c' : SegmentMetaEntryMutable) × (removed : ℕ) × IsFrozenAfter e c pages removed e' c'
          pages'
        × (mutable_add_items room supply rows e' items pages' ≡ err)
  unfolding After
  frozen_stays e e' c pages pages' supply items h f fits few run =
      let (c', n, a) = Reaches-After c h f fits run in
      (c', n, a, add-err supply e' c' items pages' a.content a.frozen few)
