-- ===== src/Segment/Lifecycle/Deleted.antt =====
-- What every call of SegmentMetaEntry (pg_search/src/postgres/storage/block.rs) keeps of a deleted
-- entry.
use paradedb.Common.{ℕ, ◌≡◌, refl, ◌∙◌, inl, inr, true, false, Option, List, ok, arith}
use paradedb.Segment.Data.{
  SegmentMetaEntry, MutableSegmentEntry, DeleteEntry, is_mutable, is_deleted, set_xmax,
}
use paradedb.Segment.Mutable.{Log, Room, mutable_add_items, mutable_delete_items}
use paradedb.Segment.Meta.{visible, is_mergeable, replace_deletes}
use paradedb.Segment.Lifecycle.{
  Step, adds_items, deletes_items, replaces_deletes, marks_deleted, Reaches, here, next,
}
use paradedb.Segment.Lifecycle.Calls.{
  content-cases, add-on_immutable, add-result, delete-on_immutable, delete-result, replace-result,
  replace-on_mutable,
}

-- What every call keeps.
record Keeps (e e' : SegmentMetaEntry) : Type 0 where
  id : e'.header.segment_id ≡ e.header.segment_id
  kind : is_mutable e' ≡ is_mutable e
  deletion : is_deleted e ≡ true → is_deleted e' ≡ true

add-Keeps :
    (room : Room) (rows : Option ℕ) (supply : List ℕ) (items : List MutableSegmentEntry)
    (e e' : SegmentMetaEntry) (pages pages' : Log)
    → mutable_add_items room supply rows e items pages ≡ ok (e', pages')
    → Keeps e e'
unfolding is_mutable is_deleted
add-Keeps room rows supply items e e' pages pages' r = elim (content-cases e.content) [
  | inl (c, h) ↦ absurd (add-on_immutable room supply e e' pages pages' rows items c h r)
  | inr (c, h) ↦
      let same = (add-result room supply e e' pages pages' rows items c h r).1 in
      record {
        id = ground (arith, same);
        kind = ground (arith, same, h);
        deletion = λ d. ground (arith, same, d);
      }
]

delete-Keeps :
    (room : Room) (supply ctids : List ℕ) (e e' : SegmentMetaEntry) (pages pages' : Log)
    → mutable_delete_items room supply e ctids pages ≡ ok (e', pages')
    → Keeps e e'
unfolding is_mutable is_deleted
delete-Keeps room supply ctids e e' pages pages' r = elim (content-cases e.content) [
  | inl (c, h) ↦ absurd (delete-on_immutable room supply e e' pages pages' ctids c h r)
  | inr (c, h) ↦
      let same = (delete-result room supply e e' pages pages' ctids c h r).1 in
      record {
        id = ground (arith, same);
        kind = ground (arith, same, h);
        deletion = λ d. ground (arith, same, d);
      }
]

replace-Keeps :
    (e e' : SegmentMetaEntry) (d : DeleteEntry) (old : Option SegmentMetaEntry)
    → replace_deletes e d ≡ ok (e', old)
    → Keeps e e'
unfolding is_mutable is_deleted
replace-Keeps e e' d old r = elim (content-cases e.content) [
  | inl (c, h) ↦
      let same = replace-result e e' d old c h r in
      record {
        id = ground (arith, same);
        kind = ground (arith, same, h);
        deletion = λ d. ground (arith, same, d);
      }
  | inr (c, h) ↦ absurd (replace-on_mutable e e' d old c h r)
]

module _ (room : Room) (rows : Option ℕ) where
  Step-Keeps :
      {e : SegmentMetaEntry} {pages : Log} {e' : SegmentMetaEntry} {pages' : Log}
      → Step room rows e pages e' pages'
      → Keeps e e'
  unfolding is_mutable is_deleted set_xmax
  Step-Keeps {e} {pages} {e'} {pages'} (adds_items supply items r) =
      add-Keeps room rows supply items e e' pages pages' r
  Step-Keeps {e} {pages} {e'} {pages'} (deletes_items supply ctids r) =
      delete-Keeps room supply ctids e e' pages pages' r
  Step-Keeps {e} {pages} {e'} (replaces_deletes d old r) = replace-Keeps e e' d old r
  Step-Keeps marks_deleted = record { id = refl; kind = refl; deletion = λ d. refl }

  Reaches-Keeps :
      {e : SegmentMetaEntry} {pages : Log} {e' : SegmentMetaEntry} {pages' : Log}
      → Reaches room rows e pages e' pages'
      → Keeps e e'
  Reaches-Keeps here = record { id = refl; kind = refl; deletion = λ d. d }
  Reaches-Keeps (next run s) =
      let k = Reaches-Keeps run in
      let m = Step-Keeps s in
      record { id = m.id ∙ k.id; kind = m.kind ∙ k.kind; deletion = λ d. m.deletion (k.deletion d) }

  -- An entry that readers do not see stays so, whatever successful calls follow, in any order and
  -- number: adds and deletes of rows, replaced deletes, and further marks of deletion with the frozen
  -- id. It is not mergeable after any of them, and it keeps its id and its kind.
  pub deleted_stays :
      (e e' : SegmentMetaEntry) (pages pages' : Log)
      → Reaches room rows e pages e' pages'
      → visible e ≡ false
      → (visible e' ≡ false)
        × (is_mergeable rows e' ≡ false)
        × (e'.header.segment_id ≡ e.header.segment_id)
        × (is_mutable e' ≡ is_mutable e)
  unfolding visible is_mergeable
  deleted_stays e e' pages pages' run h =
      let k = Reaches-Keeps run in
      let gone = k.deletion (ground (arith, h)) in
      (ground (arith, gone), ground (arith, gone), k.id, k.kind)
