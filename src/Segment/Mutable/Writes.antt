-- ===== src/Segment/Mutable/Writes.antt =====
-- What an add or a delete does to a mutable segment and its log.
use paradedb.Common.{
  ℕ, suc, ◌+◌, ◌≤◌, ◌<◌, ◌≡◌, refl, ap, ◌∙◌, false, Option, List, [], ◌∷◌, ◌++◌, map, length, leb,
  unwrap_or, arith, ok,
}
use paradedb.Xid.{u32_mod}
use paradedb.LinkedItems.{Page, list}
use paradedb.LinkedItems.Append.{uniform, IsPacked, list-add_items}
use paradedb.Segment.Data.{
  SegmentMetaEntry, SegmentMetaEntryMutable, MutableSegmentEntry, mutable_content, add,
  remove_entry,
}
use paradedb.Segment.Mutable.{Log, replay, freeze_at, mutable_add_items}
use paradedb.Segment.Mutable.Sets.{adds, removes, IsConsistent}
use paradedb.Segment.Mutable.Snapshot.{IsLogged}

pub adds-append : (xs ys : List MutableSegmentEntry) → adds (xs ++ ys) ≡ adds xs + adds ys
adds-append [] ys = omega arith
adds-append (add x ∷ xs) ys = omega (arith, adds-append xs ys)
adds-append (remove_entry x ∷ xs) ys = adds-append xs ys

pub removes-append :
    (xs ys : List MutableSegmentEntry) → removes (xs ++ ys) ≡ removes xs + removes ys
removes-append [] ys = omega arith
removes-append (add x ∷ xs) ys = removes-append xs ys
removes-append (remove_entry x ∷ xs) ys = omega (arith, removes-append xs ys)

adds_of_adds :
    (ctids : List ℕ) → (adds (map add ctids) ≡ length ctids) × (removes (map add ctids) ≡ 0)
adds_of_adds [] = (refl, refl)
adds_of_adds (x ∷ xs) = omega (arith, adds_of_adds xs)

pub removes_of_removes :
    (ctids : List ℕ)
    → (adds (map remove_entry ctids) ≡ 0) × (removes (map remove_entry ctids) ≡ length ctids)
removes_of_removes [] = (refl, refl)
removes_of_removes (x ∷ xs) = omega (arith, removes_of_removes xs)

pub length-map : (f : ℕ → MutableSegmentEntry) (xs : List ℕ) → length (map f xs) ≡ length xs
length-map f [] = refl
length-map f (x ∷ xs) = ap suc (length-map f xs)

IsConsistent-append :
    (log items : List MutableSegmentEntry) (s : List ℕ)
    → IsConsistent log s
    → IsConsistent items (replay log s)
    → IsConsistent (log ++ items) s
unfolding replay
IsConsistent-append [] items s h k = k
IsConsistent-append (add x ∷ log) items s h k = (h.0, IsConsistent-append log items _ h.1 k)
IsConsistent-append (remove_entry x ∷ log) items s h k =
    (h.0, IsConsistent-append log items _ h.1 k)

module _ (capacity : ℕ) (supply : List ℕ) (p : Page MutableSegmentEntry) (ps : Log) where
  -- An unfrozen mutable segment takes rows that are not live: the call succeeds, the log grows by
  -- exactly these adds at its end, the new entry counts the new log, so that a snapshot by it is
  -- right again, and it is frozen exactly when its rows reach the limit of the index option (a
  -- missing option counts as 0). Pages are packed, each with room for `capacity` entries, and the
  -- `u32` count of documents does not overflow.
  pub mutable_add_items-IsLogged :
      (rows : Option ℕ) (e : SegmentMetaEntry) (c : SegmentMetaEntryMutable) (ctids : List ℕ)
      → 0 < capacity
      → length ctids ≤ length supply
      → IsPacked capacity (p ∷ ps)
      → IsLogged e c (list (p ∷ ps))
      → c.frozen ≡ false
      → IsConsistent (map add ctids) (replay (list (p ∷ ps)) [])
      → e.header.max_doc + length ctids < u32_mod
      → (e' : SegmentMetaEntry) × (c' : SegmentMetaEntryMutable) × (after : Log)
        × (mutable_add_items (uniform capacity) supply rows e (map add ctids) (p ∷ ps)
            ≡ ok (e', after))
        × (list after ≡ list (p ∷ ps) ++ map add ctids)
        × IsPacked capacity after
        × IsLogged e' c' (list after)
        × (c'.frozen ≡ leb (unwrap_or 0 rows) (e.header.max_doc + length ctids))
  unfolding mutable_add_items freeze_at
  mutable_add_items-IsLogged rows e c ctids pos room packed h unfrozen new fits =
      let items = map add ctids in
      let (after, added, l, k) =
        list-add_items capacity supply items p ps pos (rw length-map room) packed in
      let new_max_doc = e.header.max_doc + length ctids in
      let c' = freeze_at new_max_doc rows c in
      let grown : adds (list (p ∷ ps) ++ items) ≡ adds (list (p ∷ ps)) + length ctids =
        adds-append (list (p ∷ ps)) items ∙ rw (adds_of_adds ctids).0 in
      let same_deleted : c'.num_deleted_docs ≡ c.num_deleted_docs = ground arith in
      let shrunk : removes (list (p ∷ ps) ++ items) ≡ removes (list (p ∷ ps)) =
        omega (arith, removes-append (list (p ∷ ps)) items, adds_of_adds ctids) in
      (
        record {
          header = record (e.header) { max_doc = new_max_doc };
          content = mutable_content c';
        },
        c',
        after,
        ground (arith, added, length-map add ctids, h.content),
        l,
        k,
        record {
          content = refl;
          max_doc = omega (arith, ap adds l, grown, h.max_doc);
          deleted = same_deleted ∙ omega (arith, ap removes l, shrunk, h.deleted);
          consistent = rw l (IsConsistent-append (list (p ∷ ps)) items [] h.consistent new);
          fits = omega (arith, ap adds l, grown, h.max_doc);
        },
        ground arith,
      )
