-- ===== src/Segment/Mutable/Snapshot.antt =====
-- A snapshot of a mutable segment sees the log as it was when its entry was read.
use paradedb.Common.{
  ℕ, ◌+◌, ◌-◌, ◌%◌, ◌<◌, ◌≡◌, refl, ap, ◌∙◌, true, false, List, [], ◌∷◌, ◌++◌, length, take-append,
  contains, ◌==◌, arith, ok,
}
use paradedb.Xid.{u32_mod}
use paradedb.LinkedItems.{list}
use paradedb.Segment.Data.{
  SegmentMetaEntry, SegmentMetaEntryMutable, MutableSegmentEntry, mutable_content, add,
  remove_entry,
}
use paradedb.Segment.Mutable.{Log, set_insert, set_remove, replay, mutable_snapshot}
use paradedb.Segment.Mutable.Sets.{
  adds, removes, live_after, IsConsistent, IsIncreasing, contains-set_insert, contains-set_remove,
  set_insert-IsIncreasing, set_remove-IsIncreasing, length-set_insert, length-set_remove,
}

pub replay-IsIncreasing :
    (log : List MutableSegmentEntry) (s : List ℕ) → IsIncreasing s → IsIncreasing (replay log s)
unfolding replay
replay-IsIncreasing [] s h = h
replay-IsIncreasing (add x ∷ log) s h = replay-IsIncreasing log _ (set_insert-IsIncreasing x s h)
replay-IsIncreasing (remove_entry x ∷ log) s h =
    replay-IsIncreasing log _ (set_remove-IsIncreasing x s h)

pub contains-replay :
    (log : List MutableSegmentEntry) (s : List ℕ) (x : ℕ)
    → IsIncreasing s
    → contains x (replay log s) ≡ live_after log x (contains x s)
unfolding replay
contains-replay [] s x h = refl
contains-replay (add y ∷ log) s x h =
    contains-replay log (set_insert y s) x (set_insert-IsIncreasing y s h)
    ∙ ap (live_after log x) (contains-set_insert x y s)
contains-replay (remove_entry y ∷ log) s x h =
    contains-replay log (set_remove y s) x (set_remove-IsIncreasing y s h)
    ∙ ap (live_after log x) (contains-set_remove x y s h)

length-replay :
    (log : List MutableSegmentEntry) (s : List ℕ)
    → IsConsistent log s
    → length (replay log s) + removes log ≡ length s + adds log
unfolding replay
length-replay [] s h = omega arith
length-replay (add x ∷ log) s h =
    omega (arith, length-replay log (set_insert x s) h.1, length-set_insert x s h.0)
length-replay (remove_entry x ∷ log) s h =
    omega (arith, length-replay log (set_remove x s) h.1, length-set_remove x s h.0)

pub length_log : (log : List MutableSegmentEntry) → length log ≡ adds log + removes log
length_log [] = omega arith
length_log (add x ∷ log) = omega (arith, length_log log)
length_log (remove_entry x ∷ log) = omega (arith, length_log log)

-- The entry of a mutable segment counts the entries of its log.
pub record IsLogged (e : SegmentMetaEntry) (c : SegmentMetaEntryMutable)
    (log : List MutableSegmentEntry) : Type 0 where
  pub content : e.content ≡ mutable_content c
  pub max_doc : e.header.max_doc ≡ adds log
  pub deleted : c.num_deleted_docs ≡ removes log
  pub consistent : IsConsistent log []
  pub fits : adds log < u32_mod

-- Let an entry of a mutable segment count the entries of a log that adds only rows which are not
-- live and removes only live ones. Whatever was logged since, and is found behind that log on the
-- pages now, a snapshot by that entry does not panic, and returns in increasing order exactly the
-- rows whose last mention in the log as it was then is an add.
pub mutable_snapshot_stable :
    (e : SegmentMetaEntry) (c : SegmentMetaEntryMutable) (log later : List MutableSegmentEntry)
    (pages : Log)
    → IsLogged e c log
    → list pages ≡ log ++ later
    → (mutable_snapshot e pages ≡ ok (replay log []))
      × IsIncreasing (replay log [])
      × ((ctid : ℕ) → contains ctid (replay log []) ≡ live_after log ctid false)
unfolding mutable_snapshot
mutable_snapshot_stable e c log later pages h l = (
  rw (h.content, mutable_snapshot) (rw (l, take-append _ log later prefix, agree)),
  replay-IsIncreasing log [] tt,
  λ ctid. contains-replay log [] ctid tt,
)
  where
    prefix : e.header.max_doc + c.num_deleted_docs ≡ length log
    prefix = omega (arith, length_log log, h.max_doc, h.deleted)

    agree :
        (length (replay log []) == (e.header.max_doc + u32_mod - c.num_deleted_docs) % u32_mod)
        ≡ true
    agree = ground (arith, length-replay log [] h.consistent, h.max_doc, h.deleted, h.fits)
