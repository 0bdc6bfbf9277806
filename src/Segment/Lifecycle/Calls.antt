-- ===== src/Segment/Lifecycle/Calls.antt =====
-- What a successful call does to an entry and its log: the calls of pg_search/src/postgres/storage/
-- block.rs that Lifecycle lists.
use mathlib.Core.Option
use paradedb.Common.{
  ℕ, ◌+◌, ◌%◌, ◌≡◌, refl, sym, ◌∙◌, ◌⊎◌, inl, inr, Bool-cases, false, Option, none, some, List, [],
  ◌∷◌, ◌++◌, map, length, ok, arith,
}
use paradedb.Xid.{u32_mod}
use paradedb.LinkedItems.{Page, list, push_item, add_items_at, add_items}
use paradedb.LinkedItems.Append.{at_room, at_next, at_new}
use paradedb.Segment.Data.{
  SegmentMetaEntry, SegmentMetaEntryMutable, SegmentMetaEntryImmutable, SegmentMetaEntryContent,
  MutableSegmentEntry, DeleteEntry, immutable, mutable_content, remove_entry,
}
use paradedb.Segment.Mutable.{
  Log, Room, u32_of_len, freeze_at, mutable_add_items, mutable_delete_items,
}
use paradedb.Segment.Meta.{replace_deletes}

pub content-cases :
    (x : SegmentMetaEntryContent)
    → ((c : SegmentMetaEntryImmutable) × (x ≡ immutable c))
      ⊎ ((c : SegmentMetaEntryMutable) × (x ≡ mutable_content c))
content-cases (immutable c) = inl (c, refl)
content-cases (mutable_content c) = inr (c, refl)

module _ (room : Room) (supply : List ℕ) (e e' : SegmentMetaEntry) (pages pages' : Log) where
  pub add-on_immutable :
      (rows : Option ℕ) (items : List MutableSegmentEntry) (c : SegmentMetaEntryImmutable)
      → e.content ≡ immutable c
      → mutable_add_items room supply rows e items pages ≡ ok (e', pages')
      → ⊥
  unfolding mutable_add_items u32_of_len
  add-on_immutable rows items c h r = ground arith

  pub add-result :
      (rows : Option ℕ) (items : List MutableSegmentEntry) (c : SegmentMetaEntryMutable)
      → e.content ≡ mutable_content c
      → mutable_add_items room supply rows e items pages ≡ ok (e', pages')
      → (c.frozen ≡ false)
        × (e' ≡ record {
          header = record (e.header) { max_doc = (e.header.max_doc + length items) % u32_mod };
          content =
              mutable_content (freeze_at ((e.header.max_doc + length items) % u32_mod) rows c);
        })
  unfolding mutable_add_items u32_of_len
  add-result rows items c h r = ground arith

  pub delete-on_immutable :
      (ctids : List ℕ) (c : SegmentMetaEntryImmutable)
      → e.content ≡ immutable c
      → mutable_delete_items room supply e ctids pages ≡ ok (e', pages')
      → ⊥
  unfolding mutable_delete_items
  delete-on_immutable ctids c h r = ground arith

  pub delete-result :
      (ctids : List ℕ) (c : SegmentMetaEntryMutable)
      → e.content ≡ mutable_content c
      → mutable_delete_items room supply e ctids pages ≡ ok (e', pages')
      → (add_items room supply (map remove_entry ctids) pages ≡ some pages')
        × (e' ≡ record e {
          content = mutable_content (record c {
            num_deleted_docs = (c.num_deleted_docs + length (map remove_entry ctids)) % u32_mod;
          });
        })
  unfolding mutable_delete_items u32_of_len
  delete-result ctids c h r = ground arith

pub replace-result :
    (e e' : SegmentMetaEntry) (d : DeleteEntry) (old : Option SegmentMetaEntry)
    (c : SegmentMetaEntryImmutable)
    → e.content ≡ immutable c
    → replace_deletes e d ≡ ok (e', old)
    → e' ≡ record e { content = immutable (record c { delete = some d }) }
unfolding replace_deletes
replace-result e e' d old c h r = ground arith

pub replace-on_mutable :
    (e e' : SegmentMetaEntry) (d : DeleteEntry) (old : Option SegmentMetaEntry)
    (c : SegmentMetaEntryMutable)
    → e.content ≡ mutable_content c
    → replace_deletes e d ≡ ok (e', old)
    → ⊥
unfolding replace_deletes
replace-on_mutable e e' d old c h r = ground arith

map-some :
    (p : Page MutableSegmentEntry) (o : Option Log) (after : Log)
    → Option.map (λ qs. p ∷ qs) o ≡ some after
    → (qs : Log) × (o ≡ some qs) × (after ≡ p ∷ qs)
map-some p none after h = absurd (ground (arith, h))
map-some p (some qs) after h = (qs, refl, ground (arith, h))

no_block :
    (room : Room) (x : MutableSegmentEntry) (items : List MutableSegmentEntry)
    (p : Page MutableSegmentEntry)
    → room p.items x ≡ false
    → add_items_at room [] (x ∷ items) p [] ≡ none
unfolding add_items_at
no_block room x items p h = rw (h, add_items_at)

no_room :
    (room : Room) (b : ℕ) (supply : List ℕ) (x : MutableSegmentEntry)
    (items : List MutableSegmentEntry) (p : Page MutableSegmentEntry)
    → room p.items x ≡ false
    → room [] x ≡ false
    → add_items_at room (b ∷ supply) (x ∷ items) p [] ≡ none
unfolding add_items_at
no_room room b supply x items p h k = rw (h, add_items_at) (rw (k, add_items_at))

none-some : (o : Option Log) (after : Log) → o ≡ none → o ≡ some after → ⊥
none-some o after h k = ground (arith, h, k)

-- add_items puts each item on some page once and moves nothing, if it returns: a count that adds up
-- over lists grows by the count of the items.
module _ (count : List MutableSegmentEntry → ℕ)
    (count-append : (xs ys : List MutableSegmentEntry) → count (xs ++ ys) ≡ count xs + count ys)
    (room : Room) where
  count-push_item :
      (p : Page MutableSegmentEntry) (ps : Log) (x : MutableSegmentEntry)
      → count (list (push_item p x ∷ ps)) ≡ count (list (p ∷ ps)) + count (x ∷ [])
  unfolding list
  count-push_item p ps x = omega (
    arith,
    count-append (p.items ++ x ∷ []) (list ps),
    count-append p.items (x ∷ []),
    count-append p.items (list ps),
  )

  count-page :
      (p : Page MutableSegmentEntry) (ps : Log)
      → count (list (p ∷ ps)) ≡ count p.items + count (list ps)
  unfolding list
  count-page p ps = count-append p.items (list ps)

  -- The item goes to this page, and the others follow.
  on_page :
      (p : Page MutableSegmentEntry) (ps after : Log) (x : MutableSegmentEntry)
      (items : List MutableSegmentEntry)
      → count (list after) ≡ count (list (push_item p x ∷ ps)) + count items
      → count (list after) ≡ count (list (p ∷ ps)) + count (x ∷ items)
  on_page p ps after x items h =
      omega (arith, h, count-push_item p ps x, count-append (x ∷ []) items)

  -- The items go to the pages behind this one.
  behind :
      (p : Page MutableSegmentEntry) (ps qs after : Log) (items : List MutableSegmentEntry)
      → after ≡ p ∷ qs
      → count (list qs) ≡ count (list ps) + count items
      → count (list after) ≡ count (list (p ∷ ps)) + count items
  behind p ps qs after items same h = rw same (omega (arith, h, count-page p ps, count-page p qs))

  on_new_page :
      (b : ℕ) (p : Page MutableSegmentEntry) (qs after : Log) (x : MutableSegmentEntry)
      (items : List MutableSegmentEntry)
      → after ≡ p ∷ qs
      → count (list qs) ≡ count (list (record { blockno = b; items = x ∷ [] } ∷ [])) + count items
      → count (list after) ≡ count (list (p ∷ [])) + count (x ∷ items)
  unfolding list
  on_new_page b p qs after x items same h = rw same (
      omega (
        arith,
        h,
        count-page p qs,
        count-page p [],
        count-page (record { blockno = b; items = x ∷ [] }) [],
        count-append [] [],
        count-append (x ∷ []) items,
      ))

  count-add_items_at :
      (supply : List ℕ) (items : List MutableSegmentEntry) (p : Page MutableSegmentEntry)
      (ps after : Log)
      → add_items_at room supply items p ps ≡ some after
      → count (list after) ≡ count (list (p ∷ ps)) + count items
  count-add_items_at supply [] p ps after r =
      let same : after ≡ p ∷ ps = unfold add_items_at in ground (arith, r) in
      rw same (omega (arith, count-append [] []))
  count-add_items_at [] (x ∷ items) p [] after r = elim (Bool-cases (room p.items x)) [
    | inl fits ↦ on_page p [] after x items (
        count-add_items_at [] items (push_item p x) [] after
          (sym (at_room room [] x items p [] fits) ∙ r))
    | inr full ↦ absurd (none-some _ after (no_block room x items p full) r)
  ]
  count-add_items_at (b ∷ supply) (x ∷ items) p [] after r = elim (Bool-cases (room p.items x)) [
    | inl fits ↦ on_page p [] after x items (
        count-add_items_at (b ∷ supply) items (push_item p x) [] after
          (sym (at_room room (b ∷ supply) x items p [] fits) ∙ r))
    | inr full ↦ elim (Bool-cases (room [] x)) [
      | inr never ↦ absurd (none-some _ after (no_room room b supply x items p full never) r)
      | inl fits ↦
          let (qs, run, same) =
            map-some p _ after (sym (at_new room b supply x items p full fits) ∙ r) in
          on_new_page b p qs after x items same
            (count-add_items_at supply items (record { blockno = b; items = x ∷ [] }) [] qs run)
    ]
  ]
  count-add_items_at supply (x ∷ items) p (q ∷ ps) after r = elim (Bool-cases (room p.items x)) [
    | inl fits ↦ on_page p (q ∷ ps) after x items (
        count-add_items_at supply items (push_item p x) (q ∷ ps) after
          (sym (at_room room supply x items p (q ∷ ps) fits) ∙ r))
    | inr full ↦
        let (qs, run, same) =
          map-some p _ after (sym (at_next room supply x items p q ps full) ∙ r) in
        behind p (q ∷ ps) qs after (x ∷ items) same
          (count-add_items_at supply (x ∷ items) q ps qs run)
  ]

  pub count-add_items :
      (supply : List ℕ) (items : List MutableSegmentEntry) (pages after : Log)
      → add_items room supply items pages ≡ some after
      → count (list after) ≡ count (list pages) + count items
  unfolding add_items
  count-add_items supply items [] after r = absurd (ground arith)
  count-add_items supply items (p ∷ ps) after r = count-add_items_at supply items p ps after r
