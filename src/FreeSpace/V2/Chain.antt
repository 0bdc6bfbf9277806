-- ===== src/FreeSpace/V2/Chain.antt =====
-- extend_freelist on a chain of any length.
use paradedb.Common.{
  ℕ, ◌+◌, ◌≤◌, ◌<◌, ◌≡◌, refl, ◌∙◌, ap, some, List, [], ◌∷◌, ◌++◌, length, count, count-append,
  All-append, ◌==◌, Bool-cases, inl, inr, arith,
}
use paradedb.FreeSpace.V2.{
  AvlLeaf, fill_leaf, put_before, extend_last, link_between, extend_freelist,
}
use paradedb.FreeSpace.V2.Fill.{fill_leaf_lem}
use paradedb.FreeSpace.V2.Freelist.{
  stored, blocks, Fit, Extends, all-Fit, some-Fit, list-cases, extend_freelist-full,
  extend_freelist-done, extend_freelist-more, extend_last_lem,
}

count-stored :
    (b : ℕ) (ps qs : List AvlLeaf)
    → count b (stored (ps ++ qs)) ≡ count b (stored ps) + count b (stored qs)
count-stored b [] qs = omega arith
count-stored b (p ∷ ps) qs = omega (
  arith,
  count-stored b ps qs,
  count-append b p.entries (stored (ps ++ qs)),
  count-append b p.entries (stored ps),
)

count-blocks :
    (b : ℕ) (ps qs : List AvlLeaf)
    → count b (blocks (ps ++ qs)) ≡ count b (blocks ps) + count b (blocks qs)
count-blocks b [] qs = omega arith
count-blocks b (p ∷ ps) qs = omega (arith, count-blocks b ps qs)

link_between-run :
    (room n : ℕ) (supply : List ℕ) (p : AvlLeaf) (ps : List AvlLeaf) (extend_with : List ℕ)
    (qs : List AvlLeaf)
    → extend_last room supply (record { blockno = n; entries = [] }) extend_with ≡ some qs
    → link_between room (n ∷ supply) p ps extend_with ≡ some (p ∷ (qs ++ ps))
unfolding link_between
link_between-run room n supply p ps extend_with qs e = rw e refl

link_between_lem :
    (room : ℕ) (supply : List ℕ) (p : AvlLeaf) (ps : List AvlLeaf) (extend_with : List ℕ)
    → 0 < room
    → Fit room (p ∷ ps)
    → 0 < length extend_with
    → length extend_with ≤ length supply
    → Extends room supply p ps extend_with (link_between room supply p ps extend_with)
link_between_lem room [] p ps extend_with h f nonempty k = absurd (omega arith)
link_between_lem room (n ∷ supply) p ps extend_with h f nonempty k =
    let fresh : AvlLeaf = record { blockno = n; entries = [] } in
    let s = fill_leaf_lem room [] extend_with in
    let (qs, run, x) =
      extend_last_lem room supply fresh extend_with h (omega arith)
        (omega (arith, s.some_fit h nonempty)) in
    let (used, unused, split, new) = x.pages in
    (
      p ∷ (qs ++ ps),
      link_between-run room n supply p ps extend_with qs run,
      record {
        every_block = λ b. omega (
          arith,
          x.every_block b,
          count-stored b qs ps,
          count-append b p.entries (stored (qs ++ ps)),
          count-append b p.entries (stored ps),
        );
        fit = (f.0, All-append (λ p. length p.entries ≤ room) qs ps x.fit f.1);
        first = (blocks (qs ++ ps), refl);
        pages = (
          n ∷ used,
          unused,
          ap (λ zs. n ∷ zs) split,
          λ b. omega (arith, new b, count-blocks b qs ps),
        );
      },
    )

-- On a freelist whose pages hold `room` blocks at most, one at least, given blocks to add and as many
-- new pages as there are blocks, extend_freelist ends. Every block of the list is on it as often as
-- before, and each added block as often as it was given; no page holds more than it has room for; the
-- first page stays the first, and the pages are those of before with new ones.
pub extend_freelist_lem :
    (room : ℕ) (supply : List ℕ) (p : AvlLeaf) (ps : List AvlLeaf) (extend_with : List ℕ)
    → 0 < room
    → Fit room (p ∷ ps)
    → 0 < length extend_with
    → length extend_with ≤ length supply
    → Extends room supply p ps extend_with (extend_freelist room supply p ps extend_with)
unfolding extend_freelist
extend_freelist_lem room supply p [] extend_with h f nonempty k =
    extend_last_lem room supply p extend_with h f.0
      (omega (arith, (fill_leaf_lem room p.entries extend_with).fewer))
extend_freelist_lem room supply p (q ∷ ps) extend_with h f nonempty k =
    elim (Bool-cases (length p.entries == room)) [
      | inl full ↦
          rw (extend_freelist-full room supply p q ps extend_with full)
            (link_between_lem room supply p (q ∷ ps) extend_with h f nonempty k)
      | inr space ↦
          let left = (fill_leaf room p.entries extend_with).1 in
          elim (list-cases left) [
            | inl e ↦ (
              _,
              extend_freelist-done room supply p q ps extend_with space e,
              all-Fit room supply p (q ∷ ps) extend_with f e,
            )
            | inr (b, bs, e) ↦
                let (qs, run, x) =
                  extend_freelist_lem room supply q ps left h f.1 (rw e (omega arith))
                    (omega (arith, (fill_leaf_lem room p.entries extend_with).fewer)) in
                (
                  record p { entries = (fill_leaf room p.entries extend_with).0 } ∷ qs,
                  extend_freelist-more room supply p q ps extend_with b bs space e
                      ∙ ap
                          (put_before
                            (record p { entries = (fill_leaf room p.entries extend_with).0 }))
                          run,
                  some-Fit room supply p q ps extend_with f qs x,
                )
          ]
    ]
