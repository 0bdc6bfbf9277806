-- ===== src/FreeSpace/V2/Freelist.antt =====
-- extend_freelist puts every block on the chain once.
use paradedb.Common.{
  ℕ, ◌+◌, ◌≤◌, ◌<◌, ◌≡◌, refl, ◌∙◌, ap, true, false, Option, none, some, List, [], ◌∷◌, ◌++◌, map,
  length, count, count-append, All, ◌==◌, ◌⊎◌, inl, inr, arith,
}
use paradedb.FreeSpace.V2.{
  AvlLeaf, fill_leaf, until_empty, put_before, extend_last, link_between, extend_freelist,
}
use paradedb.FreeSpace.V2.Fill.{fill_leaf_lem}

-- The blocks that a chain holds, and those of its pages.
abbrev pub stored : List AvlLeaf → List ℕ
stored [] = []
stored (p ∷ ps) = p.entries ++ stored ps

abbrev pub blocks : List AvlLeaf → List ℕ
blocks ps = map (λ p. p.blockno) ps

abbrev pub Fit : ℕ → List AvlLeaf → Type 0
Fit room ps = All (λ p. length p.entries ≤ room) ps

-- The chain after an extension, which used up the new pages `used`.
pub record Extended (room : ℕ) (supply : List ℕ) (p : AvlLeaf) (ps : List AvlLeaf)
    (extend_with : List ℕ) (qs : List AvlLeaf) : Type 0 where
  pub every_block : (b : ℕ) → count b (stored qs) ≡ count b (stored (p ∷ ps)) + count b extend_with
  pub fit : Fit room qs
  pub first : (rest : List ℕ) × (blocks qs ≡ p.blockno ∷ rest)
  pub pages :
      (used : List ℕ) × (unused : List ℕ) × (supply ≡ used ++ unused)
      × ((b : ℕ) → count b (blocks qs) ≡ count b (blocks (p ∷ ps)) + count b used)

-- The result, when it is there.
abbrev pub Extends : ℕ → List ℕ → AvlLeaf → List AvlLeaf → List ℕ → Option (List AvlLeaf) → Type 0
Extends room supply p ps extend_with result =
    (qs : List AvlLeaf) × (result ≡ some qs) × Extended room supply p ps extend_with qs

-- A page that takes all blocks that are left.
pub all-Fit :
    (room : ℕ) (supply : List ℕ) (p : AvlLeaf) (ps : List AvlLeaf) (extend_with : List ℕ)
    → Fit room (p ∷ ps)
    → (fill_leaf room p.entries extend_with).1 ≡ []
    → Extended room supply p ps extend_with
        (record p { entries = (fill_leaf room p.entries extend_with).0 } ∷ ps)
all-Fit room supply p ps extend_with h e =
    let s = fill_leaf_lem room p.entries extend_with in
    let es = (fill_leaf room p.entries extend_with).0 in
    record {
      every_block = λ b. omega (
        arith,
        s.kept b,
        ap (count b) e,
        count-append b es (stored ps),
        count-append b p.entries (stored ps),
      );
      fit = (s.fits h.0, h.1);
      first = (blocks ps, refl);
      pages = ([], supply, refl, λ b. omega arith);
    }

-- A page that takes some, the rest goes to the pages behind it.
pub some-Fit :
    (room : ℕ) (supply : List ℕ) (p q : AvlLeaf) (ps : List AvlLeaf) (extend_with : List ℕ)
    → Fit room (p ∷ q ∷ ps)
    → (qs : List AvlLeaf) → Extended room supply q ps (fill_leaf room p.entries extend_with).1 qs
    → Extended room supply p
        (q ∷ ps)
        extend_with
        (record p { entries = (fill_leaf room p.entries extend_with).0 } ∷ qs)
some-Fit room supply p q ps extend_with h qs x =
    let s = fill_leaf_lem room p.entries extend_with in
    let es = (fill_leaf room p.entries extend_with).0 in
    let (used, unused, split, new) = x.pages in
    record {
      every_block = λ b. omega (
        arith,
        s.kept b,
        x.every_block b,
        count-append b es (stored qs),
        count-append b p.entries (stored (q ∷ ps)),
      );
      fit = (s.fits h.0, x.fit);
      first = (blocks qs, refl);
      pages = (used, unused, split, λ b. omega (arith, new b));
    }

-- The last page takes some, the rest goes to a new page.
new_page :
    (room new_blockno : ℕ) (supply : List ℕ) (p : AvlLeaf) (extend_with : List ℕ)
    → length p.entries ≤ room
    → (qs : List AvlLeaf)
    → Extended room supply
        (record { blockno = new_blockno; entries = [] })
        []
        (fill_leaf room p.entries extend_with).1
        qs
    → Extended room
        (new_blockno ∷ supply)
        p
        []
        extend_with
        (record p { entries = (fill_leaf room p.entries extend_with).0 } ∷ qs)
new_page room new_blockno supply p extend_with h qs x =
    let s = fill_leaf_lem room p.entries extend_with in
    let es = (fill_leaf room p.entries extend_with).0 in
    let (used, unused, split, new) = x.pages in
    record {
      every_block = λ b. omega (
        arith,
        s.kept b,
        x.every_block b,
        count-append b es (stored qs),
        count-append b p.entries [],
      );
      fit = (s.fits h, x.fit);
      first = (blocks qs, refl);
      pages = (
        new_blockno ∷ used,
        unused,
        ap (λ zs. new_blockno ∷ zs) split,
        λ b. omega (arith, new b),
      );
    }

pub list-cases : (xs : List ℕ) → (xs ≡ []) ⊎ ((b : ℕ) × (bs : List ℕ) × (xs ≡ b ∷ bs))
list-cases [] = inl refl
list-cases (b ∷ bs) = inr (b, bs, refl)

-- How the functions go on after a page is filled.
extend_last-done :
    (room : ℕ) (supply : List ℕ) (p : AvlLeaf) (extend_with : List ℕ)
    → (fill_leaf room p.entries extend_with).1 ≡ []
    → extend_last room supply p extend_with
      ≡ some (record p { entries = (fill_leaf room p.entries extend_with).0 } ∷ [])
unfolding extend_last
extend_last-done room [] p extend_with e =
    ap
      (λ xs.
        until_empty xs (some (record p { entries = (fill_leaf room p.entries extend_with).0 } ∷ []))
          none)
      e
extend_last-done room (n ∷ supply) p extend_with e =
    ap
      (λ xs.
        until_empty xs (some (record p { entries = (fill_leaf room p.entries extend_with).0 } ∷ []))
          (put_before (record p { entries = (fill_leaf room p.entries extend_with).0 })
            (extend_last room supply (record { blockno = n; entries = [] })
              (fill_leaf room p.entries extend_with).1)))
      e

extend_last-more :
    (room n : ℕ) (supply : List ℕ) (p : AvlLeaf) (extend_with : List ℕ) (b : ℕ) (bs : List ℕ)
    → (fill_leaf room p.entries extend_with).1 ≡ b ∷ bs
    → extend_last room (n ∷ supply) p extend_with
      ≡ put_before
          (record p { entries = (fill_leaf room p.entries extend_with).0 })
          (extend_last room supply
            (record { blockno = n; entries = [] })
            (fill_leaf room p.entries extend_with).1)
unfolding extend_last
extend_last-more room n supply p extend_with b bs e =
    ap
      (λ xs.
        until_empty xs (some (record p { entries = (fill_leaf room p.entries extend_with).0 } ∷ []))
          (put_before (record p { entries = (fill_leaf room p.entries extend_with).0 })
            (extend_last room supply (record { blockno = n; entries = [] })
              (fill_leaf room p.entries extend_with).1)))
      e

pub extend_freelist-full :
    (room : ℕ) (supply : List ℕ) (p q : AvlLeaf) (ps : List AvlLeaf) (extend_with : List ℕ)
    → (length p.entries == room) ≡ true
    → extend_freelist room supply p (q ∷ ps) extend_with
      ≡ link_between room supply p (q ∷ ps) extend_with
unfolding extend_freelist
extend_freelist-full room supply p q ps extend_with e = rw e refl

pub extend_freelist-done :
    (room : ℕ) (supply : List ℕ) (p q : AvlLeaf) (ps : List AvlLeaf) (extend_with : List ℕ)
    → (length p.entries == room) ≡ false
    → (fill_leaf room p.entries extend_with).1 ≡ []
    → extend_freelist room supply p (q ∷ ps) extend_with
      ≡ some (record p { entries = (fill_leaf room p.entries extend_with).0 } ∷ q ∷ ps)
unfolding extend_freelist
extend_freelist-done room supply p q ps extend_with e f = rw e (
    ap
      (λ xs.
        until_empty xs
          (some (record p { entries = (fill_leaf room p.entries extend_with).0 } ∷ q ∷ ps))
          (put_before (record p { entries = (fill_leaf room p.entries extend_with).0 })
            (extend_freelist room supply q ps (fill_leaf room p.entries extend_with).1)))
      f)

pub extend_freelist-more :
    (room : ℕ) (supply : List ℕ) (p q : AvlLeaf) (ps : List AvlLeaf) (extend_with : List ℕ) (b : ℕ)
    (bs : List ℕ)
    → (length p.entries == room) ≡ false
    → (fill_leaf room p.entries extend_with).1 ≡ b ∷ bs
    → extend_freelist room supply p (q ∷ ps) extend_with
      ≡ put_before
          (record p { entries = (fill_leaf room p.entries extend_with).0 })
          (extend_freelist room supply q ps (fill_leaf room p.entries extend_with).1)
unfolding extend_freelist
extend_freelist-more room supply p q ps extend_with b bs e f = rw e (
    ap
      (λ xs.
        until_empty xs
          (some (record p { entries = (fill_leaf room p.entries extend_with).0 } ∷ q ∷ ps))
          (put_before (record p { entries = (fill_leaf room p.entries extend_with).0 })
            (extend_freelist room supply q ps (fill_leaf room p.entries extend_with).1)))
      f)

pub extend_last_lem :
    (room : ℕ) (supply : List ℕ) (p : AvlLeaf) (extend_with : List ℕ)
    → 0 < room
    → length p.entries ≤ room
    → length (fill_leaf room p.entries extend_with).1 ≤ length supply
    → Extends room supply p [] extend_with (extend_last room supply p extend_with)
extend_last_lem room [] p extend_with h f k =
    let nothing = empty_list (fill_leaf room p.entries extend_with).1 k in
    (
      _,
      extend_last-done room [] p extend_with nothing,
      all-Fit room [] p [] extend_with (f, tt) nothing,
    )
  where
    empty_list : (xs : List ℕ) → length xs ≤ 0 → xs ≡ []
    empty_list [] h = refl
    empty_list (x ∷ xs) h = absurd (omega arith)
extend_last_lem room (n ∷ supply) p extend_with h f k =
    let left = (fill_leaf room p.entries extend_with).1 in
    let fresh : AvlLeaf = record { blockno = n; entries = [] } in
    elim (list-cases left) [
      | inl e ↦ (
        _,
        extend_last-done room (n ∷ supply) p extend_with e,
        all-Fit room (n ∷ supply) p [] extend_with (f, tt) e,
      )
      | inr (b, bs, e) ↦
          let s = fill_leaf_lem room [] left in
          let (qs, run, x) =
            extend_last_lem room supply fresh left h (omega arith)
              (omega (arith, k, s.some_fit (omega arith) (rw e (omega arith)))) in
          (
            record p { entries = (fill_leaf room p.entries extend_with).0 } ∷ qs,
            extend_last-more room n supply p extend_with b bs e
                ∙ ap (put_before (record p { entries = (fill_leaf room p.entries extend_with).0 }))
                    run,
            new_page room n supply p extend_with f qs x,
          )
    ]
