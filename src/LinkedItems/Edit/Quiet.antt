-- ===== src/LinkedItems/Edit/Quiet.antt =====
-- An edit that is not disturbed ends in its first round.
use mathlib.Core.List.{append_assoc}
use paradedb.Common.{
  ℕ, suc, ◌+◌, ◌<◌, ◌≡◌, refl, sym, ◌∙◌, ap, ◌⊎◌, inl, inr, Bool, true, false, Option, none, some,
  List, [], ◌∷◌, ◌++◌, if◌then◌else◌, Outcome, ok, err, Bool-cases, arith, ◌==◌, count, IsDistinct,
  ==_refl,
}
use paradedb.LinkedItems.{Page, list, find_on_page, lookup_ex, freeable_blocks_without_header}
use paradedb.LinkedItems.Search.{first}
use paradedb.LinkedItems.Edit.{
  Round, deserialize_item, delete_item, replace_item, remove_item, update_item,
}

module _ {ℓ} {T : Type ℓ} where
  -- What the page with a block number holds.
  abbrev pub items_at : List (Page T) → ℕ → List T
  items_at [] b = []
  items_at (p ∷ ps) b = let rest = items_at ps b in if p.blockno == b then p.items else rest

  -- The chain after one page changed.
  abbrev pub put_items : ℕ → List T → List (Page T) → List (Page T)
  put_items b xs [] = []
  put_items b xs (p ∷ ps) =
      let rest = put_items b xs ps in
      if p.blockno == b then record p { items = xs } ∷ ps else p ∷ rest

  -- The list with its first match edited.
  abbrev pub edit_first : (T → Bool) → List T → List T → List T
  edit_first cmp ys [] = []
  edit_first cmp ys (x ∷ xs) =
      let rest = edit_first cmp ys xs in if cmp x then ys ++ xs else x ∷ rest

  module _ (cmp : T → Bool) where
    -- Where the search ends on a page: at the first match of the page.
    abbrev FoundOn : ℕ → List T → Option (T × ℕ) → Type ℓ
    FoundOn i xs none = (first cmp xs ≡ none) × ((ys : List T) → edit_first cmp ys xs ≡ xs)
    FoundOn i xs (some (x, o)) =
        (n : ℕ) × (o ≡ suc n + i)
        × (first cmp xs ≡ some x)
        × (cmp x ≡ true)
        × (deserialize_item (suc n) xs ≡ some x)
        × (delete_item (suc n) xs ≡ edit_first cmp [] xs)
        × ((y : T) → replace_item (suc n) y xs ≡ edit_first cmp (y ∷ []) xs)

    FoundOn-shift :
        (i : ℕ) (x : T) (xs : List T) (r : Option (T × ℕ))
        → cmp x ≡ false
        → FoundOn (suc i) xs r
        → FoundOn i (x ∷ xs) r
    unfolding deserialize_item delete_item replace_item
    FoundOn-shift i x xs none m f = (rw m f.0, λ ys. rw m (ap (λ t. x ∷ t) (f.1 ys)))
    FoundOn-shift i x xs (some (y, o)) m (n, e, f, m', d, del, rep) = (
      suc n,
      omega arith,
      rw m f,
      m',
      d,
      rw m (ap (λ t. x ∷ t) del),
      λ z. rw m (ap (λ t. x ∷ t) (rep z)),
    )

    find_on_page-FoundOn : (i : ℕ) (xs : List T) → FoundOn i xs (find_on_page cmp (suc i) xs)
    unfolding find_on_page deserialize_item delete_item replace_item
    find_on_page-FoundOn i [] = (refl, λ ys. refl)
    find_on_page-FoundOn i (x ∷ xs) = elim (Bool-cases (cmp x)) [
      | inl m ↦ rw m (0, omega arith, rw m, m, refl, rw m, λ y. rw m)
      | inr m ↦ rw m (FoundOn-shift i x xs _ m (find_on_page-FoundOn (suc i) xs))
    ]

    first-here : (xs zs : List T) (x : T) → first cmp xs ≡ some x → first cmp (xs ++ zs) ≡ some x
    first-here [] zs x h = cc
    first-here (y ∷ xs) zs x h = ground (arith, first-here xs zs x)

    first-there : (xs zs : List T) → first cmp xs ≡ none → first cmp (xs ++ zs) ≡ first cmp zs
    first-there [] zs h = refl
    first-there (y ∷ xs) zs h = ground (arith, first-there xs zs)

    edit_first-here :
        (ys xs zs : List T) (x : T)
        → first cmp xs ≡ some x
        → edit_first cmp ys (xs ++ zs) ≡ edit_first cmp ys xs ++ zs
    edit_first-here ys [] zs x h = cc
    edit_first-here ys (y ∷ xs) zs x h = elim (Bool-cases (cmp y)) [
      | inl m ↦ rw m (sym (append_assoc ys xs zs))
      | inr m ↦ rw m (ap (λ t. y ∷ t) (edit_first-here ys xs zs x (ground arith)))
    ]

    edit_first-there :
        (ys xs zs : List T)
        → first cmp xs ≡ none
        → edit_first cmp ys (xs ++ zs) ≡ xs ++ edit_first cmp ys zs
    edit_first-there ys [] zs h = refl
    edit_first-there ys (y ∷ xs) zs h = elim (Bool-cases (cmp y)) [
      | inl m ↦ absurd (ground arith)
      | inr m ↦ rw m (ap (λ t. y ∷ t) (edit_first-there ys xs zs (ground arith)))
    ]

    -- Where the search ends on a chain: at the first match of the list.
    abbrev FoundIn : List (Page T) → Option (T × ℕ × ℕ) → Type ℓ
    FoundIn ps none = first cmp (list ps) ≡ none
    FoundIn ps (some (x, b, o)) =
        (first cmp (list ps) ≡ some x)
        × (cmp x ≡ true)
        × (deserialize_item o (items_at ps b) ≡ some x)
        × (list (put_items b (delete_item o (items_at ps b)) ps) ≡ edit_first cmp [] (list ps))
        × ((y : T)
            → list (put_items b (replace_item o y (items_at ps b)) ps)
              ≡ edit_first cmp (y ∷ []) (list ps))
        × (0 < count b (freeable_blocks_without_header ps))

    lookup_ex-FoundIn :
        (ps : List (Page T))
        → IsDistinct (freeable_blocks_without_header ps)
        → FoundIn ps (lookup_ex cmp ps)
    unfolding lookup_ex list freeable_blocks_without_header
    lookup_ex-FoundIn [] h = refl
    lookup_ex-FoundIn (p ∷ ps) h =
        on_page (find_on_page cmp 1 p.items) (find_on_page-FoundOn 0 p.items) (lookup_ex cmp ps)
          (lookup_ex-FoundIn ps (λ a. omega (arith, h a)))
      where
        on_page :
            (r : Option (T × ℕ))
            → FoundOn 0 p.items r
            → (rest : Option (T × ℕ × ℕ)) → FoundIn ps rest
            → FoundIn (p ∷ ps) (elim r [ some (x, o) ↦ some (x, p.blockno, o) | none ↦ rest ])
        on_page none f none g = first-there p.items (list ps) f.0 ∙ g
        on_page none f (some (x, b, o)) (g, m, d, del, rep, c) =
            let other : (p.blockno == b) ≡ false = ground (arith, h b, c) in
            let same : items_at (p ∷ ps) b ≡ items_at ps b = rw other in
            let put : (xs : List T) → put_items b xs (p ∷ ps) ≡ p ∷ put_items b xs ps =
              λ xs. rw other in
            (
              first-there p.items (list ps) f.0 ∙ g,
              m,
              rw same d,
              ap (λ t. list (put_items b (delete_item o t) (p ∷ ps))) same
                  ∙ ap list (put (delete_item o (items_at ps b)))
                  ∙ ap (λ t. p.items ++ t) del
                  ∙ sym (edit_first-there [] p.items (list ps) f.0),
              λ y.
                  ap (λ t. list (put_items b (replace_item o y t) (p ∷ ps))) same
                  ∙ ap list (put (replace_item o y (items_at ps b)))
                  ∙ ap (λ t. p.items ++ t) (rep y)
                  ∙ sym (edit_first-there (y ∷ []) p.items (list ps) f.0),
              omega (arith, c),
            )
        on_page (some (x, o)) (n, e, f, m, d, del, rep) rest g =
            let at : o ≡ suc n = omega arith in
            rw at (
              rw (==_refl p.blockno) (
                first-here p.items (list ps) x f,
                m,
                d,
                ap (λ t. t ++ list ps) del ∙ sym (edit_first-here [] p.items (list ps) x f),
                λ y.
                    ap (λ t. t ++ list ps) (rep y)
                    ∙ sym (edit_first-here (y ∷ []) p.items (list ps) x f),
                omega arith,
              ))

  -- The page that was locked is as the chain had it when it was searched.
  abbrev pub quiet : List (Page T) → Round T
  quiet ps = (ps, items_at ps)

  -- The first match of a list edited on the page that has it, or an error if there is no match.
  abbrev pub Settles :
      (T → Bool)
      → (T → List T)
      → (T → T)
      → List (Page T)
      → Option (Outcome (T × ℕ × List T))
      → Type ℓ
  Settles cmp place answer ps result =
      ((first cmp (list ps) ≡ none) × (result ≡ some err))
      ⊎ ((x : T) × (b : ℕ) × (after : List T) × (first cmp (list ps) ≡ some x)
          × (result ≡ some (ok (answer x, b, after)))
          × (list (put_items b after ps) ≡ edit_first cmp (place x) (list ps)))

  module _ (size : T → ℕ) (cmp : T → Bool) (update : T → T) (ps : List (Page T))
      (rounds : List (Round T)) where
    remove_item-quiet :
        (r : Option (T × ℕ × ℕ))
        → lookup_ex cmp ps ≡ r
        → FoundIn cmp ps r
        → Settles cmp (λ x. []) (λ x. x) ps (remove_item cmp (quiet ps ∷ rounds))
    unfolding remove_item
    remove_item-quiet none e f = inl (f, rw e)
    remove_item-quiet (some (x, b, o)) e (g, m, d, del, rep, c) = inr (
      x,
      b,
      delete_item o (items_at ps b),
      g,
      rw (e, remove_item) (rw (d, remove_item) (rw m)),
      del,
    )

    update_item-quiet :
        ((x : T) → size (update x) ≡ size x)
        → (r : Option (T × ℕ × ℕ)) → lookup_ex cmp ps ≡ r
        → FoundIn cmp ps r
        → Settles cmp
            (λ x. update x ∷ [])
            update
            ps
            (update_item size cmp update (quiet ps ∷ rounds))
    unfolding update_item
    update_item-quiet k none e f = inl (f, rw e)
    update_item-quiet k (some (x, b, o)) e (g, m, d, del, rep, c) =
        let fits : (size x == size (update x)) ≡ true = ground (arith, k x) in
        inr (
          x,
          b,
          replace_item o (update x) (items_at ps b),
          g,
          rw (e, update_item) (rw (d, update_item) (rw m (rw fits))),
          rep (update x),
        )

    -- On a chain of distinct blocks, with no other backend at work, an edit ends in its first round.
    -- If no item matches it is an error. Otherwise the first match of the list is removed and
    -- returned, or, by an update that keeps the size of items, replaced by the updated item, and
    -- the rest of the list stays as it is.
    pub edits_first_match :
        IsDistinct (freeable_blocks_without_header ps)
        → ((x : T) → size (update x) ≡ size x)
        → Settles cmp (λ x. []) (λ x. x) ps (remove_item cmp (quiet ps ∷ rounds))
          × Settles cmp
              (λ x. update x ∷ [])
              update
              ps
              (update_item size cmp update (quiet ps ∷ rounds))
    edits_first_match h k = (
      remove_item-quiet (lookup_ex cmp ps) refl (lookup_ex-FoundIn cmp ps h),
      update_item-quiet k (lookup_ex cmp ps) refl (lookup_ex-FoundIn cmp ps h),
    )
