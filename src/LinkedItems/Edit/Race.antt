-- ===== src/LinkedItems/Edit/Race.antt =====
-- What an edit does to a page, whatever other backends do between its search and its lock.
use paradedb.Common.{
  ℕ, zero, suc, ◌≡◌, refl, sym, ◌∙◌, ap, inl, inr, Bool, true, some, List, [], ◌∷◌, ◌++◌, ok,
  Bool-cases, Option-cases, arith, ◌==◌,
}
use paradedb.LinkedItems.{lookup_ex}
use paradedb.LinkedItems.Edit.{
  Round, deserialize_item, delete_item, replace_item, remove_item, update_item,
}

module _ {ℓ} {T : Type ℓ} where
  -- An item that a page holds at an offset splits its items in two parts.
  abbrev Split : ℕ → T → List T → Type ℓ
  Split o x xs =
      (before : List T) × (behind : List T) × (xs ≡ before ++ x ∷ behind)
      × (delete_item o xs ≡ before ++ behind)
      × ((y : T) → replace_item o y xs ≡ before ++ y ∷ behind)

  deserialize_item-Split :
      (o : ℕ) (x : T) (xs : List T) → deserialize_item o xs ≡ some x → Split o x xs
  unfolding deserialize_item delete_item replace_item
  deserialize_item-Split o x [] h = cc
  deserialize_item-Split zero x (y ∷ xs) h = cc
  deserialize_item-Split (suc zero) x (y ∷ xs) h =
      ([], xs, ap (λ t. t ∷ xs) (ground arith), refl, λ z. refl)
  deserialize_item-Split (suc (suc o)) x (y ∷ xs) h =
      let (before, behind, e, d, r) = deserialize_item-Split (suc o) x xs h in
      (y ∷ before, behind, ap (λ t. y ∷ t) e, ap (λ t. y ∷ t) d, λ z. ap (λ t. y ∷ t) (r z))

  -- One of the rounds has the property.
  pub data SomeRound (P : Round T → Type ℓ) : List (Round T) → Type ℓ where
    now : (r : Round T) (rs : List (Round T)) → P r → SomeRound P (r ∷ rs)
    later : (r : Round T) {rs : List (Round T)} → SomeRound P rs → SomeRound P (r ∷ rs)

  -- The page found under the lock holds a matching item, and afterwards `edited` in its place.
  abbrev pub Replaced : (T → Bool) → ℕ → T → List T → List T → Round T → Type ℓ
  Replaced cmp b item edited after r =
      (before : List T) × (behind : List T) × (cmp item ≡ true)
      × (r.1 b ≡ before ++ item ∷ behind)
      × (after ≡ before ++ (edited ++ behind))

  module _ (cmp : T → Bool) where
    remove_item-Replaced :
        (rounds : List (Round T)) (item : T) (b : ℕ) (after : List T)
        → remove_item cmp rounds ≡ some (ok (item, b, after))
        → SomeRound (Replaced cmp b item [] after) rounds
    unfolding remove_item
    remove_item-Replaced [] item b after h = cc
    remove_item-Replaced ((searched, locked) ∷ rounds) item b after h =
        elim (Option-cases (lookup_ex cmp searched)) [
          | inl n ↦ absurd (ground arith)
          | inr r ↦
              let ((x, c, o), e) = r in
              elim (Option-cases (deserialize_item o (locked c))) [
                | inl n ↦ later _ (remove_item-Replaced rounds item b after (ground arith))
                | inr s ↦
                    let (y, f) = s in
                    elim (Bool-cases (cmp y)) [
                      | inl m ↦
                          let (before, behind, split, del, rep) =
                            deserialize_item-Split o y (locked c) f in
                          let item' : y ≡ item = ground arith in
                          let block' : c ≡ b = ground arith in
                          let after' : delete_item o (locked c) ≡ after = ground arith in
                          now _ _
                            (before, behind, ground arith, ground (arith, split), sym after' ∙ del)
                      | inr m ↦ later _ (remove_item-Replaced rounds item b after (ground arith))
                    ]
              ]
        ]

  module _ (size : T → ℕ) (cmp : T → Bool) (update : T → T) where
    -- As above, with the updated item in the place of one of the same size.
    abbrev pub Updated : ℕ → T → List T → Round T → Type ℓ
    Updated b edited after r =
        (item : T) × (edited ≡ update item)
        × (size item ≡ size edited)
        × Replaced cmp b item (edited ∷ []) after r

    update_item-Updated :
        (rounds : List (Round T)) (edited : T) (b : ℕ) (after : List T)
        → update_item size cmp update rounds ≡ some (ok (edited, b, after))
        → SomeRound (Updated b edited after) rounds
    unfolding update_item
    update_item-Updated [] edited b after h = cc
    update_item-Updated ((searched, locked) ∷ rounds) edited b after h =
        elim (Option-cases (lookup_ex cmp searched)) [
          | inl n ↦ absurd (ground arith)
          | inr r ↦
              let ((x, c, o), e) = r in
              elim (Option-cases (deserialize_item o (locked c))) [
                | inl n ↦ later _ (update_item-Updated rounds edited b after (ground arith))
                | inr s ↦
                    let (y, f) = s in
                    elim (Bool-cases (cmp y)) [
                      | inl m ↦
                          let (before, behind, split, del, rep) =
                            deserialize_item-Split o y (locked c) f in
                          let same_size : (size y == size (update y)) ≡ true = ground arith in
                          let edited' : update y ≡ edited = ground arith in
                          let block' : c ≡ b = ground arith in
                          let after' : replace_item o (update y) (locked c) ≡ after =
                            ground arith in
                          now _ _ (
                            y,
                            sym edited',
                            ground arith,
                            (
                              before,
                              behind,
                              m,
                              ground (arith, split),
                              sym after'
                                  ∙ rep (update y)
                                  ∙ ap (λ t. before ++ (t ∷ behind)) edited',
                            ),
                          )
                      | inr m ↦ later _ (update_item-Updated rounds edited b after (ground arith))
                    ]
              ]
        ]

    -- Whatever other backends do between a search and the lock of the page found: an edit that
    -- succeeds was made in one of the rounds, on a matching item that the page held under the lock,
    -- and the other items of that page are as they were then. A removal takes the item out; an
    -- update puts the updated item, of the same size, in its place.
    pub edits_under_lock :
        (rounds : List (Round T)) (item : T) (b : ℕ) (after : List T)
        → (remove_item cmp rounds ≡ some (ok (item, b, after))
            → SomeRound (Replaced cmp b item [] after) rounds)
          × (update_item size cmp update rounds ≡ some (ok (item, b, after))
              → SomeRound (Updated b item after) rounds)
    edits_under_lock rounds item b after =
        (remove_item-Replaced cmp rounds item b after, update_item-Updated rounds item b after)
