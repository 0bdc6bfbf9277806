-- ===== src/LinkedItems/Retain.antt =====
-- `retain` and the blocks it gives back.
use mathlib.Core.List.{tail}
use paradedb.Common.{
  ℕ, ◌+◌, ◌≡◌, refl, Bool, true, false, List, [], ◌∷◌, ◌++◌, arith, keep, All, ◌≢◌, count,
}
use paradedb.LinkedItems.{
  Page, RetainItem, remove, retain_item, list, freeable_blocks_without_header, retain_page,
  retain_rest, retain,
}

abbrev pub retained : RetainItem → Bool
retained remove = false
retained retain_item = true

abbrev pub removes : RetainItem → Bool
removes remove = true
removes retain_item = false

module _ {ℓ} {T : Type ℓ} (f : T → RetainItem) where
  abbrev kept_items : List T → List T
  kept_items xs = keep (λ x. retained (f x)) xs

  abbrev removed_items : List T → List T
  removed_items xs = keep (λ x. removes (f x)) xs

  retain_page_lem :
      (xs : List T)
      → ((retain_page f xs).0 ≡ kept_items xs) × ((retain_page f xs).1 ≡ removed_items xs)
  unfolding retain_page
  retain_page_lem [] = (refl, refl)
  retain_page_lem (x ∷ xs) = ground (arith, retain_page_lem xs)

  keep-append : (p : T → Bool) (xs ys : List T) → keep p (xs ++ ys) ≡ keep p xs ++ keep p ys
  keep-append p [] ys = refl
  keep-append p (x ∷ xs) ys = ground (arith, keep-append p xs ys)

  retain_rest-items :
      (ps : List (Page T))
      → (list (retain_rest f ps).0 ≡ kept_items (list ps))
        × ((retain_rest f ps).1 ≡ removed_items (list ps))
  unfolding retain_rest list
  retain_rest-items [] = (refl, refl)
  retain_rest-items (p ∷ ps) = ground (
    arith,
    retain_page_lem p.items,
    retain_rest-items ps,
    keep-append (λ x. retained (f x)) p.items (list ps),
    keep-append (λ x. removes (f x)) p.items (list ps),
  )

  retain_rest-blocks :
      (b : ℕ) (ps : List (Page T))
      → count b (freeable_blocks_without_header (retain_rest f ps).0) + count b (retain_rest f ps).2
        ≡ count b (freeable_blocks_without_header ps)
  unfolding retain_rest freeable_blocks_without_header
  retain_rest-blocks b [] = refl
  retain_rest-blocks b (p ∷ ps) = ground (arith, retain_rest-blocks b ps)

  -- No page behind the start page is left empty.
  retain_rest-filled : (ps : List (Page T)) → All (λ p. p.items ≢ []) (retain_rest f ps).0
  unfolding retain_rest
  retain_rest-filled [] = tt
  retain_rest-filled (p ∷ ps) = ground (arith, retain_rest-filled ps)

  -- `retain` leaves exactly the items that `f` retains, in order, and returns exactly those that it
  -- removes; every block of the old chain is either still in the chain or given back, as often as
  -- it stood there; and no page behind the start page is left empty.
  pub retain_lem :
      (p : Page T) (ps : List (Page T))
      → (list (retain f (p ∷ ps)).0 ≡ kept_items (list (p ∷ ps)))
        × ((retain f (p ∷ ps)).1 ≡ removed_items (list (p ∷ ps)))
        × ((b : ℕ)
            → count b (freeable_blocks_without_header (retain f (p ∷ ps)).0)
                + count b (retain f (p ∷ ps)).2
              ≡ count b (freeable_blocks_without_header (p ∷ ps)))
        × All (λ q. q.items ≢ []) (tail (retain f (p ∷ ps)).0)
  unfolding retain list freeable_blocks_without_header
  retain_lem p ps = (
    ground (
      arith,
      retain_page_lem p.items,
      retain_rest-items ps,
      keep-append (λ x. retained (f x)) p.items (list ps),
    ),
    ground (
      arith,
      retain_page_lem p.items,
      retain_rest-items ps,
      keep-append (λ x. removes (f x)) p.items (list ps),
    ),
    λ b. ground (arith, retain_rest-blocks b ps),
    retain_rest-filled ps,
  )
