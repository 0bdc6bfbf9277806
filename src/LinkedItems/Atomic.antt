-- ===== src/LinkedItems/Atomic.antt =====
-- Changing a list through a copy of its pages.
use paradedb.Common.{
  ℕ, ◌+◌, ◌≤◌, ok, panic, ◌≡◌, refl, ap, some, List, [], ◌∷◌, ◌++◌, arith, length, count,
  count-append,
}
use paradedb.LinkedItems.{
  Page, AtomicGuard, list, freeable_blocks_without_header, clone_pages, copied, atomically, commit,
}

module _ {ℓ} {T : Type ℓ} where
  clone_pages_lem :
      (supply : List ℕ) (ps : List (Page T))
      → length ps ≤ length supply
      → (qs : List (Page T)) × (clone_pages supply ps ≡ some qs)
        × (list qs ≡ list ps)
        × ((rest : List ℕ) × (supply ≡ freeable_blocks_without_header qs ++ rest))
  unfolding clone_pages list freeable_blocks_without_header
  clone_pages_lem supply [] h = ([], refl, refl, (supply, refl))
  clone_pages_lem [] (p ∷ ps) h = absurd (omega arith)
  clone_pages_lem (b ∷ supply) (p ∷ ps) h =
      let (qs, e, l, s) = clone_pages_lem supply ps (omega arith) in
      (record p { blockno = b } ∷ qs, rw e, rw l, (s.0, ap (λ t. b ∷ t) s.1))

  atomically-run :
      (b : ℕ) (supply : List ℕ) (p : Page T) (ps qs : List (Page T))
      → clone_pages supply (p ∷ ps) ≡ some qs
      → atomically (b ∷ supply) (p ∷ ps)
        ≡ some (ok (record { original = p ∷ ps; cloned_header_blockno = b; cloned = qs }))
  unfolding atomically
  atomically-run b supply p ps qs e = ap (copied (p ∷ ps) b) e

  -- On a list of at least one page, with enough blocks, `atomically` yields a copy that lists the
  -- same items, on blocks that it takes off the supply. Whatever the copy has become by then,
  -- `commit` makes it the list, and frees the pages of the old list and the header of the copy, each
  -- as often as it was there. On a list with no page `atomically` panics.
  pub commit-atomically :
      (b : ℕ) (supply : List ℕ) (p : Page T) (ps : List (Page T))
      → length (p ∷ ps) ≤ length supply
      → (guard : AtomicGuard T) × (atomically (b ∷ supply) (p ∷ ps) ≡ some (ok guard))
        × (list guard.cloned ≡ list (p ∷ ps))
        × ((rest : List ℕ) × (supply ≡ freeable_blocks_without_header guard.cloned ++ rest))
        × ((changed : List (Page T))
            → ((commit (record guard { cloned = changed })).0 ≡ changed)
              × ((a : ℕ)
                  → count a (commit (record guard { cloned = changed })).1
                    ≡ count a (freeable_blocks_without_header (p ∷ ps)) + count a (b ∷ [])))
        × (atomically {T = T} (b ∷ supply) [] ≡ some panic)
  unfolding atomically commit
  commit-atomically b supply p ps h =
      let (qs, e, l, s) = clone_pages_lem supply (p ∷ ps) h in
      (
        record { original = p ∷ ps; cloned_header_blockno = b; cloned = qs },
        atomically-run b supply p ps qs e,
        l,
        s,
        λ changed. (refl, λ a. count-append a (freeable_blocks_without_header (p ∷ ps)) (b ∷ [])),
        refl,
      )
