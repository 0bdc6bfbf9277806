-- ===== src/FreeSpace/V1/Pages.antt =====
-- The pages of the manager itself.
use mathlib.Core.List.{append-nil}
use mathlib.Core.Option
use paradedb.Common.{
  ℕ, ◌%◌, ◌≡◌, refl, ap, Bool, ◌&&◌, some, List, [], ◌∷◌, ◌++◌, if◌then◌else◌, Bool-cases,
  Option-cases, inl, inr, arith,
}
use paradedb.Xid.{u32_mod}
use paradedb.FreeSpace.V1.{
  FsmPage, Locks, default_block, is_done, is_last, space_available, pop_page, pop, drain_page,
  drain_from, drain, visit, extend_at, extend_with_when_recyclable, used_blocks,
}

module _ (locks : Locks) (horizon n : ℕ) where
  blockno-pop_page :
      (last : Bool) (p : FsmPage) → ((pop_page locks horizon last p).1).blockno ≡ p.blockno
  unfolding pop_page
  blockno-pop_page last p = ground arith

  used_blocks-pop : (ps : List FsmPage) → used_blocks (pop locks horizon ps).1 ≡ used_blocks ps
  unfolding pop used_blocks
  used_blocks-pop [] = refl
  used_blocks-pop (p ∷ ps) = ground (arith, blockno-pop_page (is_last ps) p, used_blocks-pop ps)

  blockno-drain_page :
      (blocks : List ℕ) (p : FsmPage)
      → ((drain_page locks horizon n blocks p).2).blockno ≡ p.blockno
  unfolding drain_page
  blockno-drain_page blocks p = ground arith

  used_blocks-drain_from :
      (blocks : List ℕ) (ps : List FsmPage)
      → used_blocks (drain_from locks horizon n blocks ps).1 ≡ used_blocks ps
  unfolding drain_from used_blocks
  used_blocks-drain_from blocks [] = refl
  used_blocks-drain_from blocks (p ∷ ps) = ground (
    arith,
    blockno-drain_page blocks p,
    used_blocks-drain_from (drain_page locks horizon n blocks p).0 ps,
  )

module _ (locks : Locks) (slots xid : ℕ) where
  -- New pages come off the supply and go to the end of the chain.
  abbrev pub Grown : List ℕ → List FsmPage → List FsmPage → Type 0
  Grown supply before after =
      (taken : List ℕ) × (left : List ℕ) × (supply ≡ taken ++ left)
      × (used_blocks after ≡ used_blocks before ++ taken)

  abbrev is_full : List ℕ → FsmPage → Bool
  is_full blocks p = space_available p.block && is_done (visit locks slots xid blocks p).1

  extend_at-step :
      (supply blocks : List ℕ) (p q : FsmPage) (ps : List FsmPage)
      → let p' : FsmPage = record p { block = (visit locks slots xid blocks p).0 } in
        extend_at locks slots xid supply blocks p (q ∷ ps) ≡ (
          if is_full blocks p
          then some (p' ∷ q ∷ ps)
          else Option.map
              (λ qs. p' ∷ qs)
              (extend_at locks slots xid supply (visit locks slots xid blocks p).1 q ps))
  unfolding extend_at
  extend_at-step [] blocks p q ps = refl
  extend_at-step (new ∷ supply) blocks p q ps = refl

  extend_at-behind :
      (supply blocks : List ℕ) (p q : FsmPage) (ps after : List FsmPage)
      → extend_at locks slots xid supply blocks p (q ∷ ps) ≡ some after
      → ((left : List ℕ) (qs : List FsmPage)
          → extend_at locks slots xid supply left q ps ≡ some qs
          → Grown supply (q ∷ ps) qs)
      → Grown supply (p ∷ q ∷ ps) after
  unfolding used_blocks
  extend_at-behind supply blocks p q ps after h rec =
      let left = (visit locks slots xid blocks p).1 in
      let p' : FsmPage = record p { block = (visit locks slots xid blocks p).0 } in
      let step : extend_at locks slots xid supply blocks p (q ∷ ps) ≡ (
          if is_full blocks p
          then some (p' ∷ q ∷ ps)
          else Option.map (λ qs. p' ∷ qs) (extend_at locks slots xid supply left q ps)) =
        extend_at-step supply blocks p q ps in
      elim (Bool-cases (is_full blocks p)) [
        | inl done ↦
            ([], supply, refl, ground (arith, step, append-nil (q.blockno ∷ used_blocks ps)))
        | inr more ↦ elim (Option-cases (extend_at locks slots xid supply left q ps)) [
          | inl n ↦ absurd (ground (arith, step))
          | inr s ↦
              let (qs, e) = s in
              let (taken, rest, c, u) = rec left qs e in (taken, rest, c, ground (arith, step, u))
        ]
      ]

  used_blocks-extend_at :
      (supply blocks : List ℕ) (p : FsmPage) (ps after : List FsmPage)
      → extend_at locks slots xid supply blocks p ps ≡ some after
      → Grown supply (p ∷ ps) after
  unfolding extend_at used_blocks
  used_blocks-extend_at [] blocks p [] after h = ([], [], refl, ground arith)
  used_blocks-extend_at (new ∷ supply) blocks p [] after h = elim (Bool-cases (is_full blocks p)) [
    | inl done ↦ ([], new ∷ supply, refl, ground arith)
    | inr more ↦
        let fresh : FsmPage = record { blockno = new; block = default_block slots } in
        let left = (visit locks slots xid blocks p).1 in
        elim (Option-cases (extend_at locks slots xid supply left fresh [])) [
          | inl n ↦ absurd (ground arith)
          | inr s ↦
              let (qs, e) = s in
              let (taken, rest, c, u) = used_blocks-extend_at supply left fresh [] qs e in
              (new ∷ taken, rest, ap (λ t. new ∷ t) c, ground (arith, u))
        ]
  ]
  used_blocks-extend_at [] blocks p (q ∷ ps) after h =
      extend_at-behind [] blocks p q ps after h (λ left qs. used_blocks-extend_at [] left q ps qs)
  used_blocks-extend_at (new ∷ supply) blocks p (q ∷ ps) after h =
      extend_at-behind (new ∷ supply) blocks p q ps after h
        (λ left qs. used_blocks-extend_at (new ∷ supply) left q ps qs)

-- Whatever other backends do to the entries: `pop` and `drain` keep the pages of the manager, and an
-- extension that ends keeps them too, and adds new ones at the end, taken off the front of the
-- supply.
pub used_blocks_lem :
    (locks : Locks) (horizon n slots when_recyclable : ℕ) (supply blocks : List ℕ)
    (ps after : List FsmPage)
    → (used_blocks (pop locks horizon ps).1 ≡ used_blocks ps)
      × (used_blocks (drain locks horizon n ps).1 ≡ used_blocks ps)
      × (extend_with_when_recyclable locks slots supply when_recyclable blocks ps ≡ some after
          → Grown locks slots (when_recyclable % u32_mod) supply ps after)
unfolding drain extend_with_when_recyclable
used_blocks_lem locks horizon n slots when_recyclable supply blocks [] after =
    (used_blocks-pop locks horizon n [], used_blocks-drain_from locks horizon n [] [], λ h. cc)
used_blocks_lem locks horizon n slots when_recyclable supply blocks (p ∷ ps) after = (
  used_blocks-pop locks horizon n (p ∷ ps),
  used_blocks-drain_from locks horizon n [] (p ∷ ps),
  used_blocks-extend_at locks slots (when_recyclable % u32_mod) supply blocks p ps after,
)
