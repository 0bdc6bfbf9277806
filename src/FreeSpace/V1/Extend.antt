-- ===== src/FreeSpace/V1/Extend.antt =====
-- `extend_with_when_recyclable` adds blocks to the chain.
use mathlib.Core.Option
use paradedb.Common.{
  ℕ, zero, suc, ◌+◌, ◌%◌, ◌≤◌, ◌<◌, ◌≡◌, refl, ◌⊎◌, Bool, true, false, ◌&&◌, Option, some, List, [],
  ◌∷◌, length, Bool-cases, inl, inr, arith,
}
use paradedb.Xid.{u32_mod}
use paradedb.FreeSpace.V1.{
  FsmEntry, FsmPage, Locks, is_v0, is_invalid, is_done, default_entries, default_block,
  fill_entries, extend_page, space_available, visit, extend_at, extend_with_when_recyclable,
}
use paradedb.FreeSpace.V1.Tracked.{tally, tally_block, tracked, IsUndisturbed}

-- The entries that stand for blocks which become recyclable at `xid`.
abbrev pub stamped : ℕ → List ℕ → List FsmEntry
stamped xid [] = []
stamped xid (b ∷ bs) = (b, xid) ∷ stamped xid bs

module _ (xid : ℕ) where
  fill_entries-tally :
      (q : FsmEntry → Bool) (es : List FsmEntry) (blocks : List ℕ)
      → tally q (fill_entries xid es blocks).0
          + tally q (stamped xid (fill_entries xid es blocks).1)
        ≡ tally q es + tally q (stamped xid blocks)
  unfolding fill_entries
  fill_entries-tally q [] blocks = omega arith
  fill_entries-tally q (e ∷ es) [] = omega arith
  fill_entries-tally q (e ∷ es) (b ∷ blocks) = elim (Bool-cases (is_invalid e.0)) [
    | inl i ↦ ground (arith, fill_entries-tally q es blocks)
    | inr v ↦ ground (arith, fill_entries-tally q es (b ∷ blocks))
  ]

  fill_entries-length :
      (es : List FsmEntry) (blocks : List ℕ)
      → length (fill_entries xid es blocks).1 + (fill_entries xid es blocks).2 ≡ length blocks
  unfolding fill_entries
  fill_entries-length [] blocks = omega arith
  fill_entries-length (e ∷ es) [] = omega arith
  fill_entries-length (e ∷ es) (b ∷ blocks) = elim (Bool-cases (is_invalid e.0)) [
    | inl i ↦ ground (arith, fill_entries-length es blocks)
    | inr v ↦ ground (arith, fill_entries-length es (b ∷ blocks))
  ]

  tally-default_entries : (q : FsmEntry → Bool) (n : ℕ) → tally q (default_entries n) ≡ 0
  unfolding default_entries
  tally-default_entries q zero = refl
  tally-default_entries q (suc n) = ground (arith, tally-default_entries q n)

module _ (locks : Locks) (slots xid : ℕ) (calm : IsUndisturbed locks) where
  -- What a round does to the tracked entries, and to what is left of the iterator.
  visit-tally :
      (q : FsmEntry → Bool) (blocks : List ℕ) (p : FsmPage)
      → tally_block q (visit locks slots xid blocks p).0
          + tally q (stamped xid (visit locks slots xid blocks p).1)
        ≡ tally_block q p.block + tally q (stamped xid blocks)
  unfolding visit tally_block extend_page is_v0 default_block
  visit-tally q blocks p = ground (
    arith,
    calm p.blockno p.block,
    fill_entries-tally xid q (p.block).entries blocks,
    fill_entries-tally xid q (default_entries slots) blocks,
    tally-default_entries xid q slots,
  )

  visit-length :
      (blocks : List ℕ) (p : FsmPage) → length (visit locks slots xid blocks p).1 ≤ length blocks
  unfolding visit extend_page
  visit-length blocks p = ground (
    arith,
    calm p.blockno p.block,
    fill_entries-length xid (p.block).entries blocks,
    fill_entries-length xid (default_entries slots) blocks,
  )

-- Pages hold at least one entry from here on: `suc k` of them.
module _ (locks : Locks) (k xid : ℕ) (calm : IsUndisturbed locks) where
  abbrev fresh : ℕ → FsmPage
  fresh b = record { blockno = b; block = default_block (suc k) }

  -- A new page has space, takes a block if there is one, and tracks nothing yet.
  visit-fresh :
      (blocks : List ℕ) (b : ℕ)
      → (space_available (default_block (suc k)) ≡ true)
        × ((is_done (visit locks (suc k) xid blocks (fresh b)).1 ≡ true)
            ⊎ (length (visit locks (suc k) xid blocks (fresh b)).1 < length blocks))
        × ((q : FsmEntry → Bool) → tally_block q (default_block (suc k)) ≡ 0)
  unfolding visit tally_block
  visit-fresh [] b = (
    refl,
    inl (rw (calm b (default_block (suc k))) refl),
    λ q. tally-default_entries xid q (suc k),
  )
  visit-fresh (c ∷ blocks) b = (
    refl,
    inr (
        rw (calm b (default_block (suc k)))
          (omega (arith, fill_entries-length xid (default_entries k) blocks))),
    λ q. tally-default_entries xid q (suc k),
  )

  abbrev pub Extended : List ℕ → List FsmPage → Option (List FsmPage) → Type 0
  Extended blocks before result =
      (after : List FsmPage) × (result ≡ some after)
      × ((q : FsmEntry → Bool) → tracked q after ≡ tracked q before + tally q (stamped xid blocks))

  tracked-fresh : (q : FsmEntry → Bool) (b : ℕ) → tracked q (fresh b ∷ []) ≡ tracked q []
  unfolding tracked
  tracked-fresh q b = omega (arith, (visit-fresh [] b).2 q)

  done_of_empty : (blocks : List ℕ) → length blocks ≡ 0 → is_done blocks ≡ true
  done_of_empty [] h = refl
  done_of_empty (b ∷ blocks) h = absurd (omega arith)

  shorter :
      (left blocks : List ℕ) {n : ℕ}
      → (is_done left ≡ true) ⊎ (length left < length blocks)
      → is_done left ≡ false
      → length blocks ≤ n + 1
      → length left ≤ n
  shorter left blocks d f l = ground (arith, d, f)

  tally-done :
      (q : FsmEntry → Bool) (blocks : List ℕ)
      → is_done blocks ≡ true
      → tally q (stamped xid blocks) ≡ 0
  tally-done q [] h = refl
  tally-done q (b ∷ blocks) h = cc

  -- A round that ends the loop.
  Extended-done :
      (blocks : List ℕ) (p : FsmPage) (ps : List FsmPage)
      → is_done (visit locks (suc k) xid blocks p).1 ≡ true
      → Extended blocks
          (p ∷ ps)
          (some (record p { block = (visit locks (suc k) xid blocks p).0 } ∷ ps))
  unfolding tracked
  Extended-done blocks p ps d = (
    record p { block = (visit locks (suc k) xid blocks p).0 } ∷ ps,
    refl,
    λ q. omega (
      arith,
      visit-tally locks (suc k) xid calm q blocks p,
      tally-done q (visit locks (suc k) xid blocks p).1 d,
    ),
  )

  -- A round that goes on with what is left.
  Extended-more :
      (blocks : List ℕ) (p : FsmPage) (ps qs : List FsmPage) (rest : Option (List FsmPage))
      → ((q : FsmEntry → Bool) → tracked q qs ≡ tracked q ps)
      → Extended (visit locks (suc k) xid blocks p).1 qs rest
      → Extended blocks
          (p ∷ ps)
          (Option.map (λ rs. record p { block = (visit locks (suc k) xid blocks p).0 } ∷ rs) rest)
  unfolding tracked
  Extended-more blocks p ps qs rest same (after, e, t) = (
    record p { block = (visit locks (suc k) xid blocks p).0 } ∷ after,
    rw e,
    λ q. omega (arith, visit-tally locks (suc k) xid calm q blocks p, t q, same q),
  )

  -- The chain ends at a new page: one more page for each block suffices.
  extend_at-fresh :
      (supply blocks : List ℕ) (b : ℕ)
      → length blocks ≤ length supply + 1
      → Extended blocks (fresh b ∷ []) (extend_at locks (suc k) xid supply blocks (fresh b) [])
  unfolding extend_at
  extend_at-fresh [] blocks b l =
      let (space, left, none_yet) = visit-fresh blocks b in
      let done : is_done (visit locks (suc k) xid blocks (fresh b)).1 ≡ true = elim left [
        | inl d ↦ d
        | inr less ↦ done_of_empty _ (omega arith)
      ] in
      rw done (Extended-done blocks (fresh b) [] done)
  extend_at-fresh (new ∷ supply) blocks b l =
      let (space, left, none_yet) = visit-fresh blocks b in
      elim (Bool-cases (is_done (visit locks (suc k) xid blocks (fresh b)).1)) [
        | inl done ↦ rw done (Extended-done blocks (fresh b) [] done)
        | inr more ↦ rw more (
            Extended-more blocks (fresh b) [] (fresh new ∷ []) _ (λ q. tracked-fresh q new)
              (extend_at-fresh supply (visit locks (suc k) xid blocks (fresh b)).1 new
                (shorter _ blocks left more (omega arith))))
      ]

  extend_at_lem :
      (supply blocks : List ℕ) (p : FsmPage) (ps : List FsmPage)
      → length blocks ≤ length supply
      → 0 < length supply
      → Extended blocks (p ∷ ps) (extend_at locks (suc k) xid supply blocks p ps)
  unfolding extend_at
  extend_at_lem [] blocks p ps l s = absurd (omega arith)
  extend_at_lem (new ∷ supply) blocks p [] l s =
      elim (Bool-cases (space_available p.block && is_done (visit locks (suc k) xid blocks p).1)) [
        | inl done ↦ rw done (Extended-done blocks p [] (ground arith))
        | inr more ↦ rw more (
            Extended-more blocks p [] (fresh new ∷ []) _ (λ q. tracked-fresh q new)
              (extend_at-fresh supply (visit locks (suc k) xid blocks p).1 new
                (omega (arith, visit-length locks (suc k) xid calm blocks p))))
      ]
  extend_at_lem (new ∷ supply) blocks p (q ∷ ps) l s =
      elim (Bool-cases (space_available p.block && is_done (visit locks (suc k) xid blocks p).1)) [
        | inl done ↦ rw done (Extended-done blocks p (q ∷ ps) (ground arith))
        | inr more ↦ rw more (
            Extended-more blocks p (q ∷ ps) (q ∷ ps) _ (λ t. refl)
              (extend_at_lem (new ∷ supply) (visit locks (suc k) xid blocks p).1 q ps
                (omega (arith, visit-length locks (suc k) xid calm blocks p)) s))
      ]

  -- Where no other backend changes a page in between, pages hold at least one entry and there is a
  -- new block for each block to be added (and one at least), the call ends. Then every valid
  -- block is tracked, as recyclable from the given transaction id on (cut to 32 bits), as often as it was
  -- given, besides all that was tracked before.
  pub extend_with_when_recyclable_lem :
      (supply blocks : List ℕ) (when_recyclable : ℕ) (p : FsmPage) (ps : List FsmPage)
      → when_recyclable % u32_mod ≡ xid
      → length blocks ≤ length supply
      → 0 < length supply
      → Extended blocks
          (p ∷ ps)
          (extend_with_when_recyclable locks (suc k) supply when_recyclable blocks (p ∷ ps))
  unfolding extend_with_when_recyclable
  extend_with_when_recyclable_lem supply blocks when_recyclable p ps e l s =
      rw e (extend_at_lem supply blocks p ps l s)
