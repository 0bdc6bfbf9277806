-- ===== src/FreeSpace/V1/Pop.antt =====
-- `pop` takes one recyclable block off the chain.
use paradedb.Common.{
  ℕ, ◌+◌, ◌≡◌, ◌≢◌, refl, Bool, true, not, ◌&&◌, Option, none, some, List, [], ◌∷◌, if◌then◌else◌,
  is_some, Bool-cases, Option-cases, inl, inr, arith,
}
use paradedb.Segment.Meta.{invalid_block_number}
use paradedb.FreeSpace.V1.{
  FsmEntry, FsmPage, Locks, is_invalid, passes_visibility_horizon, pop_scan, pop_page, pop, is_last,
}
use paradedb.FreeSpace.V1.Tracked.{
  tally, tally_block, tracked, IsUndisturbed, AllInvalid, tally-AllInvalid, IsHinted,
}

module _ (horizon : ℕ) where
  -- Once a block is found, the rest of the page stays as it is.
  pop_scan-found :
      (es : List FsmEntry) (b : ℕ) (inv : Bool)
      → ((pop_scan horizon es (some b) inv).0 ≡ some b)
        × ((pop_scan horizon es (some b) inv).2 ≡ es)
  unfolding pop_scan
  pop_scan-found [] b inv = (refl, refl)
  pop_scan-found ((c, x) ∷ es) b inv = ground (arith, pop_scan-found es b (inv && is_invalid c))

  -- The entry that was taken.
  abbrev Taken : Option ℕ → FsmEntry → Type 0
  Taken result e =
      (result ≡ some e.0)
      × (e.0 ≢ invalid_block_number)
      × (passes_visibility_horizon e.1 horizon ≡ true)

  pop_scan-some :
      (es : List FsmEntry) (inv : Bool) {b : ℕ}
      → (pop_scan horizon es none inv).0 ≡ some b
      → (x : ℕ) × (b ≢ invalid_block_number)
        × (passes_visibility_horizon x horizon ≡ true)
        × ((q : FsmEntry → Bool)
            → tally q (pop_scan horizon es none inv).2 + (if q (b, x) then 1 else 0) ≡ tally q es)
  unfolding pop_scan
  pop_scan-some [] inv h = cc
  pop_scan-some ((c, x) ∷ es) inv {b} h =
      elim (Bool-cases (not (is_invalid c) && passes_visibility_horizon x horizon)) [
        | inl hit ↦
            let kept = pop_scan-found es c (inv && is_invalid invalid_block_number) in
            (x, ground (arith, kept), ground arith, λ q. ground (arith, kept))
        | inr miss ↦
            let (y, v, p, t) = pop_scan-some es (inv && is_invalid c) {b = b} (ground arith) in
            (y, v, p, λ q. ground (arith, t q))
      ]

  pop_scan-none :
      (es : List FsmEntry) (inv : Bool)
      → (pop_scan horizon es none inv).0 ≡ none
      → ((pop_scan horizon es none inv).2 ≡ es)
        × (tally (λ e. passes_visibility_horizon e.1 horizon) es ≡ 0)
  unfolding pop_scan
  pop_scan-none [] inv h = (refl, refl)
  pop_scan-none ((c, x) ∷ es) inv h =
      elim (Bool-cases (not (is_invalid c) && passes_visibility_horizon x horizon)) [
        | inl hit ↦
            let kept = pop_scan-found es c (inv && is_invalid invalid_block_number) in
            absurd (ground (arith, kept))
        | inr miss ↦ ground (arith, pop_scan-none es (inv && is_invalid c))
      ]

  pop_scan-AllInvalid :
      (es : List FsmEntry) (found : Option ℕ) (inv : Bool)
      → (pop_scan horizon es found inv).1 ≡ true
      → (inv ≡ true) × AllInvalid (pop_scan horizon es found inv).2
  unfolding pop_scan
  pop_scan-AllInvalid [] found inv h = (h, tt)
  pop_scan-AllInvalid ((c, x) ∷ es) found inv h =
      elim (Bool-cases
        (not (is_some found) && (not (is_invalid c) && passes_visibility_horizon x horizon))) [
          | inl hit ↦
              ground
                (arith, pop_scan-AllInvalid es (some c) (inv && is_invalid invalid_block_number))
          | inr miss ↦ ground (arith, pop_scan-AllInvalid es found (inv && is_invalid c))
        ]

module _ (locks : Locks) (horizon : ℕ) (calm : IsUndisturbed locks) where
  -- What a block that was taken leaves behind, before and after.
  abbrev pub TookOne : ℕ → ((FsmEntry → Bool) → ℕ) → ((FsmEntry → Bool) → ℕ) → Type 0
  TookOne b before after =
      (x : ℕ) × (b ≢ invalid_block_number)
      × (passes_visibility_horizon x horizon ≡ true)
      × ((q : FsmEntry → Bool) → after q + (if q (b, x) then 1 else 0) ≡ before q)

  pop_page-some :
      (last : Bool) (p : FsmPage) {b : ℕ}
      → (pop_page locks horizon last p).0 ≡ some b
      → TookOne b
          (λ q. tally_block q p.block)
          (λ q. tally_block q ((pop_page locks horizon last p).1).block)
  unfolding pop_page tally_block
  pop_page-some last p {b} h =
      let (x, v, t, c) =
        pop_scan-some horizon (p.block).entries true {b = b}
          (ground (arith, calm p.blockno p.block)) in
      (x, v, t, λ q. ground (arith, calm p.blockno p.block, c q))

  pop_page-none :
      (last : Bool) (p : FsmPage)
      → (pop_page locks horizon last p).0 ≡ none
      → (q : FsmEntry → Bool)
      → tally_block q ((pop_page locks horizon last p).1).block ≡ tally_block q p.block
  unfolding pop_page tally_block
  pop_page-none last p h q =
      ground (arith, calm p.blockno p.block, pop_scan-none horizon (p.block).entries true)

  pop-some :
      (ps : List FsmPage) {b : ℕ}
      → (pop locks horizon ps).0 ≡ some b
      → TookOne b (λ q. tracked q ps) (λ q. tracked q (pop locks horizon ps).1)
  unfolding pop tracked
  pop-some [] h = cc
  pop-some (p ∷ ps) {b} h = elim (Option-cases (pop_page locks horizon (is_last ps) p).0) [
    | inl n ↦
        let (x, v, t, c) = pop-some ps {b = b} (ground arith) in
        (x, v, t, λ q. ground (arith, c q, pop_page-none (is_last ps) p n q))
    | inr s ↦
        let (x, v, t, c) = pop_page-some (is_last ps) p {b = b} (ground (arith, s.1)) in
        (x, v, t, λ q. ground (arith, s.1, c q))
  ]

  pop-none :
      (q : FsmEntry → Bool) (ps : List FsmPage)
      → (pop locks horizon ps).0 ≡ none
      → tracked q (pop locks horizon ps).1 ≡ tracked q ps
  unfolding pop tracked
  pop-none q [] h = refl
  pop-none q (p ∷ ps) h = elim (Option-cases (pop_page locks horizon (is_last ps) p).0) [
    | inl n ↦ ground (arith, pop-none q ps, pop_page-none (is_last ps) p n q)
    | inr s ↦ ground (arith, s.1)
  ]

  abbrev pub recyclable_entry : FsmEntry → Bool
  recyclable_entry e = passes_visibility_horizon e.1 horizon

  pop_page-none_complete :
      (last : Bool) (p : FsmPage)
      → locks.granted p.blockno ≡ true
      → ((p.block).empty ≡ true → AllInvalid (p.block).entries)
      → (pop_page locks horizon last p).0 ≡ none
      → tally_block recyclable_entry p.block ≡ 0
  unfolding pop_page tally_block
  pop_page-none_complete last p g i h = ground (
    arith,
    calm p.blockno p.block,
    pop_scan-none horizon (p.block).entries true,
    tally-AllInvalid recyclable_entry (p.block).entries,
  )

  pop-none_complete :
      (ps : List FsmPage)
      → ((b : ℕ) → locks.granted b ≡ true)
      → IsHinted ps
      → (pop locks horizon ps).0 ≡ none
      → tracked recyclable_entry ps ≡ 0
  unfolding pop tracked
  pop-none_complete [] g i h = refl
  pop-none_complete (p ∷ ps) g i h = elim (Option-cases (pop_page locks horizon (is_last ps) p).0) [
    | inl n ↦ ground (
      arith,
      pop_page-none_complete (is_last ps) p (g p.blockno) i.0 n,
      pop-none_complete ps g i.1,
    )
    | inr s ↦ ground (arith, s.1)
  ]

  pop_page-IsHinted :
      (last : Bool) (p : FsmPage)
      → ((p.block).empty ≡ true → AllInvalid (p.block).entries)
      → (((pop_page locks horizon last p).1).block).empty ≡ true
      → AllInvalid (((pop_page locks horizon last p).1).block).entries
  unfolding pop_page
  pop_page-IsHinted last p i =
      ground
        (arith, calm p.blockno p.block, pop_scan-AllInvalid horizon (p.block).entries none true)

  pop-IsHinted : (ps : List FsmPage) → IsHinted ps → IsHinted (pop locks horizon ps).1
  unfolding pop
  pop-IsHinted [] i = tt
  pop-IsHinted (p ∷ ps) i = elim (Bool-cases (is_some (pop_page locks horizon (is_last ps) p).0)) [
    | inl s ↦ rw s (pop_page-IsHinted (is_last ps) p i.0, i.1)
    | inr n ↦ rw n (pop_page-IsHinted (is_last ps) p i.0, pop-IsHinted ps i.1)
  ]

  -- Where no other backend changes a page in between, but whichever conditional locks are granted:
  -- a block that `pop` returns was tracked by a valid entry whose transaction id passes the horizon,
  -- and of all the tracked entries exactly that one is gone afterwards. If it returns none, all are
  -- still there. Pages marked empty stay truly empty; and if every lock is granted, then none means
  -- that no tracked entry passes the horizon.
  pub pop_lem :
      (ps : List FsmPage)
      → IsHinted ps
      → ((b : ℕ)
          → (pop locks horizon ps).0 ≡ some b
          → TookOne b (λ q. tracked q ps) (λ q. tracked q (pop locks horizon ps).1))
        × ((pop locks horizon ps).0 ≡ none
            → ((q : FsmEntry → Bool) → tracked q (pop locks horizon ps).1 ≡ tracked q ps)
              × (((b : ℕ) → locks.granted b ≡ true) → tracked recyclable_entry ps ≡ 0))
        × IsHinted (pop locks horizon ps).1
  pop_lem ps i = (
    λ b h. pop-some ps h,
    λ h. (λ q. pop-none q ps h, λ g. pop-none_complete ps g i h),
    pop-IsHinted ps i,
  )
