-- ===== src/FreeSpace/V1/Drain.antt =====
-- `drain` takes up to `n` recyclable blocks off the chain.
use mathlib.Core.List.{append-nil, append_assoc}
use paradedb.Common.{
  ℕ, ◌+◌, ◌≤◌, ◌≡◌, ◌≢◌, refl, sym, ap, ◌∙◌, Bool, true, false, not, ◌&&◌, ◌||◌, List, [], ◌∷◌,
  ◌++◌, length, length-append, All, All-append, ltb, Bool-cases, inl, inr, arith,
}
use paradedb.Segment.Meta.{invalid_block_number}
use paradedb.FreeSpace.V1.{
  FsmEntry, FsmPage, Locks, is_v0, is_invalid, passes_visibility_horizon, drain_scan, drain_page,
  drain_from, drain,
}
use paradedb.FreeSpace.V1.Tracked.{tally, tally-append, tally_block, tracked, IsUndisturbed}

abbrev pub blocks_of : List FsmEntry → List ℕ
blocks_of [] = []
blocks_of (e ∷ es) = e.0 ∷ blocks_of es

blocks_of-append : (xs ys : List FsmEntry) → blocks_of (xs ++ ys) ≡ blocks_of xs ++ blocks_of ys
blocks_of-append [] ys = refl
blocks_of-append (x ∷ xs) ys = ap (λ t. x.0 ∷ t) (blocks_of-append xs ys)

module _ (horizon n : ℕ) where
  -- A valid entry whose transaction id passes the horizon.
  abbrev pub IsRecyclable : FsmEntry → Type 0
  IsRecyclable e = (e.0 ≢ invalid_block_number) × (passes_visibility_horizon e.1 horizon ≡ true)

  -- From `blocks` on, the entries `ds` were drained: their blocks are the new ones, they were
  -- tracked before, and the others still are.
  abbrev pub Drained : List ℕ → List ℕ → ((FsmEntry → Bool) → ℕ) → ((FsmEntry → Bool) → ℕ) → Type 0
  Drained blocks result before after =
      (ds : List FsmEntry) × (result ≡ blocks ++ blocks_of ds)
      × All IsRecyclable ds
      × ((q : FsmEntry → Bool) → after q + tally q ds ≡ before q)
      × (length blocks ≤ n → length result ≤ n)

  drain_scan_lem :
      (blocks : List ℕ) (es : List FsmEntry) (inv : Bool)
      → Drained blocks
          (drain_scan horizon n blocks es inv).0
          (λ q. tally q es)
          (λ q. tally q (drain_scan horizon n blocks es inv).2)
  unfolding drain_scan
  drain_scan_lem blocks [] inv = ([], sym (append-nil blocks), tt, λ q. omega arith, λ h. h)
  drain_scan_lem blocks ((b, x) ∷ es) inv =
      elim (Bool-cases
        (ltb (length blocks) n && (not (is_invalid b) && passes_visibility_horizon x horizon))) [
          | inl hit ↦
              let (ds, r, a, c, l) =
                drain_scan_lem (blocks ++ b ∷ []) es (inv && is_invalid invalid_block_number) in
              (
                (b, x) ∷ ds,
                rw hit (r ∙ append_assoc blocks (b ∷ []) (blocks_of ds)),
                ((ground arith, ground arith), a),
                λ q. ground (arith, c q),
                λ h. rw hit (l (ground (arith, length-append blocks (b ∷ [])))),
              )
          | inr miss ↦
              let (ds, r, a, c, l) = drain_scan_lem blocks es (inv && is_invalid b) in
              (ds, rw miss r, a, λ q. ground (arith, c q), λ h. rw miss (l h))
        ]

  Drained-same :
      (blocks : List ℕ) (before after : (FsmEntry → Bool) → ℕ)
      → ((q : FsmEntry → Bool) → after q ≡ before q)
      → Drained blocks blocks before after
  Drained-same blocks before after e =
      ([], sym (append-nil blocks), tt, λ q. omega (arith, e q), λ h. h)

module _ (locks : Locks) (horizon n : ℕ) (calm : IsUndisturbed locks) where
  -- A round that does not get as far as the entries changes nothing.
  drain_page-skip :
      (blocks : List ℕ) (p : FsmPage)
      → ((is_v0 p.block || ((p.block).empty || not (locks.granted p.blockno))) ≡ true)
      → ((drain_page locks horizon n blocks p).0 ≡ blocks)
        × ((q : FsmEntry → Bool)
            → tally_block q ((drain_page locks horizon n blocks p).2).block ≡ tally_block q p.block)
  unfolding drain_page
  drain_page-skip blocks p h =
      (ground (arith, calm p.blockno p.block), λ q. ground (arith, calm p.blockno p.block))

  drain_page-scan :
      (blocks : List ℕ) (p : FsmPage)
      → ((is_v0 p.block || ((p.block).empty || not (locks.granted p.blockno))) ≡ false)
      → ((drain_page locks horizon n blocks p).0
          ≡ (drain_scan horizon n blocks (p.block).entries true).0)
        × ((q : FsmEntry → Bool)
            → (tally_block q ((drain_page locks horizon n blocks p).2).block
                ≡ tally q (drain_scan horizon n blocks (p.block).entries true).2)
              × (tally_block q p.block ≡ tally q (p.block).entries))
  unfolding drain_page tally_block
  drain_page-scan blocks p h =
      (ground (arith, calm p.blockno p.block), λ q. ground (arith, calm p.blockno p.block))

  drain_page_lem :
      (blocks : List ℕ) (p : FsmPage)
      → Drained horizon n blocks
          (drain_page locks horizon n blocks p).0
          (λ q. tally_block q p.block)
          (λ q. tally_block q ((drain_page locks horizon n blocks p).2).block)
  drain_page_lem blocks p =
      elim (Bool-cases (is_v0 p.block || ((p.block).empty || not (locks.granted p.blockno)))) [
        | inl skip ↦
            let (same, kept) = drain_page-skip blocks p skip in
            rw same (Drained-same horizon n blocks _ _ kept)
        | inr scan ↦
            let (read, kept) = drain_page-scan blocks p scan in
            let (ds, r, a, c, l) = drain_scan_lem horizon n blocks (p.block).entries true in
            (ds, read ∙ r, a, λ q. omega (arith, c q, kept q), λ h. rw read (l h))
      ]

  Drained-trans :
      (xs ys zs : List ℕ) (f g h k : (FsmEntry → Bool) → ℕ)
      → Drained horizon n xs ys f g
      → Drained horizon n ys zs h k
      → Drained horizon n xs zs (λ q. f q + h q) (λ q. g q + k q)
  Drained-trans xs ys zs f g h k (ds, r, a, c, l) (es, r', a', c', l') = (
    ds ++ es,
    r'
        ∙ ap (λ t. t ++ blocks_of es) r
        ∙ append_assoc xs (blocks_of ds) (blocks_of es)
        ∙ ap (λ t. xs ++ t) (sym (blocks_of-append ds es)),
    All-append (IsRecyclable horizon n) ds es a a',
    λ q. omega (arith, tally-append q ds es, c q, c' q),
    λ m. l' (l m),
  )

  Drained-more :
      (xs ys : List ℕ) (f g k : (FsmEntry → Bool) → ℕ)
      → Drained horizon n xs ys f g
      → Drained horizon n xs ys (λ q. f q + k q) (λ q. g q + k q)
  Drained-more xs ys f g k (ds, r, a, c, l) = (ds, r, a, λ q. omega (arith, c q), l)

  drain_from_lem :
      (blocks : List ℕ) (ps : List FsmPage)
      → Drained horizon n blocks
          (drain_from locks horizon n blocks ps).0
          (λ q. tracked q ps)
          (λ q. tracked q (drain_from locks horizon n blocks ps).1)
  unfolding drain_from tracked
  drain_from_lem blocks [] = Drained-same horizon n blocks _ _ (λ q. refl)
  drain_from_lem blocks (p ∷ ps) =
      let one = drain_page_lem blocks p in
      let rest = drain_from_lem (drain_page locks horizon n blocks p).0 ps in
      elim (Bool-cases (drain_page locks horizon n blocks p).1) [
        | inl done ↦ rw done (Drained-more _ _ _ _ (λ q. tracked q ps) one)
        | inr more ↦ rw more (Drained-trans _ _ _ _ _ _ _ one rest)
      ]

  -- Where no other backend changes a page in between, but whichever conditional locks are granted,
  -- `drain` returns at most `n` blocks: those of entries that were tracked, each valid and past the
  -- horizon; of all the tracked entries exactly these are gone afterwards.
  pub drain_lem :
      (ps : List FsmPage)
      → (ds : List FsmEntry) × ((drain locks horizon n ps).0 ≡ blocks_of ds)
        × (length (drain locks horizon n ps).0 ≤ n)
        × All (IsRecyclable horizon n) ds
        × ((q : FsmEntry → Bool)
            → tracked q (drain locks horizon n ps).1 + tally q ds ≡ tracked q ps)
  unfolding drain
  drain_lem ps = let (ds, r, a, c, l) = drain_from_lem [] ps in (ds, r, l (omega arith), a, c)
