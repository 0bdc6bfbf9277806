-- ===== src/MergePolicy/Trim.antt =====
-- The loop that removes short candidates and starts over is a filter.
use paradedb.Common.{
  ℕ, zero, suc, ◌≤◌, ◌≡◌, refl, none, some, List, [], ◌∷◌, length, keep, Bool-cases, Option-cases,
  inl, inr, arith,
}
use paradedb.MergePolicy.{Entries, Candidate, stays, remove_first_short, trim}

module _ (es : Entries) (m : ℕ) where
  remove_first_short-none :
      (cs : List Candidate) → remove_first_short es m cs ≡ none → keep (stays es m) cs ≡ cs
  unfolding remove_first_short
  remove_first_short-none [] h = refl
  remove_first_short-none (c ∷ cs) h = ground (arith, remove_first_short-none cs)

  remove_first_short-some :
      (cs ds : List Candidate)
      → remove_first_short es m cs ≡ some ds
      → (keep (stays es m) ds ≡ keep (stays es m) cs) × (length cs ≡ suc (length ds))
  unfolding remove_first_short
  remove_first_short-some [] ds h = cc
  remove_first_short-some (c ∷ cs) ds h = elim (Bool-cases (stays es m c)) [
    | inl s ↦ elim (Option-cases (remove_first_short es m cs)) [
      | inl n ↦ ground arith
      | inr r ↦ let (ds', e) = r in ground (arith, remove_first_short-some cs ds' e)
    ]
    | inr s ↦ ground arith
  ]

  -- With as many rounds as there are candidates, the loop ends with exactly the candidates that
  -- stay, in their order.
  pub trim-eq-keep :
      (fuel : ℕ) (cs : List Candidate) → length cs ≤ fuel → trim es m fuel cs ≡ keep (stays es m) cs
  unfolding trim
  trim-eq-keep zero [] h = refl
  trim-eq-keep zero (c ∷ cs) h = absurd (omega arith)
  trim-eq-keep (suc fuel) cs h = elim (Option-cases (remove_first_short es m cs)) [
    | inl n ↦ ground (arith, remove_first_short-none cs)
    | inr r ↦
        let (ds, e) = r in ground (arith, remove_first_short-some cs ds e, trim-eq-keep fuel ds)
  ]
