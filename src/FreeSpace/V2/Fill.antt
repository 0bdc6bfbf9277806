-- ===== src/FreeSpace/V2/Fill.antt =====
-- A page is filled with as many blocks as it has room for.
use paradedb.Common.{
  ℕ, ◌+◌, ◌≤◌, ◌<◌, ◌≡◌, refl, List, [], ◌∷◌, ◌++◌, length, length-append, count, count-append, ltb,
  Bool-cases, inl, inr, arith,
}
use paradedb.FreeSpace.V2.{fill_leaf}

-- The two parts that `fill_leaf` makes.
pub record Fills (room : ℕ) (entries extend_with entries' left : List ℕ) : Type 0 where
  pub kept : (b : ℕ) → count b entries' + count b left ≡ count b entries + count b extend_with
  pub fits : length entries ≤ room → length entries' ≤ room
  pub fewer : length left ≤ length extend_with
  pub some_fit : length entries < room → 0 < length extend_with → length left < length extend_with

pub fill_leaf_lem :
    (room : ℕ) (entries extend_with : List ℕ)
    → Fills room entries extend_with
        (fill_leaf room entries extend_with).0
        (fill_leaf room entries extend_with).1
unfolding fill_leaf
fill_leaf_lem room entries [] = record {
  kept = λ b. refl;
  fits = λ h. h;
  fewer = omega arith;
  some_fit = λ h k. absurd (omega arith);
}
fill_leaf_lem room entries (x ∷ xs) = elim (Bool-cases (ltb (length entries) room)) [
  | inl e ↦
      let s = fill_leaf_lem room (entries ++ x ∷ []) xs in
      let longer = length-append entries (x ∷ []) in
      rw e (record {
        kept = λ b. omega (arith, s.kept b, count-append b entries (x ∷ []));
        fits = λ h. s.fits (ground (arith, longer));
        fewer = omega (arith, s.fewer);
        some_fit = λ h k. omega (arith, s.fewer);
      })
  | inr e ↦ rw e (record {
    kept = λ b. refl;
    fits = λ h. h;
    fewer = omega arith;
    some_fit = λ h k. absurd (ground arith);
  })
]
