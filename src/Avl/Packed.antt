-- ===== src/Avl/Packed.antt =====
-- Links, heights and flags packed into the words of a slot.
use paradedb.Common.{ℕ, ◌+◌, ◌<◌, ◌≡◌, refl, Bool, none, some, arith}
use paradedb.Avl.{Slot, u16_mod, is_used, set_used, height, set_height, l, r, set_l, set_r}

module _ {ℓ} {V T : Type ℓ} where
  -- A link below 2 ^ 16 - 1 reads back as it was written; the largest index of an arena of 2 ^ 16
  -- slots would read back as no link. Neither link disturbs the other, nor do a height below 128
  -- and the flag, in a byte, and each of those reads back too.
  pub slot_roundtrip :
      (n : Slot V T) (i h : ℕ) (u : Bool)
      → i + 1 < u16_mod
      → h < 128
      → n.meta < 256
      → ((l (set_l n (some i)) ≡ some i)
          × (l (set_l n none) ≡ none)
          × (l (set_l n (some 65535)) ≡ none)
          × (r (set_l n (some i)) ≡ r n))
        × ((r (set_r n (some i)) ≡ some i)
            × (r (set_r n none) ≡ none)
            × (l (set_r n (some i)) ≡ l n))
        × ((height (set_height n h) ≡ h)
            × (is_used (set_height n h) ≡ is_used n)
            × (height (set_used n u) ≡ height n)
            × (is_used (set_used n u) ≡ u))
  unfolding l r set_l set_r height set_height is_used set_used
  slot_roundtrip n i h u b c d = (
    (ground arith, refl, refl, refl),
    (ground arith, refl, refl),
    (omega arith, ground arith, ground arith, ground arith),
  )
