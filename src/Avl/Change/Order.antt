-- ===== src/Avl/Change/Order.antt =====
-- The order of a tree read off its nodes in order, and kept by insertion.
use paradedb.Common.{
  ℕ, ◌<◌, ◌≡◌, sym, ◌∙◌, true, false, List, [], ◌∷◌, ◌++◌, contains, All, ◌==◌, ==→eq, Bool-cases,
  inl, inr, arith,
}
use paradedb.Avl.{Arena}
use paradedb.Avl.Tree.{Tree, leaf, node, inorder, key_at, IsOrdered}
use paradedb.Avl.Iter.Inorder.{IsAscending, IsAscending-append}
use paradedb.Avl.Change.Insert.{Stores}

pub apart :
    (j i : ℕ) (is : List ℕ) → contains j is ≡ true → contains i is ≡ false → (j == i) ≡ false
apart j i is m c = elim (Bool-cases (j == i)) [
  | inl e ↦ absurd (ground (arith, rw (==→eq j i e) at m, c))
  | inr e ↦ e
]

pub different :
    (j i : ℕ) (is : List ℕ) → contains j is ≡ false → contains i is ≡ true → (j == i) ≡ false
different j i is m c = elim (Bool-cases (j == i)) [
  | inl e ↦ absurd (ground (arith, rw (==→eq j i e) at m, c))
  | inr e ↦ e
]

All-split : (P : ℕ → Type 0) (xs ys : List ℕ) → All P (xs ++ ys) → All P xs × All P ys
All-split P [] ys h = (tt, h)
All-split P (x ∷ xs) ys h = let (p, q) = All-split P xs ys h.1 in ((h.0, p), q)

module _ {ℓ} {V T : Type ℓ} where
  pub IsAscending-split :
      (a : Arena V T) (xs ys : List ℕ)
      → IsAscending a (xs ++ ys)
      → IsAscending a xs × IsAscending a ys
  IsAscending-split a [] ys h = (tt, h)
  IsAscending-split a (x ∷ xs) ys (hi, h) =
      let (up, rest) = IsAscending-split a xs ys h in
      (((All-split (λ j. key_at a x < key_at a j) xs ys hi).0, up), rest)

  pub IsAscending-parts :
      (a : Arena V T) (xs : List ℕ) (i : ℕ) (ys : List ℕ)
      → IsAscending a (xs ++ i ∷ ys)
      → IsAscending a xs
        × All (λ j. key_at a j < key_at a i) xs
        × All (λ j. key_at a i < key_at a j) ys
        × IsAscending a ys
  IsAscending-parts a [] i ys h = (tt, tt, h.0, h.1)
  IsAscending-parts a (x ∷ xs) i ys (hi, h) =
      let (up, lo, above, rest) = IsAscending-parts a xs i ys h in
      let (near, far) = All-split (λ j. key_at a x < key_at a j) xs (i ∷ ys) hi in
      ((near, up), (far.0, lo), above, rest)

  pub IsAscending-IsOrdered : (a : Arena V T) (t : Tree) → IsAscending a (inorder t) → IsOrdered a t
  unfolding IsOrdered inorder
  IsAscending-IsOrdered a leaf h = tt
  IsAscending-IsOrdered a (node i t u) h =
      let (up, lo, hi, rest) = IsAscending-parts a (inorder t) i (inorder u) h in
      (lo, hi, IsAscending-IsOrdered a t up, IsAscending-IsOrdered a u rest)

  All-keys :
      (a b : Arena V T) (P : ℕ → Type 0) (is : List ℕ)
      → ((j : ℕ) → contains j is ≡ true → key_at b j ≡ key_at a j)
      → All (λ j. P (key_at a j)) is
      → All (λ j. P (key_at b j)) is
  All-keys a b P [] e h = tt
  All-keys a b P (i ∷ is) e h =
      (rw (e i (ground arith)) h.0, All-keys a b P is (λ j m. e j (ground (arith, m))) h.1)

  -- The keys at these indices are the same in both arenas.
  pub IsAscending-keys :
      (a b : Arena V T) (is : List ℕ)
      → ((j : ℕ) → contains j is ≡ true → key_at b j ≡ key_at a j)
      → IsAscending a is
      → IsAscending b is
  IsAscending-keys a b [] e h = tt
  IsAscending-keys a b (i ∷ is) e (lo, h) = (
    rw (e i (ground arith))
        (All-keys a b (λ k. key_at a i < k) is (λ j m. e j (ground (arith, m))) lo),
    IsAscending-keys a b is (λ j m. e j (ground (arith, m))) h,
  )

  pub IsAscending-replaced :
      (a b : Arena V T) (i key : ℕ) (val : V) (is : List ℕ)
      → Stores a b i key val
      → key_at a i ≡ key
      → IsAscending a is
      → IsAscending b is
  IsAscending-replaced a b i key val is s k h =
      IsAscending-keys a b is
        (λ j m. elim (Bool-cases (j == i)) [
          | inl e ↦ rw (==→eq j i e) (s.new_key ∙ sym k)
          | inr e ↦ s.keys j e
        ])
        h

  pub IsAscending-added :
      (a b : Arena V T) (i key : ℕ) (val : V) (xs ys : List ℕ)
      → Stores a b i key val
      → contains i xs ≡ false
      → contains i ys ≡ false
      → All (λ j. key_at a j < key) xs
      → All (λ j. key < key_at a j) ys
      → IsAscending a (xs ++ ys)
      → IsAscending b (xs ++ i ∷ ys)
  IsAscending-added a b i key val xs ys s c d lo hi h =
      let (up, rest) = IsAscending-split a xs ys h in
      let on_xs : (j : ℕ) → contains j xs ≡ true → key_at b j ≡ key_at a j =
        λ j m. s.keys j (apart j i xs m c) in
      let on_ys : (j : ℕ) → contains j ys ≡ true → key_at b j ≡ key_at a j =
        λ j m. s.keys j (apart j i ys m d) in
      IsAscending-append b xs i ys (IsAscending-keys a b xs on_xs up)
        (rw (s.new_key) (All-keys a b (λ k. k < key) xs on_xs lo))
        (rw (s.new_key) (All-keys a b (λ k. key < k) ys on_ys hi))
        (IsAscending-keys a b ys on_ys rest)
