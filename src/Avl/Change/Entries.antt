-- ===== src/Avl/Change/Entries.antt =====
-- The map that a tree stands for: its entries in order, and what insertion and removal do to them.
use paradedb.Common.{
  ℕ, ◌<◌, ◌≡◌, ◌≢◌, refl, sym, ap, inl, inr, true, false, Option, none, some, List, [], ◌∷◌, ◌++◌,
  map, contains, All, ◌==◌, ==→eq, ==_refl, ltb, if◌then◌else◌, Bool-cases, arith,
}
use paradedb.Avl.{Arena}
use paradedb.Avl.Tree.{key_at, All-contains}
use paradedb.Avl.Iter.Inorder.{IsAscending}
use paradedb.Avl.Change.Insert.{Stores}

-- The entry at an index, with its tag.
abbrev pub entry_at {ℓ} : {V T : Type ℓ} → Arena V T → ℕ → ℕ × (V × T)
entry_at a i = ((a.slot i).key, ((a.slot i).val, (a.slot i).tag))

abbrev pub entries {ℓ} : {V T : Type ℓ} → Arena V T → List ℕ → List (ℕ × (V × T))
entries a is = map (entry_at a) is

module _ {ℓ} {A : Type ℓ} where
  -- The value of a key among entries in order.
  unfoldable pub lookup : ℕ → List (ℕ × A) → Option A
  lookup key [] = none
  lookup key ((k, v) ∷ es) = if key == k then some v else lookup key es

  -- An entry is put at its place, or in the place of the one with its key.
  unfoldable pub insert_entry : ℕ → A → List (ℕ × A) → List (ℕ × A)
  insert_entry key val [] = (key, val) ∷ []
  insert_entry key val ((k, v) ∷ es) =
      let rest = insert_entry key val es in
      if key == k
      then (key, val) ∷ es
      else if ltb key k
      then (key, val) ∷ (k, v) ∷ es
      else (k, v) ∷ rest

module _ {ℓ} {V T : Type ℓ} where
  pub lookup-absent :
      (a : Arena V T) (key : ℕ) (is : List ℕ)
      → All (λ j. key_at a j ≢ key) is
      → lookup key (entries a is) ≡ none
  unfolding lookup
  lookup-absent a key [] h = refl
  lookup-absent a key (i ∷ is) (h, hs) = ground (arith, lookup-absent a key is hs)

  pub lookup-present :
      (a : Arena V T) (key i : ℕ) (is : List ℕ)
      → IsAscending a is
      → contains i is ≡ true
      → key_at a i ≡ key
      → lookup key (entries a is) ≡ some ((a.slot i).val, (a.slot i).tag)
  unfolding lookup
  lookup-present a key i [] h c k = cc
  lookup-present a key i (x ∷ is) (lo, h) c k = elim (Bool-cases (i == x)) [
    | inl e ↦ rw (sym (==→eq i x e)) (rw k (rw (==_refl key)))
    | inr e ↦
        let later : contains i is ≡ true = ground (arith) in
        let below : key_at a x < key_at a i =
          All-contains (λ j. key_at a x < key_at a j) i is lo later in
        ground (arith, lookup-present a key i is h later k)
  ]

  -- The entries at indices apart from the one that is written.
  pub entries-apart :
      (a b : Arena V T) (i key : ℕ) (val : V) (is : List ℕ)
      → Stores a b i key val
      → contains i is ≡ false
      → entries b is ≡ entries a is
  entries-apart a b i key val [] s c = refl
  entries-apart a b i key val (x ∷ is) s c =
      let other : (x == i) ≡ false = ground (arith, c) in
      rw (s.keys x other) (
        rw (s.vals x other) (
          rw (s.tags x)
            (ap (λ es. entry_at a x ∷ es) (entries-apart a b i key val is s (ground (arith, c))))))

  ascending-avoids :
      (a : Arena V T) (x : ℕ) (is : List ℕ)
      → All (λ j. key_at a x < key_at a j) is
      → contains x is ≡ false
  ascending-avoids a x [] h = refl
  ascending-avoids a x (y ∷ is) h = ground (arith, ascending-avoids a x is h.1, h.0)

  pub entries-replaced :
      (a b : Arena V T) (i key : ℕ) (val : V) (is : List ℕ)
      → Stores a b i key val
      → IsAscending a is
      → contains i is ≡ true
      → key_at a i ≡ key
      → entries b is ≡ insert_entry key (val, (a.slot i).tag) (entries a is)
  unfolding insert_entry
  entries-replaced a b i key val [] s h c k = cc
  entries-replaced a b i key val (x ∷ is) s (lo, h) c k = elim (Bool-cases (i == x)) [
    | inl e ↦ rw (sym (==→eq i x e)) (
        rw (s.new_key) (
          rw (s.new_val) (
            rw (s.tags i) (
              rw k (
                rw (==_refl key) (
                  ap (λ es. (key, (val, (a.slot i).tag)) ∷ es)
                    (entries-apart a b i key val is s
                      (rw (==→eq i x e) (ascending-avoids a x is lo)))))))))
    | inr e ↦
        let later : contains i is ≡ true = ground (arith) in
        let below : key_at a x < key_at a i =
          All-contains (λ j. key_at a x < key_at a j) i is lo later in
        let other : (x == i) ≡ false = ground (arith, e) in
        rw (s.keys x other) (
          rw (s.vals x other)
            (rw (s.tags x) (rw (entries-replaced a b i key val is s h later k) (ground arith))))
  ]

  pub entries-added :
      (a b : Arena V T) (i key : ℕ) (val : V) (xs ys : List ℕ)
      → Stores a b i key val
      → contains i xs ≡ false
      → contains i ys ≡ false
      → All (λ j. key_at a j < key) xs
      → All (λ j. key < key_at a j) ys
      → entries b (xs ++ i ∷ ys) ≡ insert_entry key (val, (a.slot i).tag) (entries a (xs ++ ys))
  unfolding insert_entry
  entries-added a b i key val [] [] s c d lo hi = rw (s.new_key) (rw (s.new_val) (rw (s.tags i)))
  entries-added a b i key val [] (y ∷ ys) s c d lo hi = rw (s.new_key) (
      rw (s.new_val)
        (rw (s.tags i) (rw (entries-apart a b i key val (y ∷ ys) s d) (ground (arith, hi.0)))))
  entries-added a b i key val (x ∷ xs) ys s c d lo hi =
      let other : (x == i) ≡ false = ground (arith, c) in
      rw (s.keys x other) (
        rw (s.vals x other) (
          rw (s.tags x) (
            rw (entries-added a b i key val xs ys s (ground (arith, c)) d lo.1 hi)
              (ground (arith, lo.0)))))
