-- ===== src/Avl/Remove/Entries.antt =====
-- Removal from entries in order.
use paradedb.Common.{
  ℕ, ◌≡◌, ◌≢◌, refl, none, some, List, [], ◌∷◌, ◌++◌, All, ◌==◌, ==_refl, if◌then◌else◌, arith,
}
use paradedb.Avl.{Arena}
use paradedb.Avl.Tree.{key_at}
use paradedb.Avl.Change.Entries.{lookup}
use paradedb.Avl.Change.Entries.{entries}

module _ {ℓ} {A : Type ℓ} where
  -- The entry of a key is taken out.
  unfoldable pub remove_entry : ℕ → List (ℕ × A) → List (ℕ × A)
  remove_entry key [] = []
  remove_entry key ((k, v) ∷ es) =
      let rest = remove_entry key es in if key == k then es else (k, v) ∷ rest

  abbrev pub Lacks : ℕ → List (ℕ × A) → Type 0
  Lacks key [] = Unit
  Lacks key ((k, v) ∷ es) = (k ≢ key) × Lacks key es

  Lacks-remove : (key : ℕ) (es : List (ℕ × A)) → Lacks key es → remove_entry key es ≡ es
  unfolding remove_entry
  Lacks-remove key [] h = refl
  Lacks-remove key ((k, v) ∷ es) (n, h) = rw (Lacks-remove key es h) (ground arith)

  Lacks-lookup : (key : ℕ) (es : List (ℕ × A)) → Lacks key es → lookup key es ≡ none
  unfolding lookup
  Lacks-lookup key [] h = refl
  Lacks-lookup key ((k, v) ∷ es) (n, h) = ground (arith, Lacks-lookup key es h)

  -- The entry is on one side.
  pub remove-on_left :
      (key : ℕ) (es ds : List (ℕ × A))
      → Lacks key ds
      → (remove_entry key (es ++ ds) ≡ remove_entry key es ++ ds)
        × (lookup key (es ++ ds) ≡ lookup key es)
  unfolding remove_entry lookup
  remove-on_left key [] ds h = (Lacks-remove key ds h, Lacks-lookup key ds h)
  remove-on_left key ((k, v) ∷ es) ds h =
      let (p, q) = remove-on_left key es ds h in (rw p (ground arith), rw q (ground arith))

  pub remove-on_right :
      (key : ℕ) (es ds : List (ℕ × A))
      → Lacks key es
      → (remove_entry key (es ++ ds) ≡ es ++ remove_entry key ds)
        × (lookup key (es ++ ds) ≡ lookup key ds)
  unfolding remove_entry lookup
  remove-on_right key [] ds h = (refl, refl)
  remove-on_right key ((k, v) ∷ es) ds (n, h) =
      let (p, q) = remove-on_right key es ds h in (rw p (ground arith), rw q (ground arith))

  pub remove-head :
      (key : ℕ) (v : A) (es : List (ℕ × A))
      → (remove_entry key ((key, v) ∷ es) ≡ es) × (lookup key ((key, v) ∷ es) ≡ some v)
  unfolding remove_entry lookup
  remove-head key v es = (rw (==_refl key), rw (==_refl key))

pub entries-Lacks {ℓ} :
    {V T : Type ℓ} (a : Arena V T) (key : ℕ) (is : List ℕ)
    → All (λ j. key_at a j ≢ key) is
    → Lacks {A = V × T} key (entries a is)
entries-Lacks a key [] h = tt
entries-Lacks a key (i ∷ is) (n, h) = (n, entries-Lacks a key is h)
