-- ===== src/LinkedItems/Search.antt =====
-- `lookup_ex`: the first match of the list, with a location that leads back to it.
use paradedb.Common.{
  ℕ, zero, suc, ◌+◌, ◌≡◌, refl, ◌∙◌, Bool, Option, none, some, List, [], ◌∷◌, ◌++◌, arith,
  if◌then◌else◌, ◌<◌, inl, inr, Bool-cases,
}
use paradedb.LinkedItems.{Page, list, find_on_page, lookup_ex}

module _ {ℓ} {T : Type ℓ} where
  -- What the list holds first, as seen by a test.
  abbrev pub first : (T → Bool) → List T → Option T
  first cmp [] = none
  first cmp (x ∷ xs) = let rest = first cmp xs in if cmp x then some x else rest

  -- The item at an offset of the first page that has a block number; offsets start at 1.
  abbrev pub item_at : ℕ → List T → Option T
  item_at i [] = none
  item_at zero (x ∷ xs) = none
  item_at (suc zero) (x ∷ xs) = some x
  item_at (suc (suc i)) (x ∷ xs) = item_at (suc i) xs

  abbrev value_of : Option (T × ℕ) → Option T
  value_of none = none
  value_of (some (x, i)) = some x

  find_on_page-first :
      (cmp : T → Bool) (i : ℕ) (xs : List T) → value_of (find_on_page cmp i xs) ≡ first cmp xs
  unfolding find_on_page
  find_on_page-first cmp i [] = refl
  find_on_page-first cmp i (x ∷ xs) = ground (arith, find_on_page-first cmp (suc i) xs)

  first-append :
      (cmp : T → Bool) (xs ys : List T)
      → first cmp (xs ++ ys) ≡ elim (first cmp xs) [ none ↦ first cmp ys | some x ↦ some x ]
  first-append cmp [] ys = refl
  first-append cmp (x ∷ xs) ys = ground (arith, first-append cmp xs ys)

  abbrev pub found_value : Option (T × ℕ × ℕ) → Option T
  found_value none = none
  found_value (some (x, b, i)) = some x

  lookup_ex-first :
      (cmp : T → Bool) (ps : List (Page T)) → found_value (lookup_ex cmp ps) ≡ first cmp (list ps)
  unfolding lookup_ex list
  lookup_ex-first cmp [] = refl
  lookup_ex-first cmp (p ∷ ps) = ground (
    arith,
    find_on_page-first cmp 1 p.items,
    first-append cmp p.items (list ps),
    lookup_ex-first cmp ps,
  )

  -- `x` stands at an offset of a page with block number `b`.
  pub data Located (x : T) (b offsetno : ℕ) : List (Page T) → Type ℓ where
    here :
        (p : Page T) (ps : List (Page T))
        → p.blockno ≡ b
        → item_at offsetno p.items ≡ some x
        → Located x b offsetno (p ∷ ps)
    there :
        (p : Page T) {ps : List (Page T)} → Located x b offsetno ps → Located x b offsetno (p ∷ ps)

  item_at-cons : (x : T) (i : ℕ) (xs : List T) → 0 < i → item_at (suc i) (x ∷ xs) ≡ item_at i xs
  item_at-cons x zero xs h = absurd (omega arith)
  item_at-cons x (suc i) xs h = refl

  -- An offset counted from `i + 1` is one counted from 1, moved by `i`.
  find_on_page-item_at :
      (cmp : T → Bool) (i : ℕ) (xs : List T) {x : T} {o : ℕ}
      → find_on_page cmp (suc i) xs ≡ some (x, o)
      → (n : ℕ) × (o ≡ n + i) × (0 < n) × (item_at n xs ≡ some x)
  unfolding find_on_page
  find_on_page-item_at cmp i [] h = cc
  find_on_page-item_at cmp i (x ∷ xs) {x = y} {o = o} h = elim (Bool-cases (cmp x)) [
    | inl hit ↦ (1, ground arith, omega arith, ground arith)
    | inr miss ↦
        let (n, e, pos, at) = find_on_page-item_at cmp (suc i) xs {x = y} {o = o} (ground arith) in
        (suc n, omega arith, omega arith, item_at-cons x n xs pos ∙ at)
  ]

  lookup_ex-Located :
      (cmp : T → Bool) (ps : List (Page T)) {x : T} {b o : ℕ}
      → lookup_ex cmp ps ≡ some (x, b, o)
      → Located x b o ps
  unfolding lookup_ex
  lookup_ex-Located cmp [] h = cc
  lookup_ex-Located cmp (p ∷ ps) {x} {b} {o} h =
      by_page (find_on_page cmp 1 p.items) refl (lookup_ex-Located cmp ps)
    where
      by_page :
          (r : Option (T × ℕ))
          → find_on_page cmp 1 p.items ≡ r
          → (lookup_ex cmp ps ≡ some (x, b, o) → Located x b o ps)
          → Located x b o (p ∷ ps)
      by_page none e rest = there p (rest (ground arith))
      by_page (some (y, i)) e rest =
          let (n, moved, pos, at) = find_on_page-item_at cmp 0 p.items e in
          let same : o ≡ n = ground arith in here p ps (ground arith) (rw same (at ∙ ground arith))

  -- `lookup_ex` fails exactly when no item of the list matches. Otherwise it returns the first
  -- match of the list, and a block number and an offset at which that item stands.
  pub lookup_ex_lem :
      (cmp : T → Bool) (ps : List (Page T))
      → (found_value (lookup_ex cmp ps) ≡ first cmp (list ps))
        × ((x : T) (b o : ℕ) → lookup_ex cmp ps ≡ some (x, b, o) → Located x b o ps)
  lookup_ex_lem cmp ps = (lookup_ex-first cmp ps, λ x b o h. lookup_ex-Located cmp ps h)
