-- ===== src/Avl/Floor.antt =====
-- The greatest key that does not exceed a given one, and the greatest of all.
use mathlib.Core.Option
use paradedb.Common.{
  ℕ, zero, suc, ◌≤◌, ◌<◌, ◌≡◌, refl, ◌∙◌, ◌⊎◌, inl, inr, true, Option, none, some, List, [], ◌∷◌,
  ◌++◌, All, All-append, All-imp, contains, ltb, ltb→lt, Bool-cases, ok, arith,
}
use paradedb.Avl.{Arena, AvlTreeMapHeader, l, r, in_range, search_lte, get_lte}
use paradedb.Avl.Tree.{
  Tree, leaf, node, depth, inorder, key_at, Represents, IsOrdered, contains-left, contains-right,
  contains-middle, All-contains,
}

module _ {ℓ} {V T : Type ℓ} (a : Arena V T) where
  search_lte-eq :
      (fuel key i : ℕ) (best : Option ℕ)
      → in_range a i ≡ true
      → key ≡ key_at a i
      → search_lte a (suc fuel) key (some i) best ≡ some (ok (some i))
  unfolding search_lte
  search_lte-eq fuel key i best h e = ground arith

  search_lte-lt :
      (fuel key i : ℕ) (best : Option ℕ)
      → in_range a i ≡ true
      → key < key_at a i
      → search_lte a (suc fuel) key (some i) best ≡ search_lte a fuel key (l (a.slot i)) best
  unfolding search_lte
  search_lte-lt fuel key i best h e = ground arith

  search_lte-gt :
      (fuel key i : ℕ) (best : Option ℕ)
      → in_range a i ≡ true
      → key_at a i < key
      → search_lte a (suc fuel) key (some i) best ≡ search_lte a fuel key (r (a.slot i)) (some i)
  unfolding search_lte
  search_lte-gt fuel key i best h e = ground arith

  -- The index of the greatest key up to `key`.
  abbrev pub IsFloor : ℕ → List ℕ → ℕ → Type 0
  IsFloor key is i =
      (contains i is ≡ true)
      × (key_at a i ≤ key)
      × All (λ j. key_at a j ≤ key → key_at a j ≤ key_at a i) is

  -- The result of a search that starts with a best index.
  abbrev FloorOr : ℕ → List ℕ → Option ℕ → Option ℕ → Type 0
  FloorOr key is best found =
      ((found ≡ best) × All (λ j. key < key_at a j) is)
      ⊎ ((i : ℕ) × (found ≡ some i) × IsFloor key is i)

  FloorOr-left :
      (key i : ℕ) (xs ys : List ℕ) (best found : Option ℕ)
      → key < key_at a i
      → All (λ j. key_at a i < key_at a j) ys
      → FloorOr key xs best found
      → FloorOr key (xs ++ i ∷ ys) best found
  FloorOr-left key i xs ys best found h u (inl (e, f)) = inl (
    e,
    All-append (λ j. key < key_at a j) xs (i ∷ ys) f
        (
          h,
          All-imp (λ j. key_at a i < key_at a j) (λ j. key < key_at a j) (λ j k. omega arith) ys u,
        ),
  )
  FloorOr-left key i xs ys best found h u (inr (m, e, (c, k, f))) = inr (
    m,
    e,
    (
      contains-left m xs (i ∷ ys) c,
      k,
      All-append (λ j. key_at a j ≤ key → key_at a j ≤ key_at a m) xs (i ∷ ys) f
          (
            λ q. absurd (omega arith),
            All-imp (λ j. key_at a i < key_at a j) (λ j. key_at a j ≤ key → key_at a j ≤ key_at a m)
                (λ j p q. absurd (omega arith)) ys u,
          ),
    ),
  )

  FloorOr-right :
      (key i : ℕ) (xs ys : List ℕ) (best found : Option ℕ)
      → key_at a i < key
      → All (λ j. key_at a j < key_at a i) xs
      → All (λ j. key_at a i < key_at a j) ys
      → FloorOr key ys (some i) found
      → FloorOr key (xs ++ i ∷ ys) best found
  FloorOr-right key i xs ys best found h u v (inl (e, f)) = inr (
    i,
    e,
    (
      contains-middle i xs ys,
      omega arith,
      All-append (λ j. key_at a j ≤ key → key_at a j ≤ key_at a i) xs (i ∷ ys)
          (All-imp (λ j. key_at a j < key_at a i) (λ j. key_at a j ≤ key → key_at a j ≤ key_at a i)
            (λ j p q. omega arith) xs u)
          (
            λ q. omega arith,
            All-imp (λ j. key < key_at a j) (λ j. key_at a j ≤ key → key_at a j ≤ key_at a i)
                (λ j p q. absurd (omega arith)) ys f,
          ),
    ),
  )
  FloorOr-right key i xs ys best found h u v (inr (m, e, (c, k, f))) =
      let above : key_at a i < key_at a m = All-contains (λ j. key_at a i < key_at a j) m ys v c in
      inr (
        m,
        e,
        (
          contains-right m xs (i ∷ ys) (ground (arith, c)),
          k,
          All-append (λ j. key_at a j ≤ key → key_at a j ≤ key_at a m) xs (i ∷ ys)
              (All-imp (λ j. key_at a j < key_at a i)
                (λ j. key_at a j ≤ key → key_at a j ≤ key_at a m) (λ j p q. omega arith) xs u)
              (λ q. omega arith, f),
        ),
      )

  FloorOr-here :
      (key i : ℕ) (xs ys : List ℕ) (best : Option ℕ)
      → key ≡ key_at a i
      → FloorOr key (xs ++ i ∷ ys) best (some i)
  FloorOr-here key i xs ys best e =
      inr (i, refl, (contains-middle i xs ys, omega arith, up_to_key (xs ++ i ∷ ys)))
    where
      up_to_key : (zs : List ℕ) → All (λ j. key_at a j ≤ key → key_at a j ≤ key_at a i) zs
      up_to_key [] = tt
      up_to_key (z ∷ zs) = (λ q. omega arith, up_to_key zs)

  search_lte_lem :
      (fuel key : ℕ) (cur best : Option ℕ) (t : Tree)
      → depth t ≤ fuel
      → Represents a cur t
      → IsOrdered a t
      → (found : Option ℕ) × (search_lte a fuel key cur best ≡ some (ok found))
        × FloorOr key (inorder t) best found
  unfolding Represents IsOrdered inorder depth
  search_lte_lem zero key cur best leaf d e o =
      (best, rw e (unfold search_lte in refl), inl (refl, tt))
  search_lte_lem (suc fuel) key cur best leaf d e o =
      (best, rw e (unfold search_lte in refl), inl (refl, tt))
  search_lte_lem zero key cur best (node i t u) d e o = absurd (omega arith)
  search_lte_lem (suc fuel) key cur best (node i t u) d (e, h, rt, ru) (lo, hi, ot, ou) =
      rw e (elim (Bool-cases (ltb key (key_at a i))) [
        | inl lt ↦
            let (found, s, f) = search_lte_lem fuel key _ best t (omega arith) rt ot in
            let k = ltb→lt key (key_at a i) lt in
            (
              found,
              search_lte-lt fuel key i best h k ∙ s,
              FloorOr-left key i (inorder t) (inorder u) best found k hi f,
            )
        | inr ge ↦ elim (Bool-cases (ltb (key_at a i) key)) [
          | inl gt ↦
              let (found, s, f) = search_lte_lem fuel key _ (some i) u (omega arith) ru ou in
              let k = ltb→lt (key_at a i) key gt in
              (
                found,
                search_lte-gt fuel key i best h k ∙ s,
                FloorOr-right key i (inorder t) (inorder u) best found k lo hi f,
              )
          | inr le ↦
              let same : key ≡ key_at a i = ground arith in
              (
                some i,
                search_lte-eq fuel key i best h same,
                FloorOr-here key i (inorder t) (inorder u) best same,
              )
        ]
      ])

  -- With fuel for the depth of an ordered tree that the links from the root lead through, `get_lte`
  -- ends, and does not leave the arena. It answers the entry with the greatest key of the tree that
  -- does not exceed `key`, or none, and then every key of the tree is greater.
  pub get_lte_lem :
      (header : AvlTreeMapHeader) (fuel key : ℕ) (t : Tree)
      → depth t ≤ fuel
      → Represents a header.root t
      → IsOrdered a t
      → (found : Option ℕ) × (get_lte header a fuel key
          ≡ some (ok (Option.map (λ i. ((a.slot i).key, (a.slot i).val, (a.slot i).tag)) found)))
        × (((found ≡ none) × All (λ j. key < key_at a j) (inorder t))
            ⊎ ((i : ℕ) × (found ≡ some i) × IsFloor key (inorder t) i))
  unfolding get_lte
  get_lte_lem header fuel key t d e o =
      let (found, s, f) = search_lte_lem fuel key header.root none t d e o in (found, rw s, f)
