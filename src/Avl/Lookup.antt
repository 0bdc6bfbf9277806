-- ===== src/Avl/Lookup.antt =====
-- What the lookups find in an ordered tree.
use mathlib.Core.Option
use paradedb.Common.{
  ℕ, zero, suc, ◌≤◌, ◌<◌, ◌≡◌, ◌≢◌, refl, sym, ◌∙◌, inl, inr, true, Option, none, some, List, ◌∷◌,
  ◌++◌, All, All-append, All-imp, contains, ltb, ltb→lt, Bool-cases, Outcome, ok, arith,
}
use paradedb.Avl.{Arena, AvlTreeMapHeader, l, r, in_range, search, get, get_slot_mut}
use paradedb.Avl.Tree.{
  Tree, leaf, node, depth, inorder, key_at, Represents, IsOrdered, contains-left, contains-right,
  contains-middle,
}

module _ {ℓ} {V T : Type ℓ} (a : Arena V T) where
  -- How a search goes on at a node.
  search-eq :
      (fuel key i : ℕ)
      → in_range a i ≡ true
      → key ≡ key_at a i
      → search a (suc fuel) key (some i) ≡ some (ok (some i))
  unfolding search
  search-eq fuel key i h e = ground arith

  search-lt :
      (fuel key i : ℕ)
      → in_range a i ≡ true
      → key < key_at a i
      → search a (suc fuel) key (some i) ≡ search a fuel key (l (a.slot i))
  unfolding search
  search-lt fuel key i h e = ground arith

  search-gt :
      (fuel key i : ℕ)
      → in_range a i ≡ true
      → key_at a i < key
      → search a (suc fuel) key (some i) ≡ search a fuel key (r (a.slot i))
  unfolding search
  search-gt fuel key i h e = ground arith

  -- No index of the tree has the key, or the one found has it.
  abbrev pub Found : ℕ → List ℕ → Option ℕ → Type 0
  Found key is none = All (λ j. key_at a j ≢ key) is
  Found key is (some i) = (contains i is ≡ true) × (key_at a i ≡ key)

  abbrev pub Finds : ℕ → List ℕ → Option (Outcome (Option ℕ)) → Type 0
  Finds key is result = (found : Option ℕ) × (result ≡ some (ok found)) × Found key is found

  Found-left :
      (key i : ℕ) (xs ys : List ℕ) (found : Option ℕ)
      → key < key_at a i
      → All (λ j. key_at a i < key_at a j) ys
      → Found key xs found
      → Found key (xs ++ i ∷ ys) found
  Found-left key i xs ys none h u f =
      All-append (λ j. key_at a j ≢ key) xs (i ∷ ys) f
        (
          λ e. omega arith,
          All-imp (λ j. key_at a i < key_at a j) (λ j. key_at a j ≢ key) (λ j k e. omega arith) ys
              u,
        )
  Found-left key i xs ys (some j) h u (c, e) = (contains-left j xs (i ∷ ys) c, e)

  Found-right :
      (key i : ℕ) (xs ys : List ℕ) (found : Option ℕ)
      → key_at a i < key
      → All (λ j. key_at a j < key_at a i) xs
      → Found key ys found
      → Found key (xs ++ i ∷ ys) found
  Found-right key i xs ys none h u f =
      All-append (λ j. key_at a j ≢ key) xs (i ∷ ys)
        (All-imp (λ j. key_at a j < key_at a i) (λ j. key_at a j ≢ key) (λ j k e. omega arith) xs u)
        (λ e. omega arith, f)
  Found-right key i xs ys (some j) h u (c, e) =
      (contains-right j xs (i ∷ ys) (ground (arith, c)), e)

  search_lem :
      (fuel key : ℕ) (cur : Option ℕ) (t : Tree)
      → depth t ≤ fuel
      → Represents a cur t
      → IsOrdered a t
      → Finds key (inorder t) (search a fuel key cur)
  unfolding Represents IsOrdered inorder depth
  search_lem zero key cur leaf d e o = (none, rw e (unfold search in refl), tt)
  search_lem (suc fuel) key cur leaf d e o = (none, rw e (unfold search in refl), tt)
  search_lem zero key cur (node i t u) d e o = absurd (omega arith)
  search_lem (suc fuel) key cur (node i t u) d (e, h, rt, ru) (lo, hi, ot, ou) =
      rw e (elim (Bool-cases (ltb key (key_at a i))) [
        | inl lt ↦
            let (found, s, f) = search_lem fuel key _ t (omega arith) rt ot in
            let k = ltb→lt key (key_at a i) lt in
            (
              found,
              search-lt fuel key i h k ∙ s,
              Found-left key i (inorder t) (inorder u) found k hi f,
            )
        | inr ge ↦ elim (Bool-cases (ltb (key_at a i) key)) [
          | inl gt ↦
              let (found, s, f) = search_lem fuel key _ u (omega arith) ru ou in
              let k = ltb→lt (key_at a i) key gt in
              (
                found,
                search-gt fuel key i h k ∙ s,
                Found-right key i (inorder t) (inorder u) found k lo f,
              )
          | inr le ↦
              let same : key ≡ key_at a i = ground arith in
              (
                some i,
                search-eq fuel key i h same,
                (contains-middle i (inorder t) (inorder u), sym same),
              )
        ]
      ])

  -- With fuel for the depth of an ordered tree that the links from the root lead through, `get`
  -- ends, and does not leave the arena. It answers the value and tag of an index of the tree that
  -- has the key, or none, and then no index of the tree has it. `get_slot_mut` refers to the slot
  -- at the same index.
  pub get_lem :
      (header : AvlTreeMapHeader) (fuel key : ℕ) (t : Tree)
      → depth t ≤ fuel
      → Represents a header.root t
      → IsOrdered a t
      → (found : Option ℕ) × (get header a fuel key
          ≡ some (ok (Option.map (λ i. ((a.slot i).val, (a.slot i).tag)) found)))
        × (get_slot_mut header a fuel key ≡ some (ok found))
        × Found key (inorder t) found
  unfolding get get_slot_mut
  get_lem header fuel key t d e o =
      let (found, s, f) = search_lem fuel key header.root t d e o in (found, rw s, s, f)
