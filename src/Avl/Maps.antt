-- ===== src/Avl/Maps.antt =====
-- The lookups in an arena that holds a map, and after its operations.
mod Examples
use mathlib.Core.Option
use paradedb.Common.{
  ℕ, ◌+◌, ◌≤◌, ◌<◌, ◌≡◌, ◌≢◌, refl, sym, ◌∙◌, ap, ◌⊎◌, inl, inr, Bool-cases, Bool, true, false,
  Option, none, some, List, [], ◌∷◌, All, ◌==◌, ==→eq, ltb, if◌then◌else◌, Outcome, ok, err, arith,
}
use paradedb.Avl.{Arena, AvlTreeMapHeader, get}
use paradedb.Avl.Tree.{Tree, depth, inorder}
use paradedb.Avl.Lookup.{Found, get_lem}
use paradedb.Avl.Iter.Inorder.{IsAscending, inorder-IsAscending}
use paradedb.Avl.Change.{insert}
use paradedb.Avl.Change.Shape.{IsAvl-Represents}
use paradedb.Avl.Change.Entries.{entries, lookup, insert_entry, lookup-absent, lookup-present}
use paradedb.Avl.Change.Valid.{IsMap, IsMap-depth, insert_lem}
use paradedb.Avl.Remove.{remove}
use paradedb.Avl.Remove.Entries.{remove_entry}
use paradedb.Avl.Remove.Valid.{Increasing, Increasing-entries, remove_lem}

module _ {ℓ} {A : Type ℓ} where
  lookup-insert_entry :
      (k key : ℕ) (v : A) (es : List (ℕ × A))
      → lookup k (insert_entry key v es) ≡ (if k == key then some v else lookup k es)
  unfolding lookup insert_entry
  lookup-insert_entry k key v [] = refl
  lookup-insert_entry k key v ((m, w) ∷ es) = ground (arith, lookup-insert_entry k key v es)

  lookup-above : (key : ℕ) (es : List (ℕ × A)) → All (λ e. key < e.0) es → lookup key es ≡ none
  unfolding lookup
  lookup-above key [] h = refl
  lookup-above key ((m, w) ∷ es) (h, hs) = ground (arith, lookup-above key es hs)

  lookup-remove_entry :
      (k key : ℕ) (es : List (ℕ × A))
      → Increasing es
      → lookup k (remove_entry key es) ≡ (if k == key then none else lookup k es)
  unfolding lookup remove_entry
  lookup-remove_entry k key [] h = ground arith
  lookup-remove_entry k key ((m, w) ∷ es) (lo, h) =
      let rest = lookup-remove_entry k key es h in
      elim (Bool-cases (key == m)) [
        | inl e ↦
            let same : key ≡ m = ==→eq key m e in
            rw e (elim (Bool-cases (k == key)) [
              | inl c ↦
                  let here : k ≡ m = ==→eq k key c ∙ same in
                  rw c (ap (λ j. lookup j es) here ∙ lookup-above m es lo)
              | inr c ↦ rw c (ground (arith, same, c))
            ])
        | inr e ↦ rw e (ground (arith, rest))
      ]

module _ {ℓ} {V T : Type ℓ} where
  Found-lookup :
      (a : Arena V T) (key : ℕ) (is : List ℕ) (found : Option ℕ)
      → IsAscending a is
      → Found a key is found
      → Option.map (λ i. ((a.slot i).val, (a.slot i).tag)) found ≡ lookup key (entries a is)
  Found-lookup a key is none up h = sym (lookup-absent a key is h)
  Found-lookup a key is (some i) up (c, k) = sym (lookup-present a key i is up c k)

  -- In an arena that holds a map, with fuel 34, `get` is the lookup of the key among the entries in
  -- order.
  pub get-lookup :
      (fuel : ℕ) (header : AvlTreeMapHeader) (a : Arena V T) (t : Tree) (fs : List ℕ) (key : ℕ)
      → 33 < fuel
      → IsMap header a t fs
      → get header a fuel key ≡ some (ok (lookup key (entries a (inorder t))))
  get-lookup fuel header a t fs key f m =
      let low = IsMap-depth header a t fs m in
      let (found, run, slot, place) =
        get_lem a header fuel key t (omega arith) (IsAvl-Represents a _ t m.avl) m.ordered in
      run
      ∙ ap (λ o. some (ok o))
          (Found-lookup a key (inorder t) found (inorder-IsAscending a t m.ordered) place)

  pub lookup-inserted :
      (k key : ℕ) (v : V × T) (es : List (ℕ × (V × T)))
      → some (ok (lookup k (insert_entry key v es)))
        ≡ (if k == key then some (ok (some v)) else some (ok (lookup k es)))
  lookup-inserted k key v es = ap (λ o. some (ok o)) (lookup-insert_entry k key v es) ∙ ground arith

  lookup-removed :
      (k key : ℕ) (es : List (ℕ × (V × T)))
      → Increasing es
      → some (ok (lookup k (remove_entry key es)))
        ≡ (if k == key then some (ok none) else some (ok (lookup k es)))
  lookup-removed k key es h = ap (λ o. some (ok o)) (lookup-remove_entry k key es h) ∙ ground arith

  -- After an insertion into an arena that holds a map, with fuel 34, `get` gives the new value with
  -- the returned tag for the key, and for any other key what it gave before; or no slot is free, the
  -- insertion fails, and `get` gives none for the key.
  pub get-insert :
      (fuel : ℕ) (header : AvlTreeMapHeader) (a : Arena V T) (t : Tree) (fs : List ℕ) (key : ℕ)
      (val : V) (k : ℕ)
      → 33 < fuel
      → IsMap header a t fs
      → ((old : Option V) × (tag : T) × (header' : AvlTreeMapHeader) × (a' : Arena V T) × (insert
              fuel header a key val
            ≡ some (ok ((old, tag), header', a')))
          × (get header' a' fuel k
              ≡ (if k == key then some (ok (some (val, tag))) else get header a fuel k)))
        ⊎ ((insert fuel header a key val ≡ some err)
            × (fs ≡ [])
            × (get header a fuel key ≡ some (ok none)))
  get-insert fuel header a t fs key val k f m = elim (insert_lem fuel header a t fs key val f m) [
    | inl (tag, header', a', t', fs', run, m', size, es, had) ↦ inl (
      Option.map (λ p. p.0) (lookup key (entries a (inorder t))),
      tag,
      header',
      a',
      run,
      get-lookup fuel header' a' t' fs' k f m'
          ∙ ap (λ zs. some (ok (lookup k zs))) es
          ∙ lookup-inserted k key (val, tag) (entries a (inorder t))
          ∙ ap (λ o. if k == key then some (ok (some (val, tag))) else o)
              (sym (get-lookup fuel header a t fs k f m)),
    )
    | inr (run, full, absent) ↦
        inr (run, full, get-lookup fuel header a t fs key f m ∙ ap (λ o. some (ok o)) absent)
  ]

  -- After a removal from an arena that holds a map, with fuel 34, `get` gives none for the key, and
  -- for any other key what it gave before; the removal returns the value that `get` gave.
  pub get-remove :
      (fuel : ℕ) (header : AvlTreeMapHeader) (a : Arena V T) (t : Tree) (fs : List ℕ) (key k : ℕ)
      → 33 < fuel
      → IsMap header a t fs
      → (found : Option (V × T)) × (header' : AvlTreeMapHeader) × (a' : Arena V T) × (get header a
            fuel key
          ≡ some (ok found))
        × (remove fuel header a key ≡ some (ok (Option.map (λ p. p.0) found, header', a')))
        × (get header' a' fuel k ≡ (if k == key then some (ok none) else get header a fuel k))
  get-remove fuel header a t fs key k f m =
      let (header', a', t', fs', run, m', size, es) = remove_lem fuel header a t fs key f m in
      let up = (Increasing-entries a (inorder t)).0 (inorder-IsAscending a t m.ordered) in
      (
        lookup key (entries a (inorder t)),
        header',
        a',
        get-lookup fuel header a t fs key f m,
        run,
        get-lookup fuel header' a' t' fs' k f m'
            ∙ ap (λ zs. some (ok (lookup k zs))) es
            ∙ lookup-removed k key (entries a (inorder t)) up
            ∙ ap (λ o. if k == key then some (ok none) else o)
                (sym (get-lookup fuel header a t fs k f m)),
      )
