-- ===== src/LinkedItems/Append.antt =====
-- Appending items of one size: what `add_items` promises to a list that serves as a log.
use mathlib.Core.List.{append-nil, append_assoc}
use mathlib.Core.Option
use paradedb.Common.{
  ℕ, ◌≤◌, ◌<◌, ◌≡◌, refl, sym, ◌∙◌, Bool, true, false, Option, some, List, [], ◌∷◌, ◌++◌, arith,
  ltb, ltb→lt, length, length-append, inl, inr, Bool-cases,
}
use paradedb.LinkedItems.{Page, list, push_item, add_items_at, add_items}

pub ruleset append_laws = (append-nil, append_assoc)

module _ {ℓ} {T : Type ℓ} where
  -- A page that holds `capacity` items of equal size has room while it holds fewer.
  abbrev pub uniform : ℕ → List T → T → Bool
  uniform capacity items x = ltb (length items) capacity

  -- Every page before the last is full, which is how a log of equal items fills up.
  abbrev pub IsPacked : ℕ → List (Page T) → Type 0
  IsPacked capacity [] = Unit
  IsPacked capacity (p ∷ []) = length p.items ≤ capacity
  IsPacked capacity (p ∷ q ∷ ps) = (length p.items ≡ capacity) × IsPacked capacity (q ∷ ps)

  abbrev Appended : ℕ → List T → List (Page T) → Option (List (Page T)) → Type ℓ
  Appended capacity xs before result =
      (after : List (Page T)) × (result ≡ some after)
      × (list after ≡ list before ++ xs)
      × IsPacked capacity after

  module _ (room : List T → T → Bool) where
    pub at_room :
        (supply : List ℕ) (x : T) (xs : List T) (p : Page T) (ps : List (Page T))
        → room p.items x ≡ true
        → add_items_at room supply (x ∷ xs) p ps ≡ add_items_at room supply xs (push_item p x) ps
    unfolding add_items_at
    at_room supply x xs p [] h = rw (h, add_items_at)
    at_room supply x xs p (q ∷ ps) h = rw (h, add_items_at)

    pub at_next :
        (supply : List ℕ) (x : T) (xs : List T) (p q : Page T) (ps : List (Page T))
        → room p.items x ≡ false
        → add_items_at room supply (x ∷ xs) p (q ∷ ps)
          ≡ Option.map (λ qs. p ∷ qs) (add_items_at room supply (x ∷ xs) q ps)
    unfolding add_items_at
    at_next supply x xs p q ps h = rw (h, add_items_at)

    pub at_new :
        (b : ℕ) (supply : List ℕ) (x : T) (xs : List T) (p : Page T)
        → room p.items x ≡ false
        → room [] x ≡ true
        → add_items_at room (b ∷ supply) (x ∷ xs) p []
          ≡ Option.map
              (λ qs. p ∷ qs)
              (add_items_at room supply xs (record { blockno = b; items = x ∷ [] }) [])
    unfolding add_items_at
    at_new b supply x xs p h k = rw (h, add_items_at) (rw (k, add_items_at))

  IsPacked-cons :
      (capacity : ℕ) (p : Page T) (ps : List (Page T))
      → length p.items ≡ capacity
      → IsPacked capacity ps
      → IsPacked capacity (p ∷ ps)
  IsPacked-cons capacity p [] e h = omega arith
  IsPacked-cons capacity p (q ∷ ps) e h = (e, h)

  -- The rest of the chain is appended to, and a full page goes in front of it again.
  Appended-cons :
      (capacity : ℕ) (xs ys : List T) (p : Page T) (before : List (Page T))
      (rest : Option (List (Page T)))
      → length p.items ≡ capacity
      → list before ++ xs ≡ ys
      → Appended capacity xs before rest
      → (after : List (Page T)) × (Option.map (λ qs. p ∷ qs) rest ≡ some after)
        × (list after ≡ p.items ++ ys)
        × IsPacked capacity after
  unfolding list
  Appended-cons capacity xs ys p before rest e f (after, r, l, k) =
      (p ∷ after, rw r, rw l (rw f), IsPacked-cons capacity p after e k)

  add_items_at-uniform :
      (capacity : ℕ) (supply : List ℕ) (xs : List T) (p : Page T) (ps : List (Page T))
      → 0 < capacity
      → length xs ≤ length supply
      → IsPacked capacity (p ∷ ps)
      → Appended capacity xs (p ∷ ps) (add_items_at (uniform capacity) supply xs p ps)
  unfolding list
  add_items_at-uniform capacity supply [] p ps c l k =
      (p ∷ ps, unfold add_items_at in refl, sym (append-nil _), k)
  add_items_at-uniform capacity [] (x ∷ xs) p ps c l k = absurd (omega arith)
  add_items_at-uniform capacity (b ∷ supply) (x ∷ xs) p [] c l k =
      elim (Bool-cases (uniform capacity p.items x)) [
        | inl fits ↦
            let (after, e, f, k') =
              add_items_at-uniform capacity (b ∷ supply) xs (push_item p x) [] c (omega arith)
                (omega (arith, length-append p.items (x ∷ []), ltb→lt _ _ fits)) in
            (after, at_room _ (b ∷ supply) x xs p [] fits ∙ e, f ∙ simp append_laws, k')
        | inr full ↦
            let (after, e, f, k') =
              Appended-cons capacity xs (x ∷ xs) p (record { blockno = b; items = x ∷ [] } ∷ []) _
                (ground arith) refl
                (add_items_at-uniform capacity supply xs (record { blockno = b; items = x ∷ [] }) []
                  c (omega arith) (omega arith)) in
            (after, at_new _ b supply x xs p full (ground arith) ∙ e, f ∙ simp append_laws, k')
      ]
  add_items_at-uniform capacity (b ∷ supply) (x ∷ xs) p (q ∷ ps) c l k =
      let (after, e, f, k') =
        Appended-cons capacity (x ∷ xs) _ p (q ∷ ps) _ k.0 refl
          (add_items_at-uniform capacity (b ∷ supply) (x ∷ xs) q ps c l k.1) in
      (after, at_next _ (b ∷ supply) x xs p q ps (ground arith) ∙ e, f ∙ simp append_laws, k')

  -- On a packed list of pages that each hold `capacity` items of equal size, and with a block in
  -- supply for each item, `add_items` ends, appends the items at the end of the list in their
  -- order, and leaves the list packed.
  pub list-add_items :
      (capacity : ℕ) (supply : List ℕ) (xs : List T) (p : Page T) (ps : List (Page T))
      → 0 < capacity
      → length xs ≤ length supply
      → IsPacked capacity (p ∷ ps)
      → Appended capacity xs (p ∷ ps) (add_items (uniform capacity) supply xs (p ∷ ps))
  unfolding add_items
  list-add_items capacity supply xs p ps c l k = add_items_at-uniform capacity supply xs p ps c l k
