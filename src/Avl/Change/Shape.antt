-- ===== src/Avl/Change/Shape.antt =====
-- Subtrees in an arena with right heights and balance, and what a write elsewhere leaves of them.
use paradedb.Common.{
  ℕ, ◌+◌, ◌≤◌, ◌<◌, ◌≡◌, refl, ◌∙◌, max, true, false, Option, none, some, List, [], ◌∷◌, ◌++◌,
  contains, ◌==◌, ==_refl, ==→eq, Bool-cases, inl, inr, ok, arith,
}
use paradedb.Avl.{Slot, Arena, in_range, l, r, height, set_l, set_r, set_height, u16_mod}
use paradedb.Avl.Tree.{
  Tree, leaf, node, depth, inorder, Represents, contains-left, contains-right, contains-middle,
}
use paradedb.Avl.Change.{read, put, modify, height_of, balance_factor, update_height}

-- An index that a link can hold.
abbrev pub Fits : Option ℕ → Type 0
Fits none = Unit
Fits (some i) = i + 1 < u16_mod

abbrev pub Avoids : ℕ → Tree → Type 0
Avoids i t = contains i (inorder t) ≡ false

pub Avoids-node :
    (j i : ℕ) (t u : Tree) → Avoids j (node i t u) → Avoids j t × ((j == i) ≡ false) × Avoids j u
unfolding inorder
Avoids-node j i t u h = contains-parts (inorder t) h
  where
    contains-parts :
        (xs : List ℕ)
        → contains j (xs ++ i ∷ inorder u) ≡ false
        → (contains j xs ≡ false) × ((j == i) ≡ false) × Avoids j u
    contains-parts [] h = ground arith
    contains-parts (x ∷ xs) h = ground (arith, contains-parts xs)

pub contains-join :
    (j i : ℕ) (xs ys : List ℕ)
    → contains j xs ≡ false
    → (j == i) ≡ false
    → contains j ys ≡ false
    → contains j (xs ++ i ∷ ys) ≡ false
contains-join j i [] ys h k m = ground arith
contains-join j i (x ∷ xs) ys h k m = ground (arith, contains-join j i xs ys)

pub Avoids-join :
    (j i : ℕ) (t u : Tree) → Avoids j t → (j == i) ≡ false → Avoids j u → Avoids j (node i t u)
unfolding inorder
Avoids-join j i t u h k m = contains-join j i (inorder t) (inorder u) h k m

module _ {ℓ} {V T : Type ℓ} where
  pub l-set_l : (n : Slot V T) (o : Option ℕ) → Fits o → l (set_l n o) ≡ o
  unfolding l set_l
  l-set_l n none h = refl
  l-set_l n (some i) h = ground arith

  pub r-set_r : (n : Slot V T) (o : Option ℕ) → Fits o → r (set_r n o) ≡ o
  unfolding r set_r
  r-set_r n none h = refl
  r-set_r n (some i) h = ground arith

  pub height-set_height : (n : Slot V T) (h : ℕ) → h < 128 → height (set_height n h) ≡ h
  unfolding height set_height
  height-set_height n h b = omega arith

  -- What one setter leaves of the other links.
  pub r-set_l : (n : Slot V T) (o : Option ℕ) → r (set_l n o) ≡ r n
  unfolding r set_l
  r-set_l n o = refl

  pub l-set_r : (n : Slot V T) (o : Option ℕ) → l (set_r n o) ≡ l n
  unfolding l set_r
  l-set_r n o = refl

  pub links-set_height :
      (n : Slot V T) (h : ℕ) → (l (set_height n h) ≡ l n) × (r (set_height n h) ≡ r n)
  unfolding l r set_height
  links-set_height n h = (refl, refl)

  -- The root, its heights and its balance, down to the leaves.
  unfoldable pub IsAvl : Arena V T → Option ℕ → Tree → Type 0
  unfolding depth
  IsAvl a cur leaf = cur ≡ none
  IsAvl a cur (node i t u) =
      (cur ≡ some i)
      × (in_range a i ≡ true)
      × (height (a.slot i) ≡ depth (node i t u))
      × (depth t ≤ depth u + 1)
      × (depth u ≤ depth t + 1)
      × IsAvl a (l (a.slot i)) t
      × IsAvl a (r (a.slot i)) u

  pub IsAvl-Represents :
      (a : Arena V T) (cur : Option ℕ) (t : Tree) → IsAvl a cur t → Represents a cur t
  unfolding IsAvl Represents
  IsAvl-Represents a cur leaf h = h
  IsAvl-Represents a cur (node i t u) (e, b, h, p, q, x, y) =
      (e, b, IsAvl-Represents a (l (a.slot i)) t x, IsAvl-Represents a (r (a.slot i)) u y)

  pub IsAvl-Fits :
      (a : Arena V T) (cur : Option ℕ) (t : Tree) → a.capacity < u16_mod → IsAvl a cur t → Fits cur
  unfolding IsAvl
  IsAvl-Fits a cur leaf c e = rw e tt
  IsAvl-Fits a cur (node i t u) c h = rw h.0 (ground (arith, h.1))

  -- The slots of a tree are the same in another arena.
  pub IsAvl-frame :
      (a b : Arena V T) (cur : Option ℕ) (t : Tree)
      → b.capacity ≡ a.capacity
      → ((j : ℕ) → contains j (inorder t) ≡ true → b.slot j ≡ a.slot j)
      → IsAvl a cur t
      → IsAvl b cur t
  unfolding IsAvl inorder
  IsAvl-frame a b cur leaf c s h = h
  IsAvl-frame a b cur (node i t u) c s (e, g, h, p, q, x, y) =
      let here : b.slot i ≡ a.slot i = s i (contains-middle i (inorder t) (inorder u)) in
      (
        e,
        rw c g,
        rw here h,
        p,
        q,
        rw here (
            IsAvl-frame a b (l (a.slot i)) t c
              (λ j m. s j (contains-left j (inorder t) (i ∷ inorder u) m)) x),
        rw here (
            IsAvl-frame a b (r (a.slot i)) u c
              (λ j m. s j (contains-right j (inorder t) (i ∷ inorder u) (ground (arith, m)))) y),
      )

  pub slot-put_same : (a : Arena V T) (i : ℕ) (n : Slot V T) → (put a i n).slot i ≡ n
  slot-put_same a i n = rw (==_refl i)

  pub slot-put_other :
      (a : Arena V T) (i j : ℕ) (n : Slot V T) → (j == i) ≡ false → (put a i n).slot j ≡ a.slot j
  slot-put_other a i j n h = rw h

  pub IsAvl-put :
      (a : Arena V T) (cur : Option ℕ) (t : Tree) (i : ℕ) (n : Slot V T)
      → Avoids i t
      → IsAvl a cur t
      → IsAvl (put a i n) cur t
  IsAvl-put a cur t i n v h =
      IsAvl-frame a (put a i n) cur t refl
        (λ j m. slot-put_other a i j n (elim (Bool-cases (j == i)) [
          | inl e ↦ let same = ==→eq j i e in absurd (ground (arith, rw same at m, v))
          | inr e ↦ e
        ]))
        h

  pub height_of_lem :
      (a : Arena V T) (cur : Option ℕ) (t : Tree) → IsAvl a cur t → height_of a cur ≡ ok (depth t)
  unfolding IsAvl height_of read
  height_of_lem a cur leaf e = rw e refl
  height_of_lem a cur (node i t u) (e, g, h, p, q, x, y) = rw e (rw g (rw h refl))

  pub modify-ok :
      (a : Arena V T) (i : ℕ) (f : Slot V T → Slot V T)
      → in_range a i ≡ true
      → modify a i f ≡ ok (put a i (f (a.slot i)))
  unfolding modify read
  modify-ok a i f h = rw h

  pub read-ok : (a : Arena V T) (i : ℕ) → in_range a i ≡ true → read a i ≡ ok (a.slot i)
  unfolding read
  read-ok a i h = rw h

  pub balance_factor-ok :
      (a : Arena V T) (i : ℕ) (t u : Tree)
      → in_range a i ≡ true
      → IsAvl a (l (a.slot i)) t
      → IsAvl a (r (a.slot i)) u
      → balance_factor a i ≡ ok (depth t, depth u)
  unfolding balance_factor
  balance_factor-ok a i t u g x y =
      rw (read-ok a i g) (rw (height_of_lem a _ t x) (rw (height_of_lem a _ u y)))

  pub update_height-ok :
      (a : Arena V T) (i : ℕ) (t u : Tree)
      → in_range a i ≡ true
      → IsAvl a (l (a.slot i)) t
      → IsAvl a (r (a.slot i)) u
      → update_height a i ≡ ok (put a i (set_height (a.slot i) (depth (node i t u))))
  unfolding update_height depth
  update_height-ok a i t u g x y =
      rw (balance_factor-ok a i t u g x y)
        (modify-ok a i (λ n. set_height n (1 + max (depth t) (depth u))) g ∙ ground arith)
