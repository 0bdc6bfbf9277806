-- ===== src/Avl/Change/Relinked.antt =====
-- Changes of links and heights alone, and nodes that may be out of balance.
use paradedb.Common.{
  ℕ, ◌≡◌, refl, ◌∙◌, true, false, Option, List, contains, ◌==◌, ==→eq, Bool-cases, inl, inr, arith,
}
use paradedb.Avl.{Slot, Arena, in_range, l, r, height, set_l, set_r, set_height}
use paradedb.Avl.Tree.{Tree, node, depth}
use paradedb.Avl.Change.{put}
use paradedb.Avl.Change.Shape.{IsAvl, Avoids, slot-put_other}

abbrev pub Apart : ℕ → Tree → Tree → Tree → Type 0
Apart i t u w = Avoids i t × Avoids i u × Avoids i w

-- A field that a write keeps.
pub field-put {ℓ κ} :
    {V T : Type ℓ} {A : Type κ} (f : Slot V T → A) (a : Arena V T) (i : ℕ) (n : Slot V T)
    → f n ≡ f (a.slot i)
    → (j : ℕ) → f ((put a i n).slot j) ≡ f (a.slot j)
field-put f a i n e j = elim (Bool-cases (j == i)) [
  | inl h ↦ rw h (rw (==→eq j i h) e)
  | inr h ↦ rw h refl
]

module _ {ℓ} {V T : Type ℓ} where
  -- Only slots of the list were written, and only their links and heights.
  pub record Relinked (is : List ℕ) (a b : Arena V T) : Type ℓ where
    pub size : b.capacity ≡ a.capacity
    pub outside : (j : ℕ) → contains j is ≡ false → b.slot j ≡ a.slot j
    pub keys : (j : ℕ) → (b.slot j).key ≡ (a.slot j).key
    pub vals : (j : ℕ) → (b.slot j).val ≡ (a.slot j).val
    pub tags : (j : ℕ) → (b.slot j).tag ≡ (a.slot j).tag

  pub Relinked-refl : (is : List ℕ) (a : Arena V T) → Relinked is a a
  Relinked-refl is a = record {
    size = refl;
    outside = λ j h. refl;
    keys = λ j. refl;
    vals = λ j. refl;
    tags = λ j. refl;
  }

  pub Relinked-trans :
      (is js ks : List ℕ) (a b c : Arena V T)
      → ((j : ℕ) → contains j ks ≡ false → (contains j is ≡ false) × (contains j js ≡ false))
      → Relinked is a b
      → Relinked js b c
      → Relinked ks a c
  Relinked-trans is js ks a b c sub p q = record {
    size = q.size ∙ p.size;
    outside = λ j h. q.outside j (sub j h).1 ∙ p.outside j (sub j h).0;
    keys = λ j. q.keys j ∙ p.keys j;
    vals = λ j. q.vals j ∙ p.vals j;
    tags = λ j. q.tags j ∙ p.tags j;
  }

  -- A write of a slot with the same entry.
  pub Relinked-put :
      (is : List ℕ) (a : Arena V T) (i : ℕ) (n : Slot V T)
      → contains i is ≡ true
      → n.key ≡ (a.slot i).key
      → n.val ≡ (a.slot i).val
      → n.tag ≡ (a.slot i).tag
      → Relinked is a (put a i n)
  Relinked-put is a i n c k v t = record {
    size = refl;
    outside = λ j h. slot-put_other a i j n (ground (arith, h, c));
    keys = λ j. field-put (λ s. s.key) a i n k j;
    vals = λ j. field-put (λ s. s.val) a i n v j;
    tags = λ j. field-put (λ s. s.tag) a i n t j;
  }

  pub Relinked-then :
      (is : List ℕ) (a b c : Arena V T) → Relinked is a b → Relinked is b c → Relinked is a c
  Relinked-then is a b c p q = Relinked-trans is is is a b c (λ j h. (h, h)) p q

  pub Relinked-set_l :
      (is : List ℕ) (a : Arena V T) (i : ℕ) (o : Option ℕ)
      → contains i is ≡ true
      → Relinked is a (put a i (set_l (a.slot i) o))
  unfolding set_l
  Relinked-set_l is a i o c = Relinked-put is a i _ c refl refl refl

  pub Relinked-set_r :
      (is : List ℕ) (a : Arena V T) (i : ℕ) (o : Option ℕ)
      → contains i is ≡ true
      → Relinked is a (put a i (set_r (a.slot i) o))
  unfolding set_r
  Relinked-set_r is a i o c = Relinked-put is a i _ c refl refl refl

  pub Relinked-set_height :
      (is : List ℕ) (a : Arena V T) (i h : ℕ)
      → contains i is ≡ true
      → Relinked is a (put a i (set_height (a.slot i) h))
  unfolding set_height
  Relinked-set_height is a i h c = Relinked-put is a i _ c refl refl refl

  -- A node with right links and height, perhaps out of balance.
  pub record Node (a : Arena V T) (i : ℕ) (t u : Tree) : Type 0 where
    pub inside : in_range a i ≡ true
    pub high : height (a.slot i) ≡ depth (node i t u)
    pub on_left : IsAvl a (l (a.slot i)) t
    pub on_right : IsAvl a (r (a.slot i)) u
