-- ===== src/Avl/New.antt =====
-- The empty map over an arena: AvlTreeMap::new of pg_search/src/postgres/storage/avl.rs. Of a slot
-- the loop makes what free_slot makes of it.
use paradedb.Common.{
  ℕ, zero, suc, ◌+◌, ◌≤◌, ◌<◌, ◌≡◌, refl, sym, ◌∙◌, ap, true, false, Option, none, some, List, [],
  ◌∷◌, contains, contains-eq-false, count, length, ◌==◌, ==→eq, Bool-cases, inl, inr, Outcome, ok,
  ◌>>=◌, arith,
}
use paradedb.Avl.{
  Slot, Arena, AvlTreeMapHeader, l, in_range, set_l, set_r, set_height, set_used, u16_mod,
}
use paradedb.Avl.Tree.{leaf, inorder, IsOrdered}
use paradedb.Avl.Change.{put, modify}
use paradedb.Avl.Change.Shape.{Fits, IsAvl, l-set_l, slot-put_same, slot-put_other, modify-ok}
use paradedb.Avl.Change.Insert.{FreeList}
use paradedb.Avl.Change.Valid.{IsMap, FreeList-frame}

-- The numbers from one on.
abbrev pub from : ℕ → ℕ → List ℕ
from i zero = []
from i (suc k) = i ∷ from (suc i) k

from-bound : (j i k : ℕ) → contains j (from i k) ≡ true → i ≤ j
from-bound j i zero h = ground arith
from-bound j i (suc k) h = elim (Bool-cases (j == i)) [
  | inl e ↦ omega (arith, ==→eq j i e)
  | inr e ↦ omega (arith, from-bound j (suc i) k (ground (arith, e, h)))
]

length-from : (i k : ℕ) → length (from i k) ≡ k
length-from i zero = refl
length-from i (suc k) = omega (arith, length-from (suc i) k)

from-IsDistinct : (j i k : ℕ) → count j (from i k) ≤ 1
from-IsDistinct j i zero = omega arith
from-IsDistinct j i (suc k) = elim (Bool-cases (contains j (from (suc i) k))) [
  | inl m ↦ ground (arith, from-bound j (suc i) k m, from-IsDistinct j (suc i) k)
  | inr m ↦ ground (arith, contains-eq-false j (from (suc i) k) m)
]

module _ {ℓ} {V T : Type ℓ} where
  -- The loop, from the last index down, with the head of the free list.
  unfoldable pub chain_slots : ℕ → Arena V T → Option ℕ → Outcome (Option ℕ × Arena V T)
  unfolding modify
  chain_slots zero a free_head = ok (free_head, a)
  chain_slots (suc i) a free_head = do
    a' ← modify a i (λ s. set_l (set_r (set_height (set_used s false) 0) none) free_head)
    chain_slots i a' (some i)

  unfoldable pub new : Arena V T → Outcome (AvlTreeMapHeader × Arena V T)
  unfolding chain_slots
  new a = do
    (free_head, a') ← chain_slots a.capacity a none
    ok (record { root = none; free_head = free_head; len = 0 }, a')

  abbrev chained : Slot V T → Option ℕ → Slot V T
  chained s free_head = set_l (set_r (set_height (set_used s false) 0) none) free_head

  chain_slots-step :
      (i : ℕ) (a : Arena V T) (free : Option ℕ)
      → in_range a i ≡ true
      → chain_slots (suc i) a free ≡ chain_slots i (put a i (chained (a.slot i) free)) (some i)
  unfolding chain_slots
  chain_slots-step i a free g = rw (modify-ok a i (λ s. chained s free) g) refl

  FreeList-head :
      (a : Arena V T) (cur free : Option ℕ) (fs : List ℕ)
      → cur ≡ free
      → FreeList a free fs
      → FreeList a cur fs
  FreeList-head a cur free fs e h = rw e h

  chain_slots_lem :
      (i k n : ℕ) (a : Arena V T) (free : Option ℕ)
      → i + k ≡ n
      → a.capacity ≡ n
      → a.capacity < u16_mod
      → Fits free
      → FreeList a free (from i k)
      → (free' : Option ℕ) × (a' : Arena V T) × (chain_slots i a free ≡ ok (free', a'))
        × (a'.capacity ≡ a.capacity)
        × FreeList a' free' (from 0 n)
  unfolding chain_slots FreeList
  chain_slots_lem zero k n a free e s c f h =
      let all : k ≡ n = omega (arith, e) in (free, a, refl, refl, rw (sym all) h)
  chain_slots_lem (suc i) k n a free e sz c f h =
      let chain = chained (a.slot i) free in
      let g : in_range a i ≡ true = ground arith in
      let above : (j : ℕ) → contains j (from (suc i) k) ≡ true → (j == i) ≡ false =
        λ j m. ground (arith, from-bound j (suc i) k m) in
      let (free', a', run, size, list) =
        chain_slots_lem i (suc k) n (put a i chain) (some i) (omega arith) sz c (omega arith) (
          refl,
          g,
          FreeList-head (put a i chain) _ free (from (suc i) k)
              (ap l (slot-put_same a i chain)
                ∙ l-set_l (set_r (set_height (set_used (a.slot i) false) 0) none) free f)
              (FreeList-frame a (put a i chain) free (from (suc i) k) refl
                (λ j m. slot-put_other a i j chain (above j m)) h),
        ) in
      (free', a', chain_slots-step i a free g ∙ run, size, list)

  new-run :
      (a a' : Arena V T) (free : Option ℕ)
      → chain_slots a.capacity a none ≡ ok (free, a')
      → new a ≡ ok (record { root = none; free_head = free; len = 0 }, a')
  unfolding new
  new-run a a' free e = rw e refl

  -- Over an arena of fewer than 2 ^ 16 slots `new` never panics, and makes an empty map of them: all
  -- slots are on the free list, in the order of their indices.
  pub new_lem :
      (a : Arena V T)
      → a.capacity < u16_mod
      → (header : AvlTreeMapHeader) × (a' : Arena V T) × (new a ≡ ok (header, a'))
        × (a'.capacity ≡ a.capacity)
        × IsMap header a' leaf (from 0 a.capacity)
  unfolding inorder IsAvl IsOrdered FreeList
  new_lem a c =
      let (free, a', run, size, list) =
        chain_slots_lem a.capacity 0 a.capacity a none (omega arith) refl c tt refl in
      (
        record { root = none; free_head = free; len = 0 },
        a',
        new-run a a' free run,
        size,
        record {
          size = rw size c;
          avl = refl;
          free = list;
          apart = λ j. from-IsDistinct j 0 a.capacity;
          every = rw size (omega (arith, length-from 0 a.capacity));
          ordered = tt;
          counted = refl;
        },
      )
