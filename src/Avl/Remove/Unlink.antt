-- ===== src/Avl/Remove/Unlink.antt =====
-- A node with one child at most gives its place to that child.
use paradedb.Common.{
  ℕ, ◌+◌, ◌≤◌, ◌≡◌, refl, ◌∙◌, ap, inr, true, false, Option, none, some, count, length, ◌==◌,
  if◌then◌else◌, ok, arith,
}
use paradedb.Avl.{Slot, Arena, in_range, l, set_l, set_r, set_height, set_used}
use paradedb.Avl.Tree.{Tree, node, depth, inorder}
use paradedb.Avl.Change.{put}
use paradedb.Avl.Change.Shape.{
  Fits, l-set_l, IsAvl, Avoids, Avoids-node, IsAvl-put, slot-put_same, slot-put_other, modify-ok,
}
use paradedb.Avl.Change.Order.{apart}
use paradedb.Avl.Remove.{Deleted, free_slot, unlink}
use paradedb.Avl.Change.Entries.{entries}
use paradedb.Avl.Remove.Deletes.{Deletes, entries-same}

module _ {ℓ} {V T : Type ℓ} where
  -- A slot as free_slot leaves it.
  abbrev pub freed_slot : Slot V T → Option ℕ → Slot V T
  freed_slot n free = set_l (set_r (set_height (set_used n false) 0) none) free

  free_slot-ok :
      (a : Arena V T) (free : Option ℕ) (i : ℕ)
      → in_range a i ≡ true
      → free_slot a free i ≡ ok (some i, put a i (freed_slot (a.slot i) free))
  unfolding free_slot
  free_slot-ok a free i g = rw (modify-ok a i (λ n. freed_slot n free) g) refl

  unlink-run :
      (a : Arena V T) (free : Option ℕ) (i : ℕ) (retv : V) (child : Option ℕ)
      → in_range a i ≡ true
      → unlink a free i retv child
        ≡ ok (record {
          arena = put a i (freed_slot (a.slot i) free);
          free_head = some i;
          root = child;
          removed_val = some retv;
          did_remove = true;
        })
  unfolding unlink
  unlink-run a free i retv child g = rw (free_slot-ok a free i g) refl

  pub unlink_lem :
      (a : Arena V T) (free : Option ℕ) (i : ℕ) (t u : Tree) (retv : V) (child : Option ℕ)
      (c : Tree)
      → in_range a i ≡ true
      → Fits free
      → Avoids i c
      → IsAvl a child c
      → depth c ≤ depth (node i t u)
      → depth (node i t u) ≤ depth c + 1
      → ((j : ℕ) → count j (inorder c) + (if j == i then 1 else 0) ≡ count j (inorder (node i t u)))
      → length (inorder c) + 1 ≡ length (inorder (node i t u))
      → (out : Deleted V T) × (unlink a free i retv child ≡ ok out)
        × Deletes a free (node i t u) (entries a (inorder c)) out c
        × (out.removed_val ≡ some retv)
        × (out.did_remove ≡ true)
  unlink_lem a free i t u retv child c g fits away avl low high once one =
      let n = freed_slot (a.slot i) free in
      (
        record {
          arena = put a i n;
          free_head = some i;
          root = child;
          removed_val = some retv;
          did_remove = true;
        },
        unlink-run a free i retv child g,
        record {
          avl = IsAvl-put a child c i n away avl;
          low = low;
          high = high;
          size = refl;
          outside = λ j m. slot-put_other a i j n ((Avoids-node j i t u m).1);
          left = entries-same a (put a i n) (inorder c) (λ j m.
              ap (λ s. (s.key, (s.val, s.tag)))
                (slot-put_other a i j n (apart j i (inorder c) m away)));
          shrunk = λ j. omega (arith, once j);
          place = inr (
            i,
            g,
            refl,
            ap l (slot-put_same a i n)
                ∙ l-set_l (set_r (set_height (set_used (a.slot i) false) 0) none) free fits,
            once,
            one,
            refl,
          );
        },
        refl,
        refl,
      )
