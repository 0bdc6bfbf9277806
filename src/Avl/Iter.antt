-- ===== src/Avl/Iter.antt =====
-- AvlIter of pg_search/src/postgres/storage/avl.rs, the iterator with a stack of fixed size. The
-- stack is the list of its indices, the top first.
pub mod Inorder
use paradedb.Common.{
  ℕ, zero, suc, Bool, true, false, Option, none, some, List, [], ◌∷◌, length, ltb, Outcome, ok, err,
  panic,
}
use paradedb.Avl.{Slot, Arena, AvlTreeMapHeader, l, r, in_range}

abbrev pub max_height : ℕ
max_height = 128

pub record AvlIter : Type 0 where
  pub stack : List ℕ
  pub cursor : Option ℕ

module _ {ℓ} {V T : Type ℓ} where
  -- The stack after the loop; beyond MAX_HEIGHT the write is out of bounds.
  unfoldable pub push_left_chain : Arena V T → ℕ → List ℕ → Option ℕ → Option (Outcome (List ℕ))
  unfolding l
  push_left_chain a zero stack none = some (ok stack)
  push_left_chain a zero stack (some i) = none
  push_left_chain a (suc fuel) stack none = some (ok stack)
  push_left_chain a (suc fuel) stack (some i) = elim (ltb (length stack) max_height) [
    | false ↦ some panic
    | true ↦ elim (in_range a i) [
      | false ↦ some panic
      | true ↦ push_left_chain a fuel (i ∷ stack) (l (a.slot i))
    ]
  ]

  -- AvlIter::next: the pair, and the iterator afterwards.
  unfoldable pub iter_next : Arena V T → ℕ → AvlIter → Option (Outcome (Option ((ℕ × V) × AvlIter)))
  unfolding push_left_chain r
  iter_next a fuel it = elim (push_left_chain a fuel it.stack it.cursor) [
    | none ↦ none
    | some result ↦ elim result [
      | err ↦ some err
      | panic ↦ some panic
      | ok stack ↦ elim stack [
        | [] ↦ some (ok none)
        | i ∷ stack' ↦ elim (in_range a i) [
          | false ↦ some panic
          | true ↦ some (
              ok (
                some (
                  ((a.slot i).key, (a.slot i).val),
                  record { stack = stack'; cursor = r (a.slot i) },
                )))
        ]
      ]
    ]
  ]

-- AvlTreeMapView::iter
unfoldable pub iter : AvlTreeMapHeader → AvlIter
iter header = record { stack = []; cursor = header.root }

module _ {ℓ} {V T : Type ℓ} where
  -- The pairs of at most `n` calls of `next` up to its end; `none` if it has not ended by then.
  unfoldable pub collect : Arena V T → ℕ → ℕ → AvlIter → Option (Outcome (List (ℕ × V)))
  unfolding iter_next
  collect a fuel zero it = none
  collect a fuel (suc n) it = elim (iter_next a fuel it) [
    | none ↦ none
    | some result ↦ elim result [
      | err ↦ some err
      | panic ↦ some panic
      | ok step ↦ elim step [
        | none ↦ some (ok [])
        | some (pair, it') ↦ elim (collect a fuel n it') [
          | none ↦ none
          | some rest ↦ elim rest [
            | err ↦ some err
            | panic ↦ some panic
            | ok ps ↦ some (ok (pair ∷ ps))
          ]
        ]
      ]
    ]
  ]
