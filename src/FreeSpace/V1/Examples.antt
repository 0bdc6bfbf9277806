-- ===== src/FreeSpace/V1/Examples.antt =====
-- Runs and instances for the free space manager.
use paradedb.Common.{
  ℕ, ◌+◌, ◌≤◌, ◌≡◌, refl, Bool, true, false, some, none, List, [], ◌∷◌, length, All, arith,
}
use paradedb.Xid.{transaction_id_precedes_or_equals}
use paradedb.FreeSpace.V1.{
  used_blocks, passes_visibility_horizon, v1_uncompressed, FsmEntry, FsmPage, Locks, pop, drain,
  extend_with_when_recyclable,
}
use paradedb.FreeSpace.V1.Tracked.{tally, tracked, IsUndisturbed, IsHinted}
use paradedb.FreeSpace.V1.Pop.{TookOne, recyclable_entry, pop_lem}
use paradedb.FreeSpace.V1.Drain.{blocks_of, IsRecyclable, drain_lem}
use paradedb.FreeSpace.V1.Pages.{Grown, used_blocks_lem}
use paradedb.FreeSpace.V1.Extend.{Extended, extend_with_when_recyclable_lem}

-- Block 8 may be used again from transaction 20 on, block 9 from 10 on; one entry is unused.
abbrev page : FsmPage
page = record {
  blockno = 3;
  block = record {
    kind = v1_uncompressed;
    empty = false;
    entries = (8, 20) ∷ (4294967295, 0) ∷ (9, 10) ∷ [];
  };
}

abbrev quiet : Locks
quiet = record { granted = λ b. true; found = λ b block. block }

quiet_IsUndisturbed : IsUndisturbed quiet
quiet_IsUndisturbed b block = refl

-- At horizon 15 only block 9 is given out.
pops_nine : (pop quiet 15 (page ∷ [])).0 ≡ some 9
unfolding pop passes_visibility_horizon transaction_id_precedes_or_equals
pops_nine = refl

drains_both : (drain quiet 25 5 (page ∷ [])).0 ≡ 8 ∷ 9 ∷ []
unfolding drain passes_visibility_horizon transaction_id_precedes_or_equals
drains_both = refl

pop_lem_example :
    ((b : ℕ)
      → (pop quiet 15 (page ∷ [])).0 ≡ some b
      → TookOne quiet 15 quiet_IsUndisturbed b
          (λ q. tracked q (page ∷ []))
          (λ q. tracked q (pop quiet 15 (page ∷ [])).1))
    × ((pop quiet 15 (page ∷ [])).0 ≡ none
        → ((q : FsmEntry → Bool) → tracked q (pop quiet 15 (page ∷ [])).1 ≡ tracked q (page ∷ []))
          × (((b : ℕ) → quiet.granted b ≡ true)
              → tracked (recyclable_entry quiet 15 quiet_IsUndisturbed) (page ∷ []) ≡ 0))
    × IsHinted (pop quiet 15 (page ∷ [])).1
pop_lem_example = pop_lem quiet 15 quiet_IsUndisturbed (page ∷ []) (λ e. absurd cc, tt)

drain_lem_example :
    (ds : List FsmEntry) × ((drain quiet 25 1 (page ∷ [])).0 ≡ blocks_of ds)
    × (length (drain quiet 25 1 (page ∷ [])).0 ≤ 1)
    × All (IsRecyclable 25 1) ds
    × ((q : FsmEntry → Bool)
        → tracked q (drain quiet 25 1 (page ∷ [])).1 + tally q ds ≡ tracked q (page ∷ []))
drain_lem_example = drain_lem quiet 25 1 quiet_IsUndisturbed (page ∷ [])

extend_with_when_recyclable_lem_example :
    Extended quiet 2 77 quiet_IsUndisturbed
      (12 ∷ 13 ∷ [])
      (page ∷ [])
      (extend_with_when_recyclable quiet 3 (90 ∷ 91 ∷ []) 4294967373 (12 ∷ 13 ∷ []) (page ∷ []))
extend_with_when_recyclable_lem_example =
    extend_with_when_recyclable_lem quiet 2 77 quiet_IsUndisturbed (90 ∷ 91 ∷ []) (12 ∷ 13 ∷ [])
      4294967373 page [] refl (omega arith) (omega arith)

-- Block 14 does not fit on a page of one entry, so page 90 is new.
abbrev two_pages : List FsmPage
two_pages =
    record {
      blockno = 3;
      block = record { kind = v1_uncompressed; empty = false; entries = (13, 77) ∷ [] };
    }
    ∷ record {
      blockno = 90;
      block = record { kind = v1_uncompressed; empty = false; entries = (14, 77) ∷ [] };
    }
    ∷ []

abbrev one_page : List FsmPage
one_page =
    record {
      blockno = 3;
      block = record { kind = v1_uncompressed; empty = false; entries = (4294967295, 0) ∷ [] };
    }
    ∷ []

adds_page :
    extend_with_when_recyclable quiet 1 (90 ∷ 91 ∷ []) 77 (13 ∷ 14 ∷ []) one_page ≡ some two_pages
unfolding extend_with_when_recyclable
adds_page = refl

used_blocks_lem_example :
    (used_blocks (pop quiet 15 one_page).1 ≡ used_blocks one_page)
    × (used_blocks (drain quiet 15 2 one_page).1 ≡ used_blocks one_page)
    × (extend_with_when_recyclable quiet 1 (90 ∷ 91 ∷ []) 77 (13 ∷ 14 ∷ []) one_page
          ≡ some two_pages
        → Grown quiet 1 77 (90 ∷ 91 ∷ []) one_page two_pages)
used_blocks_lem_example =
    used_blocks_lem quiet 15 2 1 77 (90 ∷ 91 ∷ []) (13 ∷ 14 ∷ []) one_page two_pages
