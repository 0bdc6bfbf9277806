-- ===== src/FreeSpace/V2/Root.antt =====
-- The choice of the freelist for a transaction id, on the root page: extend_with_when_recyclable and
-- handle_full_tree.
use paradedb.Common.{
  ℕ, Bool, Option, none, some, List, [], ◌∷◌, ltb, ◌==◌, if◌then◌else◌, Outcome, ok, err, panic,
  ◌>>=◌, or_panic,
}
use paradedb.Avl.{Arena, AvlTreeMapHeader, get, get_max_slot}
use paradedb.Avl.Change.{and_then, put, insert}
use paradedb.FreeSpace.V2.{AvlLeaf, extend_freelist}

abbrev pub Value : Type 0
Value = Unit

-- The tags are block numbers.
abbrev pub FsmArena : Type 0
FsmArena = Arena Value ℕ

abbrev pub raise_key : FsmArena → ℕ → ℕ → FsmArena
raise_key a i key = put a i (record (a.slot i) { key = key })

-- handle_full_tree: the tag and the arena.
unfoldable pub handle_full_tree :
    ℕ → AvlTreeMapHeader → FsmArena → ℕ → Option (Outcome (ℕ × FsmArena))
unfolding get_max_slot
handle_full_tree fuel header a when_recyclable = and_then (get_max_slot header a fuel) (λ found.
    some (do
      i ← or_panic found
      ok (
        (a.slot i).tag,
        if ltb (a.slot i).key when_recyclable then raise_key a i when_recyclable else a,
      )))

abbrev pub or_full :
    Option (Outcome ((Option Value × ℕ) × AvlTreeMapHeader × FsmArena))
    → AvlTreeMapHeader
    → Option (Outcome (ℕ × FsmArena))
    → Option (Outcome (ℕ × AvlTreeMapHeader × FsmArena))
or_full none header full = none
or_full (some (ok ((old, tag), header', a'))) header full = some (ok (tag, header', a'))
or_full (some err) header full = and_then full (λ (tag, a'). some (ok (tag, header, a')))
or_full (some panic) header full = some panic

-- The first block of the freelist, and the map.
unfoldable pub start_block :
    ℕ → AvlTreeMapHeader → FsmArena → ℕ → Option (Outcome (ℕ × AvlTreeMapHeader × FsmArena))
unfolding get insert handle_full_tree
start_block fuel header a when_recyclable = and_then (get header a fuel when_recyclable) (λ found.
    elim found [
      | some (v, tag) ↦ some (ok (tag, header, a))
      | none ↦
          or_full (insert fuel header a when_recyclable tt) header
            (handle_full_tree fuel header a when_recyclable)
    ])

-- The freelists: the chain behind each block that heads one.
abbrev pub Chains : Type 0
Chains = ℕ → List AvlLeaf

-- FirstNormalTransactionId, which an index build uses.
abbrev pub recyclable_at : Bool → ℕ → ℕ
recyclable_at is_create_index when_recyclable = if is_create_index then 3 else when_recyclable

abbrev pub with_pages : Option (List AvlLeaf) → Option (Outcome (List AvlLeaf))
with_pages none = none
with_pages (some qs) = some (ok qs)

-- The pages of a freelist are extended; a block without a page is a panic.
unfoldable pub extend_pages : ℕ → List ℕ → List AvlLeaf → List ℕ → Option (Outcome (List AvlLeaf))
unfolding extend_freelist
extend_pages room supply [] extend_with = some panic
extend_pages room supply (p ∷ ps) extend_with =
    with_pages (extend_freelist room supply p ps extend_with)

-- The freelist that `tag` heads is extended.
unfoldable pub extend_chain : ℕ → List ℕ → Chains → ℕ → List ℕ → Option (Outcome Chains)
unfolding extend_pages
extend_chain room supply chains tag extend_with =
    and_then (extend_pages room supply (chains tag) extend_with)
      (λ qs. some (ok (λ b. if b == tag then qs else chains b)))

-- extend_with_when_recyclable of V2FSM
unfoldable pub extend_with_when_recyclable :
    ℕ
    → ℕ
    → List ℕ
    → Bool
    → AvlTreeMapHeader
    → FsmArena
    → Chains
    → ℕ
    → List ℕ
    → Option (Outcome (AvlTreeMapHeader × FsmArena × Chains))
unfolding start_block extend_chain
extend_with_when_recyclable fuel room supply is_create_index header a chains when_recyclable [] =
    some (ok (header, a, chains))
extend_with_when_recyclable fuel room supply is_create_index header a chains when_recyclable
      (b ∷ bs) =
    and_then (start_block fuel header a (recyclable_at is_create_index when_recyclable))
      (λ (tag, header', a').
        and_then (extend_chain room supply chains tag (b ∷ bs))
          (λ chains'. some (ok (header', a', chains'))))
