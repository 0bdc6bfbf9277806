-- ===== src/FreeSpace/V2/Extend.antt =====
-- extend_with_when_recyclable of the second free space manager as a whole.
use paradedb.Common.{
  ℕ, ◌+◌, ◌≤◌, ◌<◌, ◌≡◌, refl, sym, ◌∙◌, ap, Bool, false, some, List, ◌∷◌, count, length, ◌==◌,
  ==_refl, if◌then◌else◌, ok, arith,
}
use paradedb.Avl.{AvlTreeMapHeader}
use paradedb.Avl.Tree.{Tree}
use paradedb.Avl.Change.{and_then}
use paradedb.Avl.Change.Valid.{IsMap}
use paradedb.FreeSpace.V2.{AvlLeaf, extend_freelist}
use paradedb.FreeSpace.V2.Freelist.{stored, Fit}
use paradedb.FreeSpace.V2.Chain.{extend_freelist_lem}
use paradedb.FreeSpace.V2.Root.{
  FsmArena, start_block, Chains, recyclable_at, with_pages, extend_pages, extend_chain,
  extend_with_when_recyclable,
}
use paradedb.FreeSpace.V2.Choice.{Covers, start_block_lem}

-- Every block heads a chain of pages that hold no more than they have room for.
abbrev pub AreChains : ℕ → Chains → Type 0
AreChains room chains =
    (tag : ℕ) → (p : AvlLeaf) × (ps : List AvlLeaf) × (chains tag ≡ p ∷ ps) × Fit room (p ∷ ps)

extend_pages-run :
    (room : ℕ) (supply : List ℕ) (p : AvlLeaf) (ps : List AvlLeaf) (extend_with : List ℕ)
    (qs : List AvlLeaf)
    → extend_freelist room supply p ps extend_with ≡ some qs
    → extend_pages room supply (p ∷ ps) extend_with ≡ some (ok qs)
unfolding extend_pages
extend_pages-run room supply p ps extend_with qs e = ap with_pages e

Fit-same : (room : ℕ) (ps qs : List AvlLeaf) → ps ≡ qs → Fit room qs → Fit room ps
Fit-same room ps qs e h = rw e h

extend_chain-run :
    (room : ℕ) (supply : List ℕ) (chains : Chains) (tag : ℕ) (extend_with : List ℕ) (p : AvlLeaf)
    (ps qs : List AvlLeaf)
    → chains tag ≡ p ∷ ps
    → extend_freelist room supply p ps extend_with ≡ some qs
    → extend_chain room supply chains tag extend_with
      ≡ some (ok (λ b. if b == tag then qs else chains b))
unfolding extend_chain
extend_chain-run room supply chains tag extend_with p ps qs e f =
    ap (λ x. and_then x (λ zs. some (ok (λ b. if b == tag then zs else chains b))))
      (ap (λ zs. extend_pages room supply zs extend_with) e
        ∙ extend_pages-run room supply p ps extend_with qs f)

extend-run :
    (fuel room : ℕ) (supply : List ℕ) (is_create_index : Bool) (header header' : AvlTreeMapHeader)
    (a a' : FsmArena) (chains chains' : Chains) (when_recyclable tag b : ℕ) (bs : List ℕ)
    → start_block fuel header a (recyclable_at is_create_index when_recyclable)
      ≡ some (ok (tag, header', a'))
    → extend_chain room supply chains tag (b ∷ bs) ≡ some (ok chains')
    → extend_with_when_recyclable fuel room supply is_create_index header a chains when_recyclable
        (b ∷ bs)
      ≡ some (ok (header', a', chains'))
unfolding extend_with_when_recyclable
extend-run fuel room supply is_create_index header header' a a' chains chains' when_recyclable tag b
      bs e f =
    ap
      (λ x. and_then x (λ (g, h, c).
        and_then (extend_chain room supply chains g (b ∷ bs)) (λ d. some (ok (h, c, d)))))
      e
    ∙ ap (λ x. and_then x (λ d. some (ok (header', a', d)))) f

-- On a root page with a map of one slot at least, with freelists behind its tags, fuel 34 and as many
-- new pages as there are blocks to add, one at least, the extension succeeds. The blocks are added,
-- each as often as it was given, to one freelist, which stands in the map under a transaction id
-- that is not earlier than the given one, or the first normal one while the index is built; no other
-- freelist changes, the pages hold no more than they have room for, and the root page holds a map.
pub extend_with_when_recyclable-Covers :
    (fuel room : ℕ) (supply : List ℕ) (is_create_index : Bool) (header : AvlTreeMapHeader)
    (a : FsmArena) (t : Tree) (fs : List ℕ) (chains : Chains) (when_recyclable b : ℕ) (bs : List ℕ)
    → 33 < fuel
    → IsMap header a t fs
    → 0 < a.capacity
    → 0 < room
    → AreChains room chains
    → length (b ∷ bs) ≤ length supply
    → (tag : ℕ) × (header' : AvlTreeMapHeader) × (a' : FsmArena) × (t' : Tree) × (fs' : List ℕ)
      × (chains' : Chains) × (extend_with_when_recyclable fuel room supply is_create_index header a
            chains when_recyclable
            (b ∷ bs)
          ≡ some (ok (header', a', chains')))
      × IsMap header' a' t' fs'
      × Covers fuel header' a' (recyclable_at is_create_index when_recyclable) tag
      × ((j : ℕ)
          → count j (stored (chains' tag)) ≡ count j (stored (chains tag)) + count j (b ∷ bs))
      × Fit room (chains' tag)
      × ((j : ℕ) → (j == tag) ≡ false → chains' j ≡ chains j)
extend_with_when_recyclable-Covers fuel room supply is_create_index header a t fs chains
      when_recyclable b bs f m c h are k =
    let (tag, header', a', t', fs', run, m', covers) =
      start_block_lem fuel header a t fs (recyclable_at is_create_index when_recyclable) f m c in
    let (p, ps, e, fit) = are tag in
    let (qs, over, x) = extend_freelist_lem room supply p ps (b ∷ bs) h fit (omega arith) k in
    let chains' : Chains = λ j. if j == tag then qs else chains j in
    let at_tag : chains' tag ≡ qs = rw (==_refl tag) in
    (
      tag,
      header',
      a',
      t',
      fs',
      chains',
      extend-run fuel room supply is_create_index header header' a a' chains chains' when_recyclable
          tag b bs run (extend_chain-run room supply chains tag (b ∷ bs) p ps qs e over),
      m',
      covers,
      λ j.
          ap (λ zs. count j (stored zs)) at_tag
          ∙ x.every_block j
          ∙ ap (λ zs. count j (stored zs) + count j (b ∷ bs)) (sym e),
      Fit-same room (chains' tag) qs at_tag x.fit,
      λ j n. rw n refl,
    )
