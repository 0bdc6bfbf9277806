-- ===== src/MergePolicy/Layers.antt =====
-- Every candidate converts a segment or fills the layer that it was made for.
use mathlib.Core.Option
use paradedb.Common.{
  ℕ, ◌+◌, ◌/◌, ◌≤◌, ◌≡◌, refl, ◌⊎◌, inl, inr, Bool, Bool-cases, true, false, ltb, leb, not, ◌&&◌,
  ◌||◌, ◌==◌, ==_refl, List, [], ◌∷◌, ◌++◌, keep, All, All-append, contains, is_some, unwrap_or,
  Option-cases, arith,
}
use paradedb.Segment.Data.{is_mutable}
use paradedb.Segment.Meta.{byte_size}
use paradedb.MergePolicy.{
  find_segment, SegmentMeta, Entries, Candidate, LayeredMergePolicy, get_entry, mutable_candidates,
  sort_insert, sort_desc, ids_of, actual_byte_size, adjusted_byte_size, collect_mergeable_segments,
  fill_layer, run_layers, all_candidates,
}

-- The bytes of the segments with given ids, by their entries.
abbrev entry_bytes : Entries → ℕ → ℕ
entry_bytes es id = unwrap_or 0 (Option.map byte_size (get_entry id es))

abbrev pub total_bytes : Entries → List ℕ → ℕ
total_bytes es [] = 0
total_bytes es (id ∷ ids) = entry_bytes es id + total_bytes es ids

total_bytes-append :
    (es : Entries) (xs ys : List ℕ)
    → total_bytes es (xs ++ ys) ≡ total_bytes es xs + total_bytes es ys
total_bytes-append es [] ys = omega arith
total_bytes-append es (x ∷ xs) ys = omega (arith, total_bytes-append es xs ys)

abbrev HasEntry : Entries → SegmentMeta → Type 0
HasEntry es s = is_some (get_entry s.id es) ≡ true

actual-eq-entry :
    (es : Entries) (avg : ℕ) (s : SegmentMeta)
    → HasEntry es s
    → actual_byte_size es avg s ≡ entry_bytes es s.id
unfolding actual_byte_size
actual-eq-entry es avg s h = elim (Option-cases (get_entry s.id es)) [
  | inl n ↦ ground arith
  | inr e ↦ rw (e.1)
]

-- Whether an entry with the id is mutable.
abbrev pub has_mutable : ℕ → Entries → Bool
has_mutable id [] = false
has_mutable id ((k, e) ∷ es) = (k == id && is_mutable e) || has_mutable id es

-- A conversion is made for no layer, of one segment that is offered and is mutable.
abbrev pub IsConversion : Entries → List SegmentMeta → Candidate → Type 0
IsConversion es original c =
    (c.0 ≡ 0)
    × ((id : ℕ) × (c.1 ≡ id ∷ []) × (has_mutable id es ≡ true) × (find_segment id original ≡ true))

-- A candidate for a layer of the policy has a third more bytes than the layer size.
abbrev pub FillsLayer : Entries → List ℕ → Candidate → Type 0
FillsLayer es layers c = (contains c.0 layers ≡ true) × (c.0 + c.0 / 3 ≤ total_bytes es c.1)

abbrev pub IsFull : Entries → List SegmentMeta → List ℕ → Candidate → Type 0
IsFull es original layers c = IsConversion es original c ⊎ FillsLayer es layers c

module _ (es : Entries) where
  sort_insert-HasEntry :
      (key : SegmentMeta → ℕ) (x : SegmentMeta) (xs : List SegmentMeta)
      → HasEntry es x
      → All (HasEntry es) xs
      → All (HasEntry es) (sort_insert key x xs)
  unfolding sort_insert
  sort_insert-HasEntry key x [] h k = (h, tt)
  sort_insert-HasEntry key x (y ∷ ys) h k = ground (arith, sort_insert-HasEntry key x ys)

  sort_desc-HasEntry :
      (key : SegmentMeta → ℕ) (ss : List SegmentMeta)
      → All (HasEntry es) ss
      → All (HasEntry es) (sort_desc key ss)
  unfolding sort_desc
  sort_desc-HasEntry key [] h = tt
  sort_desc-HasEntry key (s ∷ ss) h =
      sort_insert-HasEntry key s (sort_desc key ss) h.0 (sort_desc-HasEntry key ss h.1)

  keep-HasEntry :
      (exclude : List ℕ) (ss : List SegmentMeta)
      → All
          (HasEntry es)
          (keep (λ s. is_some (get_entry s.id es) && not (contains s.id exclude)) ss)
  keep-HasEntry exclude [] = tt
  keep-HasEntry exclude (s ∷ ss) = ground (arith, keep-HasEntry exclude ss)

module _ (P : ℕ → Type 0) where
  All-sort_insert : (x : ℕ) (xs : List ℕ) → P x → All P xs → All P (sort_insert (λ n. n) x xs)
  unfolding sort_insert
  All-sort_insert x [] h k = (h, tt)
  All-sort_insert x (y ∷ ys) h k = ground (arith, All-sort_insert x ys)

  All-sort_desc : (xs : List ℕ) → All P xs → All P (sort_desc (λ n. n) xs)
  unfolding sort_desc
  All-sort_desc [] h = tt
  All-sort_desc (x ∷ xs) h = All-sort_insert x (sort_desc (λ n. n) xs) h.0 (All-sort_desc xs h.1)

contains-All :
    (whole xs : List ℕ)
    → ((n : ℕ) → contains n xs ≡ true → contains n whole ≡ true)
    → All (λ n. contains n whole ≡ true) xs
contains-All whole [] sub = tt
contains-All whole (x ∷ xs) sub =
    (sub x (ground arith), contains-All whole xs (λ n h. sub n (ground arith)))

module _ (alive_bytes : ℕ → ℕ → ℕ → ℕ) (es : Entries) (avg : ℕ) (whole : List SegmentMeta)
    (sizes : List ℕ) where
  fill_layer-IsFull :
      (merged : List ℕ) (layer : ℕ) (ids : List ℕ) (bytes : ℕ) (ss : List SegmentMeta)
      → contains layer sizes ≡ true
      → bytes ≡ total_bytes es ids
      → All (HasEntry es) ss
      → All (IsFull es whole sizes) (fill_layer alive_bytes es avg merged layer ids bytes ss)
  unfolding fill_layer
  fill_layer-IsFull merged layer ids bytes [] c e h =
      elim (Bool-cases (ltb bytes (layer + layer / 3))) [
        | inl few ↦ rw few tt
        | inr enough ↦ rw enough (inr (c, ground (arith, e)), tt)
      ]
  fill_layer-IsFull merged layer ids bytes (s ∷ ss) c e h =
      let bytes' = bytes + actual_byte_size es avg s in
      let e' : bytes' ≡ total_bytes es (ids ++ s.id ∷ []) =
        omega (arith, total_bytes-append es ids (s.id ∷ []), actual-eq-entry es avg s h.0) in
      elim (Bool-cases
        (contains s.id merged || ltb layer (adjusted_byte_size alive_bytes es avg s))) [
          | inl skipped ↦
              rw (skipped, fill_layer) (fill_layer-IsFull merged layer ids bytes ss c e h.1)
          | inr taken ↦
              rw (taken, fill_layer)
                (elim (Bool-cases (leb (layer + layer / 3) bytes')) [
                  | inl full ↦
                      rw (full, fill_layer)
                        (
                          inr (c, ground (arith, e')),
                          fill_layer-IsFull merged layer [] 0 ss c refl h.1,
                        )
                  | inr more ↦
                      rw (more, fill_layer)
                        (fill_layer-IsFull merged layer (ids ++ s.id ∷ []) bytes' ss c e' h.1)
                ])
        ]

  run_layers-IsFull :
      (original : List SegmentMeta) (layers : List ℕ) (candidates : List Candidate)
      (merged : List ℕ)
      → All (λ n. contains n sizes ≡ true) layers
      → All (IsFull es whole sizes) candidates
      → All
          (IsFull es whole sizes)
          (run_layers alive_bytes es avg original layers candidates merged)
  unfolding run_layers collect_mergeable_segments
  run_layers-IsFull original [] candidates merged l h = h
  run_layers-IsFull original (layer ∷ layers) candidates merged l h =
      run_layers-IsFull original layers _ _ l.1 (
        All-append (IsFull es whole sizes) candidates _ h (
          fill_layer-IsFull merged layer [] 0 _ l.0 refl (
            sort_desc-HasEntry es (adjusted_byte_size alive_bytes es avg) _
              (keep-HasEntry es merged original))))

  mutable_candidates-IsFull :
      (part : Entries)
      → ((id : ℕ) → has_mutable id part ≡ true → has_mutable id es ≡ true)
      → All (IsFull es whole sizes) (mutable_candidates whole part)
  unfolding mutable_candidates
  mutable_candidates-IsFull [] sub = tt
  mutable_candidates-IsFull ((k, e) ∷ part) sub =
      let later = mutable_candidates-IsFull part (λ id h. sub id (ground (arith, h))) in
      elim (Bool-cases (is_mutable e && find_segment k whole)) [
        | inl both ↦ rw both (
          inl (refl, (k, refl, sub k (ground (arith, both, ==_refl k)), ground (arith, both))),
          later,
        )
        | inr neither ↦ rw neither later
      ]

-- Each candidate either was made to convert a segment, or was made for a layer of the policy. One
-- that converts has a single segment, which is among those offered and whose entry is mutable. The
-- segments of one for a layer have together at least a third more bytes than the layer size.
pub all_candidates-IsFull :
    (alive_bytes : ℕ → ℕ → ℕ → ℕ) (p : LayeredMergePolicy) (avg : ℕ) (original : List SegmentMeta)
    → All
        (IsFull p.mergeable_segments original p.layer_sizes)
        (all_candidates alive_bytes p avg original)
unfolding all_candidates
all_candidates-IsFull alive_bytes p avg original =
    run_layers-IsFull alive_bytes p.mergeable_segments avg original p.layer_sizes original
      (sort_desc (λ (size : ℕ). size) p.layer_sizes)
      (mutable_candidates original p.mergeable_segments)
      (ids_of (mutable_candidates original p.mergeable_segments))
      (All-sort_desc (λ n. contains n p.layer_sizes ≡ true) p.layer_sizes
        (contains-All p.layer_sizes p.layer_sizes (λ n h. h)))
      (mutable_candidates-IsFull alive_bytes p.mergeable_segments avg original p.layer_sizes
        p.mergeable_segments (λ id h. h))
