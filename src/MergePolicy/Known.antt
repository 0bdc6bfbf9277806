-- ===== src/MergePolicy/Known.antt =====
-- What is known of the segments that stand in a candidate.
use paradedb.Common.{
  ℕ, ◌+◌, ◌≡◌, true, not, ◌&&◌, List, [], ◌∷◌, ◌++◌, keep, All, All-append, contains, is_some,
  arith,
}
use paradedb.MergePolicy.{
  SegmentMeta, Entries, ids_of, Candidate, LayeredMergePolicy, get_entry, find_segment,
  mutable_candidates, sort_insert, sort_desc, adjusted_byte_size, actual_byte_size,
  collect_mergeable_segments, fill_layer, run_layers, all_candidates,
}

-- What holds of each segment of a candidate: it has an entry that may be merged, and it is one of
-- the segments of the index.
abbrev pub Known : Entries → List SegmentMeta → ℕ → Type 0
Known es original id = (is_some (get_entry id es) ≡ true) × (find_segment id original ≡ true)

abbrev KnownSegment : Entries → List SegmentMeta → SegmentMeta → Type 0
KnownSegment es original s = Known es original s.id

module _ (es : Entries) (original : List SegmentMeta) where
  sort_insert-Known :
      (key : SegmentMeta → ℕ) (x : SegmentMeta) (xs : List SegmentMeta)
      → KnownSegment es original x
      → All (KnownSegment es original) xs
      → All (KnownSegment es original) (sort_insert key x xs)
  unfolding sort_insert
  sort_insert-Known key x [] h k = (h, tt)
  sort_insert-Known key x (y ∷ ys) h k = ground (arith, sort_insert-Known key x ys)

  sort_desc-Known :
      (key : SegmentMeta → ℕ) (ss : List SegmentMeta)
      → All (KnownSegment es original) ss
      → All (KnownSegment es original) (sort_desc key ss)
  unfolding sort_desc
  sort_desc-Known key [] h = tt
  sort_desc-Known key (s ∷ ss) h =
      sort_insert-Known key s (sort_desc key ss) h.0 (sort_desc-Known key ss h.1)

  keep-Known :
      (exclude : List ℕ) (ss : List SegmentMeta)
      → All (λ s. find_segment s.id original ≡ true) ss
      → All
          (KnownSegment es original)
          (keep (λ s. is_some (get_entry s.id es) && not (contains s.id exclude)) ss)
  keep-Known exclude [] h = tt
  keep-Known exclude (s ∷ ss) h = ground (arith, keep-Known exclude ss)

-- Every segment of a list is found in a list that extends it.
find_segment_self :
    (whole ss : List SegmentMeta)
    → ((id : ℕ) → find_segment id ss ≡ true → find_segment id whole ≡ true)
    → All (λ s. find_segment s.id whole ≡ true) ss
unfolding find_segment
find_segment_self whole [] sub = tt
find_segment_self whole (s ∷ ss) sub =
    (sub s.id (ground arith), find_segment_self whole ss (λ id h. sub id (ground arith)))

abbrev pub KnownCandidates : Entries → List SegmentMeta → List Candidate → Type 0
KnownCandidates es original cs = All (λ c. All (Known es original) c.1) cs

module _ (alive_bytes : ℕ → ℕ → ℕ → ℕ) (es : Entries) (avg : ℕ) (original : List SegmentMeta) where
  fill_layer-Known :
      (merged : List ℕ) (layer : ℕ) (ids : List ℕ) (bytes : ℕ) (ss : List SegmentMeta)
      → All (Known es original) ids
      → All (KnownSegment es original) ss
      → KnownCandidates es original (fill_layer alive_bytes es avg merged layer ids bytes ss)
  unfolding fill_layer
  fill_layer-Known merged layer ids bytes [] h k = ground arith
  fill_layer-Known merged layer ids bytes (s ∷ ss) h k =
      let more = All-append (Known es original) ids (s.id ∷ []) h (k.0, tt) in
      ground (
        arith,
        fill_layer-Known merged layer ids bytes ss h k.1,
        fill_layer-Known merged layer [] 0 ss tt k.1,
        fill_layer-Known merged layer (ids ++ s.id ∷ []) (bytes + actual_byte_size es avg s) ss more
            k.1,
      )

  run_layers-Known :
      (layers : List ℕ) (candidates : List Candidate) (merged : List ℕ)
      → All (λ s. find_segment s.id original ≡ true) original
      → KnownCandidates es original candidates
      → KnownCandidates es original
          (run_layers alive_bytes es avg original layers candidates merged)
  unfolding run_layers collect_mergeable_segments
  run_layers-Known [] candidates merged o h = h
  run_layers-Known (layer ∷ layers) candidates merged o h = run_layers-Known layers _ _ o (
      All-append (λ c. All (Known es original) c.1) candidates _ h
        (fill_layer-Known merged layer [] 0 _ tt (
          sort_desc-Known es original (adjusted_byte_size alive_bytes es avg) _
            (keep-Known es original merged original o))))

  mutable_candidates-Known :
      (part : Entries)
      → ((id : ℕ) → is_some (get_entry id part) ≡ true → is_some (get_entry id es) ≡ true)
      → KnownCandidates es original (mutable_candidates original part)
  unfolding mutable_candidates get_entry
  mutable_candidates-Known [] sub = tt
  mutable_candidates-Known ((k, e) ∷ part) sub =
      let known : is_some (get_entry k es) ≡ true = sub k (ground arith) in
      let rest = mutable_candidates-Known part (λ id h. sub id (ground arith)) in ground arith

-- Before the trimming, a segment of a candidate has an entry that may be merged, and is one of the
-- segments of the index.
pub all_candidates-Known :
    (alive_bytes : ℕ → ℕ → ℕ → ℕ) (p : LayeredMergePolicy) (avg : ℕ) (original : List SegmentMeta)
    → KnownCandidates p.mergeable_segments original (all_candidates alive_bytes p avg original)
unfolding all_candidates
all_candidates-Known alive_bytes p avg original =
    run_layers-Known alive_bytes p.mergeable_segments avg original
      (sort_desc (λ (size : ℕ). size) p.layer_sizes)
      (mutable_candidates original p.mergeable_segments)
      (ids_of (mutable_candidates original p.mergeable_segments))
      (find_segment_self original original (λ id h. h))
      (mutable_candidates-Known alive_bytes p.mergeable_segments avg original p.mergeable_segments
        (λ id h. h))
