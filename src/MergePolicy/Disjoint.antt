-- ===== src/MergePolicy/Disjoint.antt =====
-- No segment stands in two candidates.
use paradedb.Common.{
  ℕ, zero, suc, ◌+◌, ◌≤◌, ◌<◌, ◌≡◌, refl, Bool, true, not, ◌&&◌, List, [], ◌∷◌, ◌++◌, keep,
  contains, count, count-append, IsDistinct, ◌==◌, if◌then◌else◌, is_some, arith,
}
use paradedb.MergePolicy.{
  SegmentMeta, Entries, Candidate, LayeredMergePolicy, get_entry, mutable_candidates, sort_insert,
  sort_desc, ids_of, adjusted_byte_size, actual_byte_size, collect_mergeable_segments, fill_layer,
  run_layers, all_candidates,
}

abbrev pub segment_ids : List SegmentMeta → List ℕ
segment_ids [] = []
segment_ids (s ∷ ss) = s.id ∷ segment_ids ss

abbrev pub entry_ids : Entries → List ℕ
entry_ids [] = []
entry_ids ((k, e) ∷ es) = k ∷ entry_ids es

pub count-ids_of-append :
    (a : ℕ) (cs ds : List Candidate)
    → count a (ids_of (cs ++ ds)) ≡ count a (ids_of cs) + count a (ids_of ds)
unfolding ids_of
count-ids_of-append a [] ds = omega arith
count-ids_of-append a ((l, ids) ∷ cs) ds = omega (
  arith,
  count-append a ids (ids_of cs ++ ids_of ds),
  count-append a ids (ids_of (cs ++ ds)),
  count-append a ids (ids_of cs),
  count-ids_of-append a cs ds,
)

contains-append :
    (a : ℕ) (xs ys : List ℕ)
    → contains a (xs ++ ys) ≡ (if contains a xs then true else contains a ys)
contains-append a [] ys = refl
contains-append a (x ∷ xs) ys = ground (arith, contains-append a xs ys)

contains_of_count : (a : ℕ) (xs : List ℕ) → 0 < count a xs → contains a xs ≡ true
contains_of_count a [] h = absurd (omega arith)
contains_of_count a (x ∷ xs) h = ground (arith, contains_of_count a xs)

module _ (key : SegmentMeta → ℕ) (a : ℕ) where
  count-sort_insert :
      (x : SegmentMeta) (xs : List SegmentMeta)
      → count a (segment_ids (sort_insert key x xs))
        ≡ (if a == x.id then 1 else 0) + count a (segment_ids xs)
  unfolding sort_insert
  count-sort_insert x [] = refl
  count-sort_insert x (y ∷ ys) = ground (arith, count-sort_insert x ys)

  count-sort_desc :
      (xs : List SegmentMeta) → count a (segment_ids (sort_desc key xs)) ≡ count a (segment_ids xs)
  unfolding sort_desc
  count-sort_desc [] = refl
  count-sort_desc (x ∷ xs) =
      omega (arith, count-sort_insert x (sort_desc key xs), count-sort_desc xs)

module _ (es : Entries) (exclude : List ℕ) (a : ℕ) where
  abbrev eligible : SegmentMeta → Bool
  eligible s = is_some (get_entry s.id es) && not (contains s.id exclude)

  count-keep :
      (xs : List SegmentMeta) → count a (segment_ids (keep eligible xs)) ≤ count a (segment_ids xs)
  count-keep [] = omega arith
  count-keep (x ∷ xs) = ground (arith, count-keep xs)

  count-keep_excluded :
      (xs : List SegmentMeta)
      → contains a exclude ≡ true
      → count a (segment_ids (keep eligible xs)) ≡ 0
  count-keep_excluded [] h = refl
  count-keep_excluded (x ∷ xs) h = ground (arith, count-keep_excluded xs)

module _ (alive_bytes : ℕ → ℕ → ℕ → ℕ) (es : Entries) (avg a : ℕ) where
  count-fill_layer :
      (merged : List ℕ) (layer : ℕ) (ids : List ℕ) (bytes : ℕ) (ss : List SegmentMeta)
      → count a (ids_of (fill_layer alive_bytes es avg merged layer ids bytes ss))
        ≤ count a ids + count a (segment_ids ss)
  unfolding fill_layer ids_of
  count-fill_layer merged layer ids bytes [] = ground (arith, count-append a ids [])
  count-fill_layer merged layer ids bytes (s ∷ ss) = ground (
    arith,
    count-fill_layer merged layer ids bytes ss,
    count-fill_layer merged layer [] 0 ss,
    count-fill_layer merged layer (ids ++ s.id ∷ []) (bytes + actual_byte_size es avg s) ss,
    count-append a ids (s.id ∷ []),
    count-append a (ids ++ s.id ∷ []) (ids_of (fill_layer alive_bytes es avg merged layer [] 0 ss)),
  )

  -- One layer adds a segment at most once, and none that is merged already.
  count_of_layer :
      (merged : List ℕ) (layer : ℕ) (original : List SegmentMeta)
      → let new =
          fill_layer alive_bytes es avg merged layer [] 0
            (collect_mergeable_segments alive_bytes es avg merged original) in
        (count a (ids_of new) ≤ count a (segment_ids original))
        × (contains a merged ≡ true → count a (ids_of new) ≡ 0)
  unfolding collect_mergeable_segments
  count_of_layer merged layer original =
      let segments = collect_mergeable_segments alive_bytes es avg merged original in
      let sorted : count a (segment_ids segments)
          ≡ count a (segment_ids (keep (eligible es merged a) original)) =
        count-sort_desc (adjusted_byte_size alive_bytes es avg) a
          (keep (eligible es merged a) original) in
      let bound = count-fill_layer merged layer [] 0 segments in
      (
        omega (arith, bound, sorted, count-keep es merged a original),
        λ h. omega (arith, bound, sorted, count-keep_excluded es merged a original h),
      )

  count-run_layers :
      (original : List SegmentMeta) (layers : List ℕ) (candidates : List Candidate)
      (merged : List ℕ)
      → count a (segment_ids original) ≤ 1
      → count a (ids_of candidates) ≤ 1
      → (0 < count a (ids_of candidates) → contains a merged ≡ true)
      → count a (ids_of (run_layers alive_bytes es avg original layers candidates merged)) ≤ 1
  unfolding run_layers
  count-run_layers original [] candidates merged o c m = c
  count-run_layers original (layer ∷ layers) candidates merged o c m =
      let new =
        fill_layer alive_bytes es avg merged layer [] 0
          (collect_mergeable_segments alive_bytes es avg merged original) in
      let split = count-ids_of-append a candidates new in
      let bound = count_of_layer merged layer original in
      count-run_layers original layers (candidates ++ new) (merged ++ ids_of (candidates ++ new)) o
        (at_most_one (count a (ids_of candidates)) (count a (ids_of new)) split o c m bound)
        (λ h. ground (
          arith,
          contains-append a merged (ids_of (candidates ++ new)),
          contains_of_count a (ids_of (candidates ++ new)) h,
        ))
    where
      at_most_one :
          (old new : ℕ) {n : ℕ}
          → n ≡ old + new
          → count a (segment_ids original) ≤ 1
          → old ≤ 1
          → (0 < old → contains a merged ≡ true)
          → (new ≤ count a (segment_ids original)) × (contains a merged ≡ true → new ≡ 0)
          → n ≤ 1
      at_most_one zero new e o c m b = omega arith
      at_most_one (suc k) new e o c m b = omega (arith, b.1 (m (omega arith)))

count-mutable_candidates :
    (a : ℕ) (original : List SegmentMeta) (es : Entries)
    → count a (ids_of (mutable_candidates original es)) ≤ count a (entry_ids es)
unfolding mutable_candidates ids_of
count-mutable_candidates a original [] = omega arith
count-mutable_candidates a original ((k, e) ∷ es) =
    ground (arith, count-mutable_candidates a original es)

-- With distinct ids in the index and in the map of entries, no segment stands in two candidates
-- before the trimming, nor twice in one.
pub all_candidates-IsDistinct :
    (alive_bytes : ℕ → ℕ → ℕ → ℕ) (p : LayeredMergePolicy) (avg : ℕ) (original : List SegmentMeta)
    → IsDistinct (segment_ids original)
    → IsDistinct (entry_ids p.mergeable_segments)
    → IsDistinct (ids_of (all_candidates alive_bytes p avg original))
unfolding all_candidates
all_candidates-IsDistinct alive_bytes p avg original o k a =
    let conversions = mutable_candidates original p.mergeable_segments in
    count-run_layers alive_bytes p.mergeable_segments avg a original
      (sort_desc (λ (size : ℕ). size) p.layer_sizes) conversions (ids_of conversions) (o a)
      (omega (arith, count-mutable_candidates a original p.mergeable_segments, k a))
      (contains_of_count a (ids_of conversions))
