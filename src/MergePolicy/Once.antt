-- ===== src/MergePolicy/Once.antt =====
-- What compute_merge_candidates returns.
use paradedb.Common.{
  ℕ, ◌≤◌, ◌≡◌, ◌≢◌, refl, ap, ◌⊎◌, inl, inr, Bool, true, false, some, List, [], ◌∷◌, ◌++◌, map,
  length, keep, All, count, count-append, IsDistinct, Bool-cases, ok, arith,
}
use paradedb.MergePolicy.{
  SegmentMeta, Entries, Candidate, LayeredMergePolicy, avg_doc_size, ids_of, has_no_entries,
  is_nonempty, is_conversion, stays, all_candidates, compute_merge_candidates,
}
use paradedb.MergePolicy.Disjoint.{segment_ids, entry_ids, all_candidates-IsDistinct}
use paradedb.MergePolicy.Known.{Known, all_candidates-Known}
use paradedb.MergePolicy.Trim.{trim-eq-keep}

abbrev pub flat : List (List ℕ) → List ℕ
flat [] = []
flat (ids ∷ rest) = ids ++ flat rest

abbrev segments_of : List Candidate → List (List ℕ)
segments_of cs = map (λ c. c.1) cs

flat-segments_of : (cs : List Candidate) → flat (segments_of cs) ≡ ids_of cs
unfolding ids_of
flat-segments_of [] = refl
flat-segments_of ((l, ids) ∷ cs) = ap (λ t. ids ++ t) (flat-segments_of cs)

module _ (a : ℕ) (p : Candidate → Bool) where
  count-ids_of-keep : (cs : List Candidate) → count a (ids_of (keep p cs)) ≤ count a (ids_of cs)
  unfolding ids_of
  count-ids_of-keep [] = omega arith
  count-ids_of-keep ((l, ids) ∷ cs) = ground (
    arith,
    count-ids_of-keep cs,
    count-append a ids (ids_of cs),
    count-append a ids (ids_of (keep p cs)),
  )

module _ (P : ℕ → Type 0) (p : Candidate → Bool) where
  All-keep :
      (cs : List Candidate)
      → All (λ c. All P c.1) cs
      → All (λ ids. All P ids) (segments_of (keep p cs))
  All-keep [] h = tt
  All-keep (c ∷ cs) h = elim (Bool-cases (p c)) [
    | inl k ↦ rw k (h.0, All-keep cs h.1)
    | inr k ↦ rw k (All-keep cs h.1)
  ]

-- A candidate converts one mutable segment, or merges at least `m` segments.
abbrev pub IsLongEnough : Entries → ℕ → List ℕ → Type 0
IsLongEnough es m ids = (is_conversion es ids ≡ true) ⊎ (m ≤ length ids)

stays_lem : (es : Entries) (m : ℕ) (c : Candidate) → stays es m c ≡ true → IsLongEnough es m c.1
unfolding stays
stays_lem es m c k = elim (Bool-cases (is_conversion es c.1)) [
  | inl e ↦ inl e
  | inr e ↦ inr (ground arith)
]

stays-IsLongEnough :
    (es : Entries) (m : ℕ) (cs : List Candidate)
    → All (IsLongEnough es m) (segments_of (keep (stays es m) cs))
stays-IsLongEnough es m [] = tt
stays-IsLongEnough es m (c ∷ cs) = elim (Bool-cases (stays es m c)) [
  | inl k ↦ rw k (stays_lem es m c k, stays-IsLongEnough es m cs)
  | inr k ↦ rw k (stays-IsLongEnough es m cs)
]

some_entries : (es : Entries) {avg : ℕ} → avg_doc_size es ≡ some avg → has_no_entries es ≡ false
unfolding avg_doc_size
some_entries [] h = cc
some_entries (e ∷ es) h = refl

module _ (alive_bytes : ℕ → ℕ → ℕ → ℕ) (p : LayeredMergePolicy) where
  abbrev found : ℕ → List SegmentMeta → List Candidate
  found avg original =
      keep (stays p.mergeable_segments p.min_merge_count)
        (all_candidates alive_bytes p avg original)

  compute_lem :
      (s : SegmentMeta) (ss : List SegmentMeta) (avg : ℕ)
      → p.already_processed ≡ false
      → avg_doc_size p.mergeable_segments ≡ some avg
      → compute_merge_candidates alive_bytes p (s ∷ ss)
        ≡ ok (
          segments_of (found avg (s ∷ ss)),
          record p { already_processed = is_nonempty (found avg (s ∷ ss)) },
        )
  unfolding compute_merge_candidates all_candidates
  compute_lem s ss avg a v =
      rw (a, compute_merge_candidates)
        (rw (some_entries p.mergeable_segments v) (
          rw v (
            ap (λ cs. ok (segments_of cs, record p { already_processed = is_nonempty cs }))
              (trim-eq-keep p.mergeable_segments p.min_merge_count
                (length (all_candidates alive_bytes p avg (s ∷ ss)))
                (all_candidates alive_bytes p avg (s ∷ ss)) (omega arith)))))

  processed_once :
      (cs : List Candidate)
      → segments_of cs ≢ []
      → (later : List SegmentMeta)
      → let p' : LayeredMergePolicy = record p { already_processed = is_nonempty cs } in
        compute_merge_candidates alive_bytes p' later ≡ ok ([], p')
  unfolding compute_merge_candidates
  processed_once [] h later = absurd (h refl)
  processed_once (c ∷ cs) h [] = refl
  processed_once (c ∷ cs) h (t ∷ later) = refl

  -- On an index with segments, a policy that has not made candidates yet and whose entries have a
  -- document at all does not panic. With distinct ids, no segment stands in two candidates or twice
  -- in one; each has an entry that may be merged and is a segment of the index; each candidate
  -- converts one mutable segment or merges at least `min_merge_count` segments; and if there are
  -- candidates, a second call, on any segments, returns none.
  pub compute_merge_candidates_sound :
      (s : SegmentMeta) (ss : List SegmentMeta) (avg : ℕ)
      → p.already_processed ≡ false
      → avg_doc_size p.mergeable_segments ≡ some avg
      → IsDistinct (segment_ids (s ∷ ss))
      → IsDistinct (entry_ids p.mergeable_segments)
      → (candidates : List (List ℕ)) × (p' : LayeredMergePolicy) × (compute_merge_candidates
            alive_bytes p
            (s ∷ ss)
          ≡ ok (candidates, p'))
        × IsDistinct (flat candidates)
        × All (λ ids. All (Known p.mergeable_segments (s ∷ ss)) ids) candidates
        × All (IsLongEnough p.mergeable_segments p.min_merge_count) candidates
        × (candidates ≢ []
            → (later : List SegmentMeta)
            → compute_merge_candidates alive_bytes p' later ≡ ok ([], p'))
  compute_merge_candidates_sound s ss avg a v o k =
      let all = all_candidates alive_bytes p avg (s ∷ ss) in
      (
        segments_of (found avg (s ∷ ss)),
        record p { already_processed = is_nonempty (found avg (s ∷ ss)) },
        compute_lem s ss avg a v,
        λ x. rw (flat-segments_of (found avg (s ∷ ss))) (
            omega (
              arith,
              count-ids_of-keep x (stays p.mergeable_segments p.min_merge_count) all,
              all_candidates-IsDistinct alive_bytes p avg (s ∷ ss) o k x,
            )),
        All-keep _ _ all (all_candidates-Known alive_bytes p avg (s ∷ ss)),
        stays-IsLongEnough p.mergeable_segments p.min_merge_count all,
        λ some_found later. processed_once (found avg (s ∷ ss)) some_found later,
      )
