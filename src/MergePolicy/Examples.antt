-- ===== src/MergePolicy/Examples.antt =====
-- Runs and instances of the merge policy.
use paradedb.Common.{
  ℕ, ◌≡◌, ◌≢◌, refl, true, false, some, none, List, [], ◌∷◌, keep, All, IsDistinct, ok, arith,
}
use paradedb.Segment.Data.{
  SegmentMetaEntryImmutable, new_immutable, new_mutable, num_deleted_docs, is_mutable,
}
use paradedb.Segment.Meta.{byte_size, num_docs}
use paradedb.MergePolicy.{
  SegmentMeta, Entries, Candidate, LayeredMergePolicy, avg_doc_size, adjusted_byte_size,
  actual_byte_size, stays, trim, all_candidates, compute_merge_candidates,
}
use paradedb.MergePolicy.Known.{Known}
use paradedb.MergePolicy.Layers.{IsFull, all_candidates-IsFull}
use paradedb.MergePolicy.Trim.{trim-eq-keep}
use paradedb.MergePolicy.Once.{flat, IsLongEnough, compute_merge_candidates_sound}

abbrev only_terms : ℕ → SegmentMetaEntryImmutable
only_terms bytes = record {
  postings = none;
  positions = none;
  fast_fields = none;
  field_norms = none;
  terms = some (record { starting_block = 50; total_bytes = bytes });
  store = none;
  temp_store = none;
  delete = none;
}

-- Two immutable segments and a frozen mutable one.
abbrev entries : Entries
entries =
    (1, new_immutable 1 10 0 (only_terms 600))
    ∷ (2, new_immutable 2 10 0 (only_terms 700))
    ∷ (3, new_mutable 3 4 0 (record { header_block = 30; num_deleted_docs = 0; frozen = true }))
    ∷ []

abbrev first_segment : SegmentMeta
first_segment = record { id = 1; num_docs = 10 }

abbrev other_segments : List SegmentMeta
other_segments = record { id = 2; num_docs = 10 } ∷ record { id = 3; num_docs = 4 } ∷ []

abbrev policy : LayeredMergePolicy
policy = record {
  layer_sizes = 900 ∷ 100000 ∷ [];
  min_merge_count = 2;
  mergeable_segments = entries;
  already_processed = false;
}

abbrev all_alive : ℕ → ℕ → ℕ → ℕ
all_alive bytes docs total = bytes

-- The mutable segment is converted, and the two others fill the layer of 900 bytes.
merges_two :
    compute_merge_candidates all_alive policy (first_segment ∷ other_segments)
    ≡ ok ((3 ∷ []) ∷ (2 ∷ 1 ∷ []) ∷ [], record policy { already_processed = true })
unfolding compute_merge_candidates all_candidates num_docs new_immutable num_deleted_docs
    new_mutable is_mutable adjusted_byte_size byte_size actual_byte_size
merges_two = refl

three_ids-IsDistinct : IsDistinct (1 ∷ 2 ∷ 3 ∷ [])
three_ids-IsDistinct a = ground arith

average : avg_doc_size entries ≡ some 220
unfolding avg_doc_size new_immutable new_mutable byte_size num_docs num_deleted_docs
average = refl

compute_merge_candidates_sound_example :
    (candidates : List (List ℕ)) × (p' : LayeredMergePolicy) × (compute_merge_candidates all_alive
        policy
        (first_segment ∷ other_segments)
      ≡ ok (candidates, p'))
    × IsDistinct (flat candidates)
    × All (λ ids. All (Known entries (first_segment ∷ other_segments)) ids) candidates
    × All (IsLongEnough entries 2) candidates
    × (candidates ≢ []
        → (later : List SegmentMeta) → compute_merge_candidates all_alive p' later ≡ ok ([], p'))
compute_merge_candidates_sound_example =
    compute_merge_candidates_sound all_alive policy first_segment other_segments 220 refl average
      three_ids-IsDistinct three_ids-IsDistinct

all_candidates-IsFull_example :
    All
      (IsFull entries (first_segment ∷ other_segments) (900 ∷ 100000 ∷ []))
      (all_candidates all_alive policy 220 (first_segment ∷ other_segments))
all_candidates-IsFull_example =
    all_candidates-IsFull all_alive policy 220 (first_segment ∷ other_segments)

abbrev three_candidates : List Candidate
three_candidates = (0, 3 ∷ []) ∷ (900, 1 ∷ []) ∷ (900, 2 ∷ 1 ∷ []) ∷ []

trim-eq-keep_example : trim entries 2 3 three_candidates ≡ keep (stays entries 2) three_candidates
trim-eq-keep_example = trim-eq-keep entries 2 3 three_candidates (omega arith)
