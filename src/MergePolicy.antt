-- ===== src/MergePolicy.antt =====
-- LayeredMergePolicy of pg_search/src/index/merge_policy.rs: which segments to merge. A HashMap of
-- entries is the list of its items in the order in which it iterates, a HashSet of ids a list. Byte
-- sizes, which are sizes of files on disk, are numbers whose sums stay below 2 ^ 64. The share of a
-- segment's bytes that is alive is computed in floats by the source, and a parameter here.
pub mod Disjoint
pub mod Known
pub mod Layers
pub mod Trim
pub mod Once
mod Examples
use mathlib.Core.Option
use paradedb.Common.{
  ℕ, zero, suc, ◌+◌, ◌*◌, ◌/◌, ◌%◌, Bool, true, false, not, ◌&&◌, ◌||◌, Option, none, some, List,
  [], ◌∷◌, ◌++◌, map, length, keep, contains, count, leb, ltb, ◌==◌, if◌then◌else◌, is_some,
  unwrap_or, Outcome, ok, panic, ◌>>=◌,
}
use paradedb.Segment.Data.{SegmentMetaEntry, is_mutable, num_deleted_docs}
use paradedb.Segment.Meta.{byte_size, num_docs}

-- SegmentMeta of tantivy, as far as the policy reads it.
pub record SegmentMeta : Type 0 where
  pub id : ℕ
  pub num_docs : ℕ

abbrev pub Entries : Type 0
Entries = List (ℕ × SegmentMetaEntry)

-- A MergeCandidate with the layer it was made for.
abbrev pub Candidate : Type 0
Candidate = ℕ × List ℕ

pub record LayeredMergePolicy : Type 0 where
  pub layer_sizes : List ℕ
  pub min_merge_count : ℕ
  pub mergeable_segments : Entries
  pub already_processed : Bool

-- HashMap::get
unfoldable pub get_entry : ℕ → Entries → Option SegmentMetaEntry
get_entry id [] = none
get_entry id ((k, e) ∷ es) = let rest = get_entry id es in if id == k then some e else rest

unfoldable pub sum_by : (SegmentMetaEntry → ℕ) → Entries → ℕ
sum_by f [] = 0
sum_by f ((k, e) ∷ es) = f e + sum_by f es

abbrev usize_mod : ℕ
usize_mod = 18446744073709551616

-- The total of the documents is a divisor; `none` is the panic on zero.
unfoldable pub avg_doc_size : Entries → Option ℕ
unfolding sum_by
avg_doc_size es =
    let docs = sum_by (λ e. (num_docs e + num_deleted_docs e) % usize_mod) es % usize_mod in
    if docs == 0 then none else some (sum_by byte_size es / docs)

unfoldable pub find_segment : ℕ → List SegmentMeta → Bool
find_segment id [] = false
find_segment id (s ∷ ss) = let rest = find_segment id ss in if s.id == id then true else rest

-- Every mutable segment is a candidate of its own, to be converted.
unfoldable pub mutable_candidates : List SegmentMeta → Entries → List Candidate
unfolding find_segment
mutable_candidates original [] = []
mutable_candidates original ((k, e) ∷ es) =
    let rest = mutable_candidates original es in
    if is_mutable e && find_segment k original then (0, k ∷ []) ∷ rest else rest

-- sort_by_key with `Reverse`, which is stable: largest first.
unfoldable pub sort_insert {ℓ} : {A : Type ℓ} → (A → ℕ) → A → List A → List A
sort_insert key x [] = x ∷ []
sort_insert key x (y ∷ ys) =
    let rest = sort_insert key x ys in if leb (key y) (key x) then x ∷ y ∷ ys else y ∷ rest

unfoldable pub sort_desc {ℓ} : {A : Type ℓ} → (A → ℕ) → List A → List A
unfolding sort_insert
sort_desc key [] = []
sort_desc key (x ∷ xs) = sort_insert key x (sort_desc key xs)

-- The segments in all candidates.
unfoldable pub ids_of : List Candidate → List ℕ
ids_of [] = []
ids_of ((layer, ids) ∷ cs) = ids ++ ids_of cs

unfoldable pub actual_byte_size : Entries → ℕ → SegmentMeta → ℕ
unfolding get_entry
actual_byte_size es avg s = unwrap_or (s.num_docs * avg) (Option.map byte_size (get_entry s.id es))

-- `alive_bytes bytes docs total` is the float product of the bytes and the share docs / total.
module _ (alive_bytes : ℕ → ℕ → ℕ → ℕ) where
  unfoldable pub adjusted_byte_size : Entries → ℕ → SegmentMeta → ℕ
  unfolding get_entry
  adjusted_byte_size es avg s =
      if s.num_docs == 0
      then 0
      else unwrap_or (s.num_docs * avg) (
          Option.map
            (λ e.
              alive_bytes (byte_size e) (num_docs e)
                ((num_docs e + num_deleted_docs e) % usize_mod))
            (get_entry s.id es))

  unfoldable pub collect_mergeable_segments :
      Entries → ℕ → List ℕ → List SegmentMeta → List SegmentMeta
  unfolding sort_desc get_entry
  collect_mergeable_segments es avg exclude segments =
      sort_desc (adjusted_byte_size es avg)
        (keep (λ s. is_some (get_entry s.id es) && not (contains s.id exclude)) segments)

  -- The loop over the segments of one layer, with the open candidate and its bytes so far.
  unfoldable pub fill_layer :
      Entries → ℕ → List ℕ → ℕ → List ℕ → ℕ → List SegmentMeta → List Candidate
  fill_layer es avg merged layer ids bytes [] =
      if ltb bytes (layer + layer / 3) then [] else (layer, ids) ∷ []
  fill_layer es avg merged layer ids bytes (s ∷ ss) =
      elim (contains s.id merged || ltb layer (adjusted_byte_size es avg s)) [
        | true ↦ fill_layer es avg merged layer ids bytes ss
        | false ↦ elim (leb (layer + layer / 3) (bytes + actual_byte_size es avg s)) [
          | true ↦ (layer, ids ++ s.id ∷ []) ∷ fill_layer es avg merged layer [] 0 ss
          | false ↦
              fill_layer es avg merged layer (ids ++ s.id ∷ []) (bytes + actual_byte_size es avg s)
                ss
        ]
      ]

  -- The loop over the layers.
  unfoldable pub run_layers :
      Entries → ℕ → List SegmentMeta → List ℕ → List Candidate → List ℕ → List Candidate
  unfolding fill_layer collect_mergeable_segments ids_of
  run_layers es avg original [] candidates merged = candidates
  run_layers es avg original (layer ∷ layers) candidates merged =
      let segments = collect_mergeable_segments es avg merged original in
      let candidates' = candidates ++ fill_layer es avg merged layer [] 0 segments in
      run_layers es avg original layers candidates' (merged ++ ids_of candidates')

abbrev pub has_no_entries : Entries → Bool
has_no_entries [] = true
has_no_entries (e ∷ es) = false

abbrev pub is_nonempty : List Candidate → Bool
is_nonempty [] = false
is_nonempty (c ∷ cs) = true

-- Whether the trimming loop leaves a candidate alone.
unfoldable pub is_conversion : Entries → List ℕ → Bool
unfolding get_entry
is_conversion es (id ∷ []) = elim (get_entry id es) [ none ↦ false | some e ↦ is_mutable e ]
is_conversion es _ = false

unfoldable pub stays : Entries → ℕ → Candidate → Bool
unfolding is_conversion
stays es min_merge_count c = is_conversion es c.1 || not (ltb (length c.1) min_merge_count)

-- candidates.remove(i) at the first candidate that is too short; `none` if there is none.
unfoldable pub remove_first_short : Entries → ℕ → List Candidate → Option (List Candidate)
unfolding stays
remove_first_short es min_merge_count [] = none
remove_first_short es min_merge_count (c ∷ cs) =
    let rest = Option.map (λ ds. c ∷ ds) (remove_first_short es min_merge_count cs) in
    if stays es min_merge_count c then rest else some cs

-- The 'outer loop, with a bound on its rounds.
unfoldable pub trim : Entries → ℕ → ℕ → List Candidate → List Candidate
unfolding remove_first_short
trim es min_merge_count zero cs = cs
trim es min_merge_count (suc fuel) cs = elim (remove_first_short es min_merge_count cs) [
  | none ↦ cs
  | some ds ↦ trim es min_merge_count fuel ds
]

module _ (alive_bytes : ℕ → ℕ → ℕ → ℕ) where
  unfoldable pub all_candidates : LayeredMergePolicy → ℕ → List SegmentMeta → List Candidate
  unfolding mutable_candidates sort_desc run_layers ids_of
  all_candidates p avg original =
      let conversions = mutable_candidates original p.mergeable_segments in
      run_layers alive_bytes p.mergeable_segments avg original
        (sort_desc (λ (size : ℕ). size) p.layer_sizes) conversions (ids_of conversions)

  -- compute_merge_candidates, with the policy as it is afterwards.
  unfoldable pub compute_merge_candidates :
      LayeredMergePolicy → List SegmentMeta → Outcome (List (List ℕ) × LayeredMergePolicy)
  unfolding trim avg_doc_size
  compute_merge_candidates p [] = ok ([], p)
  compute_merge_candidates p (s ∷ ss) =
      if p.already_processed
      then ok ([], p)
      else if has_no_entries p.mergeable_segments
      then panic
      else elim (avg_doc_size p.mergeable_segments) [
        | none ↦ panic
        | some avg ↦
            let found = all_candidates p avg (s ∷ ss) in
            let candidates = trim p.mergeable_segments p.min_merge_count (length found) found in
            ok (map (λ c. c.1) candidates, record p { already_processed = is_nonempty candidates })
      ]
