-- ===== src/Parallel/Index.antt =====
-- FindIndexParallelContext of pkg/acor/context_ops.go, and mergeIndexResults of pkg/acor/parallel.go.
pub mod Merged
pub mod Folded
pub mod Sorted
pub mod Places
use acor.Prelude.{
  ℕ, ◌+◌, List, [], ◌∷◌, map, Word, Bool, true, false, ltb, leb, ◌==◌, ◌||◌, word_eq, if◌then◌else◌,
}
use acor.Plan.{is_empty}
use acor.Engine.Outputs.{Emission}
use acor.Engine.MemEfficient.{IndexMap, index_add}
use acor.Engine.Handle.{Engine, engine_find_index, reports}
use acor.V2.{Result, ok, err, canceled, invalid_chunk_size}
use acor.Parallel.{ParallelOptions, Chunk}
use acor.Parallel.Find.{normalize_text, scan_chunks, chunks_of}

-- A Go set of positions.
abbrev pub has_position : ℕ → List ℕ → Bool
has_position p [] = false
has_position p (q ∷ ps) = p == q || has_position p ps

abbrev pub insert_position : ℕ → List ℕ → List ℕ
insert_position p ps = if has_position p ps then ps else p ∷ ps

-- `merged[keyword][p] = struct{}{}`, and the empty set that is made for a new keyword.
unfoldable pub ensure_keyword : IndexMap → Word → IndexMap
ensure_keyword [] kw = (kw, []) ∷ []
ensure_keyword ((w, ps) ∷ m) kw =
    let rest = ensure_keyword m kw in if word_eq w kw then (w, ps) ∷ m else (w, ps) ∷ rest

unfoldable pub add_position : IndexMap → Word → ℕ → IndexMap
add_position [] kw p = (kw, p ∷ []) ∷ []
add_position ((w, ps) ∷ m) kw p =
    let rest = add_position m kw p in
    if word_eq w kw then (w, insert_position p ps) ∷ m else (w, ps) ∷ rest

unfoldable pub merge_positions : ℕ → Word → IndexMap → List ℕ → IndexMap
unfolding add_position
merge_positions offset kw merged [] = merged
merge_positions offset kw merged (i ∷ indices) =
    merge_positions offset kw (add_position merged kw (i + offset)) indices

unfoldable pub merge_matches : ℕ → IndexMap → IndexMap → IndexMap
unfolding merge_positions ensure_keyword
merge_matches offset merged [] = merged
merge_matches offset merged ((kw, indices) ∷ matches) =
    merge_matches offset (merge_positions offset kw (ensure_keyword merged kw) indices) matches

unfoldable pub merge_chunks : IndexMap → List Chunk → List IndexMap → IndexMap
unfolding merge_matches
merge_chunks merged [] per_chunk = merged
merge_chunks merged (c ∷ chunks) [] = merged
merge_chunks merged (c ∷ chunks) (matches ∷ per_chunk) =
    merge_chunks (merge_matches c.text_offset merged matches) chunks per_chunk

-- slices.Sort
unfoldable pub insert_sorted : ℕ → List ℕ → List ℕ
insert_sorted p [] = p ∷ []
insert_sorted p (q ∷ ps) = let rest = insert_sorted p ps in if leb p q then p ∷ q ∷ ps else q ∷ rest

unfoldable pub sort_positions : List ℕ → List ℕ
unfolding insert_sorted
sort_positions [] = []
sort_positions (p ∷ ps) = insert_sorted p (sort_positions ps)

unfoldable pub sort_all : IndexMap → IndexMap
unfolding sort_positions
sort_all [] = []
sort_all ((kw, ps) ∷ m) = (kw, sort_positions ps) ∷ sort_all m

unfoldable pub merge_index_results : List Chunk → List IndexMap → IndexMap
unfolding merge_chunks sort_all
merge_index_results chunks per_chunk = sort_all (merge_chunks [] chunks per_chunk)

-- The reports that begin in the part a chunk owns.
unfoldable pub owned_index : ℕ → IndexMap → List Emission → IndexMap
unfolding index_add
owned_index owned matches [] = matches
owned_index owned matches (m ∷ ms) =
    owned_index owned (if ltb m.start owned then index_add matches m.keyword m.start else matches)
      ms

abbrev pub merged_results : List Chunk → Result (List IndexMap) → Result IndexMap
merged_results chunks (err e) = err e
merged_results chunks (ok per_chunk) = ok (merge_index_results chunks per_chunk)

module _ (lower : ℕ → ℕ) (case_sensitive : Bool) (is_space : ℕ → Bool) where
  unfoldable pub index_owned : (Chunk → Bool) → Engine → Bool → Chunk → Result IndexMap
  unfolding owned_index
  index_owned is_canceled e auto_overlap c =
      let text = normalize_text lower case_sensitive c.text in
      if is_canceled c
      then err canceled
      else if auto_overlap
      then ok (owned_index c.owned_runes [] (reports e text))
      else ok (engine_find_index e text)

  abbrev pub index_scanned :
      (Chunk → Bool) → Word → ParallelOptions → Bool → Result Engine → Result IndexMap
  index_scanned is_canceled text opts auto_overlap (err e) = err e
  index_scanned is_canceled text opts auto_overlap (ok e) =
      let chunks = chunks_of lower case_sensitive is_space text opts e auto_overlap in
      merged_results chunks (scan_chunks (index_owned is_canceled e auto_overlap) chunks)

  -- FindIndexParallelContext
  unfoldable pub find_index_parallel :
      (Chunk → Bool) → Result Engine → Word → ParallelOptions → Bool → Result IndexMap
  unfolding index_owned merge_index_results
  find_index_parallel is_canceled load text opts auto_overlap =
      if opts.chunk_size == 0
      then err invalid_chunk_size
      else if is_empty text
      then ok []
      else index_scanned is_canceled text opts auto_overlap load
