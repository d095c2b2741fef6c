-- ===== src/Parallel/Index/Places.antt =====
-- With automatic overlap, FindIndexParallel finds every place of every keyword.
use acor.Prelude.{
  ℕ, ◌+◌, ◌<◌, ◌≡◌, ◌≢◌, refl, sym, ap, ◌↔◌, inl, inr, List, [], map, Word, Has, Bool, true, false,
  ◌==◌, Bool-cases, arith, length, subst,
}
use acor.Plan.{is_empty}
use acor.Plan.Stored.{nil_of_is_empty}
use acor.Engine.MemEfficient.{IndexMap}
use acor.Engine.Handle.{MatchEngine, build}
use acor.V2.{ok}
use acor.Parallel.{ParallelOptions, Chunk}
use acor.Parallel.Auto.{OccursAt}
use acor.Parallel.Find.{normalize_text}
use acor.Parallel.Find.Shown.{
  chunks, reports_of, report_shown, place-inside, occurrence_reported, scan_chunks-ok,
}
use acor.Parallel.Index.{
  owned_index, merge_chunks, merge_index_results, merged_results, index_owned, index_scanned,
  find_index_parallel,
}
use acor.Parallel.Index.Merged.{IsIndexed}
use acor.Parallel.Index.Folded.{owned_index_iff, merge_chunks_iff}
use acor.Parallel.Index.Sorted.{
  IsIncreasing, sort_all_iff, sort_all-IsIncreasing, merge_chunks-IsSetMap,
}

-- `kw` is one of the keywords, is not empty and stands in the text at `p`.
abbrev pub IsPlace : List Word → Word → Word → ℕ → Type 0
IsPlace keywords text kw p = Has kw keywords × (kw ≢ []) × OccursAt kw text p

module _ (impl : MatchEngine) (keywords : List Word) (lower : ℕ → ℕ) (case_sensitive : Bool)
    (is_space : ℕ → Bool) (text : Word) (opts : ParallelOptions)
    (positive : 0 < opts.chunk_size) where
  abbrev shown_text : Word
  shown_text = normalize_text lower case_sensitive text

  abbrev all_chunks : List Chunk
  all_chunks = chunks impl keywords lower case_sensitive is_space text opts positive

  abbrev index_of_chunk : Chunk → IndexMap
  index_of_chunk c =
      owned_index c.owned_runes []
        (reports_of impl keywords lower case_sensitive is_space text opts positive c)

  abbrev found : IndexMap
  found = merge_index_results all_chunks (map index_of_chunk all_chunks)

  found_iff : (kw : Word) (p : ℕ) → IsIndexed found kw p ↔ IsPlace keywords shown_text kw p
  unfolding merge_index_results
  found_iff kw p =
      let sorted = sort_all_iff (merge_chunks [] all_chunks (map index_of_chunk all_chunks)) kw p in
      let merged = merge_chunks_iff index_of_chunk all_chunks [] kw p in
      let in_chunk = λ (c : Chunk) (i : ℕ).
        owned_index_iff c.owned_runes []
          (reports_of impl keywords lower case_sensitive is_space text opts positive c) kw i in
      (
        λ h. elim (merged.0 (sorted.0 h)) [
          | inl (_, z, _) ↦ elim z [ ]
          | inr (c, i, (x, j, e)) ↦ elim ((in_chunk c x).0 j) [
            | inl (_, z, _) ↦ elim z [ ]
            | inr (m, q, l, f, g) ↦
                let (known, n, o) =
                  report_shown impl keywords lower case_sensitive is_space text opts positive c m i
                    q l in
                let at : c.text_offset + m.start ≡ p = omega (arith, e, g) in
                subst (λ k. IsPlace keywords shown_text k p) (sym f)
                  (known, n, subst (OccursAt m.keyword shown_text) at o)
          ]
        ],
        λ (known, n, o).
            let (c, i, (m, q, l, f, g)) =
              occurrence_reported impl keywords lower case_sensitive is_space text opts positive kw
                p known n o in
            sorted.1 (
              merged.1 (
                inr (
                  c,
                  i,
                  (m.start, (in_chunk c m.start).1 (inr (m, q, l, f, refl)), omega (arith, g)),
                ))),
      )

  found-IsIncreasing : (kw : Word) (l : List ℕ) → Has (kw, l) found → IsIncreasing l
  unfolding merge_index_results
  found-IsIncreasing =
      sort_all-IsIncreasing (merge_chunks [] all_chunks (map index_of_chunk all_chunks))
        (merge_chunks-IsSetMap [] all_chunks (map index_of_chunk all_chunks) tt)

  scanned-found :
      (is_canceled : Chunk → Bool)
      → ((c : Chunk) → is_canceled c ≡ false)
      → index_scanned lower case_sensitive is_space is_canceled text opts true
          (ok (build impl keywords))
        ≡ ok found
  unfolding index_owned build
  scanned-found is_canceled going = ap (merged_results all_chunks) (
      scan_chunks-ok
        (index_owned lower case_sensitive is_space is_canceled (build impl keywords) true)
        index_of_chunk all_chunks (λ c. rw (going c) refl))

  no_place : (kw : Word) (p : ℕ) → IsPlace keywords shown_text kw p → text ≢ []
  no_place kw p (known, n, o) e =
      let inside =
        place-inside impl keywords lower case_sensitive is_space text opts positive kw p n o in
      absurd (omega (arith, ap length e))

  -- With a positive chunk size, no cancellation and automatic overlap, FindIndexParallel on an engine
  -- built from any keywords succeeds. Its map has a keyword at a position exactly if the keyword is not
  -- empty and stands there in the text as it is normalized, and each of its lists is increasing, so no
  -- position stands twice.
  pub find_index_parallel_iff :
      (is_canceled : Chunk → Bool)
      → ((c : Chunk) → is_canceled c ≡ false)
      → (result : IndexMap) × (find_index_parallel lower case_sensitive is_space is_canceled
            (ok (build impl keywords))
            text
            opts
            true
          ≡ ok result)
        × ((kw : Word) (p : ℕ) → IsIndexed result kw p ↔ IsPlace keywords shown_text kw p)
        × ((kw : Word) (l : List ℕ) → Has (kw, l) result → IsIncreasing l)
  unfolding find_index_parallel
  find_index_parallel_iff is_canceled going =
      let sized : (opts.chunk_size == 0) ≡ false = ground arith in
      elim (Bool-cases (is_empty text)) [
        | inl e ↦ (
          [],
          rw (sized, e) refl,
          λ kw p. (λ (_, z, _). elim z [ ], λ h. absurd (no_place kw p h (nil_of_is_empty text e))),
          λ kw l z. elim z [ ],
        )
        | inr e ↦
            (found, rw (sized, e) (scanned-found is_canceled going), found_iff, found-IsIncreasing)
      ]
