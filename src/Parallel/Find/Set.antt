-- ===== src/Parallel/Find/Set.antt =====
-- With automatic overlap, FindParallel finds the keywords that the text holds.
use acor.Prelude.{
  ℕ, ◌+◌, ◌<◌, ◌≡◌, ◌≢◌, refl, sym, ap, ◌↔◌, inl, inr, List, [], map, Word, Has, AllDistinct, Bool,
  true, false, subst, Bool-cases, length, arith, ◌==◌,
}
use acor.Plan.{is_empty}
use acor.Plan.Stored.{nil_of_is_empty}
use acor.Engine.Handle.{MatchEngine, build, IsFound}
use acor.V2.{ok}
use acor.Parallel.{ParallelOptions, Chunk}
use acor.Parallel.Find.{
  normalize_text, dedup_preserving_order, scanned, owned_keywords, flattened, united, scan_owned,
  find_parallel,
}
use acor.Parallel.Find.Once.{
  dedup_from_iff, dedup_from-AllDistinct, owned_keywords_iff, flattened_iff,
}
use acor.Parallel.Find.Shown.{
  chunks, reports_of, report_shown, place-inside, occurrence_reported, scan_chunks-ok,
}

module _ (impl : MatchEngine) (keywords : List Word) (lower : ℕ → ℕ) (case_sensitive : Bool)
    (is_space : ℕ → Bool) (text : Word) (opts : ParallelOptions)
    (positive : 0 < opts.chunk_size) where
  abbrev found_in_chunk : Chunk → List Word
  found_in_chunk c =
      owned_keywords c.owned_runes []
        (reports_of impl keywords lower case_sensitive is_space text opts positive c)

  abbrev all_chunks : List Chunk
  all_chunks = chunks impl keywords lower case_sensitive is_space text opts positive

  abbrev shown_text : Word
  shown_text = normalize_text lower case_sensitive text

  chunk_sound :
      (c : Chunk) (x : Word)
      → Has c all_chunks
      → Has x (found_in_chunk c)
      → IsFound keywords shown_text x
  chunk_sound c x h k =
      elim ((owned_keywords_iff c.owned_runes []
          (reports_of impl keywords lower case_sensitive is_space text opts positive c) x).0
        k) [
          | inl z ↦ elim z [ ]
          | inr (m, i, l, e) ↦
              let (known, n, o) =
                report_shown impl keywords lower case_sensitive is_space text opts positive c m h i
                  l in
              subst (IsFound keywords shown_text) (sym e) (known, n, c.text_offset + m.start, o)
        ]

  chunk_complete :
      (x : Word)
      → IsFound keywords shown_text x
      → (c : Chunk) × Has c all_chunks × Has x (found_in_chunk c)
  chunk_complete x (known, n, p, o) =
      let (c, h, (m, i, l, e, _)) =
        occurrence_reported impl keywords lower case_sensitive is_space text opts positive x p known
          n o in
      (
        c,
        h,
        (owned_keywords_iff c.owned_runes []
              (reports_of impl keywords lower case_sensitive is_space text opts positive c) x).1
            (inr (m, i, l, e)),
      )

  abbrev found : List Word
  found = dedup_preserving_order (flattened (map found_in_chunk all_chunks))

  found_iff : (x : Word) → Has x found ↔ IsFound keywords shown_text x
  unfolding dedup_preserving_order
  found_iff x =
      let once = dedup_from_iff [] (flattened (map found_in_chunk all_chunks)) x in
      let all = flattened_iff found_in_chunk all_chunks x in
      (
        λ h. elim (once.0 h) [
          | inl z ↦ elim z [ ]
          | inr k ↦ let (c, i, j) = all.0 k in chunk_sound c x i j
        ],
        λ h. once.1 (inr (all.1 (chunk_complete x h))),
      )

  found-AllDistinct : AllDistinct found
  unfolding dedup_preserving_order
  found-AllDistinct = dedup_from-AllDistinct [] (flattened (map found_in_chunk all_chunks)) tt

  scanned-found :
      (is_canceled : Chunk → Bool)
      → ((c : Chunk) → is_canceled c ≡ false)
      → scanned lower case_sensitive is_space is_canceled text opts true (ok (build impl keywords))
        ≡ ok found
  unfolding scan_owned build
  scanned-found is_canceled going = ap united (
      scan_chunks-ok
        (scan_owned lower case_sensitive is_space is_canceled (build impl keywords) true)
        found_in_chunk all_chunks (λ c. rw (going c) refl))

  nothing_found : (x : Word) → IsFound keywords shown_text x → text ≢ []
  nothing_found x (known, n, p, o) e =
      let inside =
        place-inside impl keywords lower case_sensitive is_space text opts positive x p n o in
      absurd (omega (arith, ap length e))

  -- With a positive chunk size, no cancellation and automatic overlap, FindParallel on an engine built
  -- from any keywords succeeds. It returns, each once, exactly the keywords that are not empty and occur
  -- in the text as it is normalized: cutting the text into chunks and normalizing those changes nothing.
  pub find_parallel_iff :
      (is_canceled : Chunk → Bool)
      → ((c : Chunk) → is_canceled c ≡ false)
      → (result : List Word) × (find_parallel lower case_sensitive is_space is_canceled
            (ok (build impl keywords))
            text
            opts
            true
          ≡ ok result)
        × AllDistinct result
        × ((x : Word) → Has x result ↔ IsFound keywords shown_text x)
  unfolding find_parallel
  find_parallel_iff is_canceled going =
      let sized : (opts.chunk_size == 0) ≡ false = ground arith in
      elim (Bool-cases (is_empty text)) [
        | inl e ↦ (
          [],
          rw (sized, e) refl,
          tt,
          λ x. (λ z. elim z [ ], λ h. absurd (nothing_found x h (nil_of_is_empty text e))),
        )
        | inr e ↦
            (found, rw (sized, e) (scanned-found is_canceled going), found-AllDistinct, found_iff)
      ]
