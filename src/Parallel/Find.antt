-- ===== src/Parallel/Find.antt =====
-- pkg/acor/parallel.go and context_ops.go: the searches over the chunks of a text, and over several
-- texts. `load` is what loadEngine returns, and `is_canceled` says whether the context has ended when a
-- chunk or text is reached. The workers write into separate slots, so their order does not show.
pub mod Once
pub mod Shown
pub mod Set
use acor.Prelude.{
  ℕ, List, [], ◌∷◌, ◌++◌, map, Word, Bool, true, false, ltb, ◌==◌, has_word, if◌then◌else◌,
}
use acor.Plan.{is_empty}
use acor.Engine.Outputs.{Emission}
use acor.Engine.Handle.{Engine, engine_find, engine_find_set, reports}
use acor.V2.{Result, ok, err, canceled, invalid_chunk_size}
use acor.Parallel.{ParallelOptions, Chunk, split_chunks, split_auto_chunks}

-- normalizeText, with unicode.ToLower as a parameter: strings.ToLower goes rune by rune.
abbrev pub normalize_text : (ℕ → ℕ) → Bool → Word → Word
normalize_text lower case_sensitive text = if case_sensitive then text else map lower text

-- The loop of dedupPreservingOrder; what was seen is what is in `out`.
unfoldable pub dedup_from : List Word → List Word → List Word
dedup_from out [] = out
dedup_from out (s ∷ words) = dedup_from (if has_word s out then out else out ++ s ∷ []) words

unfoldable pub dedup_preserving_order : List Word → List Word
unfolding dedup_from
dedup_preserving_order words = dedup_from [] words

abbrev pub collected : {A : Type 0} → Result A → Result (List A) → Result (List A)
collected (err e) rest = err e
collected (ok a) (err e) = err e
collected (ok a) (ok rest) = ok (a ∷ rest)

-- scanChunks: the results in the order of the chunks, or an error of one of them.
unfoldable pub scan_chunks : {A : Type 0} → (Chunk → Result A) → List Chunk → Result (List A)
scan_chunks scan [] = ok []
scan_chunks scan (c ∷ chunks) = collected (scan c) (scan_chunks scan chunks)

-- The reports that begin in the part a chunk owns, each keyword once.
unfoldable pub owned_keywords : ℕ → List Word → List Emission → List Word
owned_keywords owned matches [] = matches
owned_keywords owned matches (m ∷ ms) =
    owned_keywords owned
      (if ltb m.start owned
        then (if has_word m.keyword matches then matches else matches ++ m.keyword ∷ [])
        else matches)
      ms

abbrev pub flattened : List (List Word) → List Word
flattened [] = []
flattened (l ∷ ls) = l ++ flattened ls

abbrev pub united : Result (List (List Word)) → Result (List Word)
united (err e) = err e
united (ok per_chunk) = ok (dedup_preserving_order (flattened per_chunk))

module _ (lower : ℕ → ℕ) (case_sensitive : Bool) (is_space : ℕ → Bool) where
  unfoldable pub scan_owned : (Chunk → Bool) → Engine → Bool → Chunk → Result (List Word)
  unfolding owned_keywords
  scan_owned is_canceled e auto_overlap c =
      let text = normalize_text lower case_sensitive c.text in
      if is_canceled c
      then err canceled
      else if auto_overlap
      then ok (owned_keywords c.owned_runes [] (reports e text))
      else ok (engine_find_set e text)

  abbrev pub chunks_of : Word → ParallelOptions → Engine → Bool → List Chunk
  chunks_of text opts e auto_overlap =
      if auto_overlap
      then split_auto_chunks is_space text opts e.max_keyword_runes
      else split_chunks is_space text opts

  abbrev pub scanned :
      (Chunk → Bool) → Word → ParallelOptions → Bool → Result Engine → Result (List Word)
  scanned is_canceled text opts auto_overlap (err e) = err e
  scanned is_canceled text opts auto_overlap (ok e) =
      united
        (scan_chunks (scan_owned is_canceled e auto_overlap) (chunks_of text opts e auto_overlap))

  -- FindParallelContext
  unfoldable pub find_parallel :
      (Chunk → Bool) → Result Engine → Word → ParallelOptions → Bool → Result (List Word)
  unfolding scan_chunks scan_owned dedup_preserving_order
  find_parallel is_canceled load text opts auto_overlap =
      if opts.chunk_size == 0
      then err invalid_chunk_size
      else if is_empty text
      then ok []
      else scanned is_canceled text opts auto_overlap load

module _ (lower : ℕ → ℕ) (case_sensitive : Bool) where
  -- The result of one text of FindManyContext: an empty one needs no engine.
  abbrev pub found_in : Word → Result Engine → Result (List Word)
  found_in [] load = ok []
  found_in (c ∷ text) (err e) = err e
  found_in (c ∷ text) (ok e) = ok (engine_find e (normalize_text lower case_sensitive (c ∷ text)))

  abbrev pub keyed :
      Word
      → Result (List Word)
      → Result (List (Word × List Word))
      → Result (List (Word × List Word))
  keyed text (err e) rest = err e
  keyed text (ok found) (err e) = err e
  keyed text (ok found) (ok results) = ok ((text, found) ∷ results)

  -- FindManyContext, whose map has a text that comes twice once: both entries are the same here. The
  -- engine is loaded once, at the first text that is not empty.
  unfoldable pub find_many :
      (Word → Bool) → Result Engine → List Word → Result (List (Word × List Word))
  find_many is_canceled load [] = ok []
  find_many is_canceled load (text ∷ texts) =
      let rest = find_many is_canceled load texts in
      if is_canceled text then err canceled else keyed text (found_in text load) rest
