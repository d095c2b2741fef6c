-- ===== src/V2/Queries.antt =====
-- pkg/acor/v2_ops.go and cache.go: what is read from a stored collection, and the single writes.
-- `normalize` is normalizeKeyword, and `normalize_text` normalizeText, of the strings package.
pub mod Built
pub mod Suggested
use acor.Prelude.{
  ℕ, ◌≡◌, Option, none, some, List, [], ◌∷◌, ◌++◌, map, Word, Bool, true, false, has_word,
  if◌then◌else◌, length,
}
use acor.Plan.{OutputMap, is_empty, starts_with}
use acor.Engine.Handle.{MatchEngine, Engine, build, engine_find}
use acor.V2.{
  Json, Hash, Collection, Result, ok, err, unmarshal, decode_field, Write, attempt,
  retry_on_conflict, add, remove,
}

-- AhoCorasickInfo
pub record Info : Type 0 where
  pub keywords : ℕ
  pub nodes : ℕ

abbrev pub info_of : Option (List Word) → Option (List Word) → Result Info
info_of none prefixes = err unmarshal
info_of (some keywords) none = err unmarshal
info_of (some keywords) (some prefixes) =
    ok (record { keywords = length keywords; nodes = length prefixes })

-- The loop of suggest.
unfoldable pub starting_with : Word → List Word → List Word
starting_with input [] = []
starting_with input (kw ∷ kws) =
    let rest = starting_with input kws in if starts_with kw input then kw ∷ rest else rest

abbrev pub suggested : Word → Option (List Word) → Result (List Word)
suggested input none = err unmarshal
suggested input (some keywords) = ok (starting_with input keywords)

abbrev pub indexed : Result (List Word) → Result (List (Word × List ℕ))
indexed (err e) = err e
indexed (ok results) = ok (map (λ kw. (kw, 0 ∷ [])) results)

abbrev pub with_entry : Word → Option (List Word) → Result OutputMap → Result OutputMap
with_entry state none rest = err unmarshal
with_entry state (some outs) (err e) = err e
with_entry state (some outs) (ok outputs) = ok ((state, outs) ∷ outputs)

-- parseOutputs, entry by entry.
unfoldable pub parse_outputs : Json → Hash → Result OutputMap
parse_outputs json [] = ok []
parse_outputs json ((state, written) ∷ raw) =
    with_entry state (json.decode written) (parse_outputs json raw)

-- The set that buildEngineFromOutputs collects.
unfoldable pub insert_all : List Word → List Word → List Word
insert_all [] keywords = keywords
insert_all (kw ∷ outs) keywords =
    insert_all outs (if has_word kw keywords then keywords else kw ∷ keywords)

unfoldable pub keywords_of_outputs : OutputMap → List Word → List Word
unfolding insert_all
keywords_of_outputs [] keywords = keywords
keywords_of_outputs ((state, outs) ∷ outputs) keywords =
    keywords_of_outputs outputs (insert_all outs keywords)

abbrev pub gathered : Result OutputMap → Result (List Word)
gathered (err e) = err e
gathered (ok outputs) = ok (keywords_of_outputs outputs [])

-- The keywords that buildEngineFromOutputs hands to the engine's Build, from the outputs hash as it was read.
unfoldable pub keywords_to_build : Json → Hash → Result (List Word)
unfolding parse_outputs keywords_of_outputs
keywords_to_build json raw = gathered (parse_outputs json raw)

module _ (json : Json) (normalize : Word → Word) where
  unfoldable pub info : Collection → Result Info
  info c = info_of (decode_field json c.trie.keywords) (decode_field json c.trie.prefixes)

  unfoldable pub suggest : Collection → Word → Result (List Word)
  unfolding starting_with
  suggest c input =
      let input' = normalize input in
      if is_empty input' then ok [] else suggested input' (decode_field json c.trie.keywords)

  unfoldable pub suggest_index : Collection → Word → Result (List (Word × List ℕ))
  unfolding suggest
  suggest_index c input = indexed (suggest c input)
