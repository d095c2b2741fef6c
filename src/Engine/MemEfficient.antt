-- ===== src/Engine/MemEfficient.antt =====
-- memEfficientEngine of internal/engine/engine_map.go with its root filter, and its four queries.
-- newBloomFilter's floating-point formulas are the parameter `sizing`.
pub mod Answer
pub mod Queries
pub mod Index
use acor.Prelude.{
  ℕ, zero, suc, ◌+◌, ◌-◌, not, ◌||◌, Bool, true, false, Option, none, some, List, [], ◌∷◌, ◌++◌,
  Word, ltb, ◌==◌, if◌then◌else◌, length, get_or, set, replicate, word_eq,
}
use acor.Engine.Outputs.{Outputs, own_at, link_at, keyword_at, chain, Emission}
use acor.Engine.Bloom.{BloomFilter, new_bloom_filter, add_all, might_contain}
use acor.Engine.MapEngine.{MapTrie, build_trie, step, match_string}

pub record MemEfficientEngine : Type 0 where
  pub trie : MapTrie
  pub bloom : Option BloomFilter
  pub ascii_root : List Bool

-- A Go set of runes.
abbrev has_rune : ℕ → List ℕ → Bool
has_rune r [] = false
has_rune r (q ∷ rs) = r == q || has_rune r rs

-- The set `firstRunes` that the loop over the keywords fills.
unfoldable pub first_runes : List Word → List ℕ → List ℕ
first_runes [] rs = rs
first_runes ([] ∷ kws) rs = first_runes kws rs
first_runes ((r ∷ kw) ∷ kws) rs = first_runes kws (if has_rune r rs then rs else r ∷ rs)

-- `if r < utf8.RuneSelf { asciiRoot[r] = true }`
unfoldable pub mark_ascii : List ℕ → List Bool → List Bool
mark_ascii [] table = table
mark_ascii (r ∷ rs) table = mark_ascii rs (if ltb r 128 then set table r true else table)

unfoldable pub build_from_sequence : (ℕ → ℕ × ℕ) → List Word → MemEfficientEngine
unfolding build_trie first_runes mark_ascii new_bloom_filter add_all
build_from_sequence sizing keywords =
    let firsts = first_runes keywords [] in
    record {
      trie = build_trie keywords;
      bloom = some (add_all (new_bloom_filter sizing (length firsts)) firsts);
      ascii_root = mark_ascii firsts (replicate 128 false);
    }

unfoldable pub skip_at_root : MemEfficientEngine → Bool → ℕ → Bool
unfolding might_contain
skip_at_root e at_root ch =
    if not at_root
    then false
    else if ltb ch 128
    then not (get_or e.ascii_root ch false)
    else elim e.bloom [ none ↦ false | some bf ↦ not (might_contain bf ch) ]

unfoldable pub engine_match_string : MemEfficientEngine → Word → List Emission
unfolding match_string skip_at_root
engine_match_string e text = match_string e.trie (skip_at_root e true) text

-- appendChain: the keywords on the chain go to the end of `dst`.
unfoldable pub append_chain : ℕ → Outputs → List Word → Option ℕ → List Word
append_chain fuel o dst none = dst
append_chain zero o dst (some s) = dst
append_chain (suc fuel) o dst (some s) =
    append_chain fuel o (if own_at o s == 0 then dst else dst ++ keyword_at o (own_at o s) ∷ [])
      (link_at o s)

-- The loop of find from `state`, with what it has matched.
unfoldable pub find_from : MemEfficientEngine → ℕ → List Word → Word → List Word
unfolding skip_at_root step append_chain
find_from e state matched [] = matched
find_from e state matched (ch ∷ text) =
    let state' = step (length e.trie.nodes) e.trie.nodes state ch in
    let skipped = find_from e state matched text in
    let read =
      find_from e state' (append_chain (length e.trie.nodes) e.trie.out matched (some state'))
        text in
    if skip_at_root e (state == 0) ch then skipped else read

unfoldable pub find : MemEfficientEngine → Word → List Word
unfolding find_from
find e text = if ltb 1 (length e.trie.nodes) then find_from e 0 [] text else []

-- A Go map from keywords to offsets.
abbrev pub IndexMap : Type 0
IndexMap = List (Word × List ℕ)

unfoldable pub index_at : IndexMap → Word → List ℕ
index_at [] kw = []
index_at ((w, offsets) ∷ m) kw = if word_eq w kw then offsets else index_at m kw

-- `dst[kw] = append(dst[kw], offset)`
unfoldable pub index_add : IndexMap → Word → ℕ → IndexMap
index_add [] kw offset = (kw, offset ∷ []) ∷ []
index_add ((w, offsets) ∷ m) kw offset =
    let rest = index_add m kw offset in
    if word_eq w kw then (w, offsets ++ offset ∷ []) ∷ m else (w, offsets) ∷ rest

-- indexChain
unfoldable pub index_chain : ℕ → Outputs → IndexMap → Option ℕ → ℕ → IndexMap
unfolding index_add
index_chain fuel o dst none end = dst
index_chain zero o dst (some s) end = dst
index_chain (suc fuel) o dst (some s) end =
    let id = own_at o s in
    index_chain fuel o
      (if id == 0 then dst else index_add dst (keyword_at o id) (end - get_or o.rune_lens id 0))
      (link_at o s) end

unfoldable pub find_index_from : MemEfficientEngine → ℕ → ℕ → IndexMap → Word → IndexMap
unfolding skip_at_root step index_chain
find_index_from e state rune_index matched [] = matched
find_index_from e state rune_index matched (ch ∷ text) =
    let end = rune_index + 1 in
    let state' = step (length e.trie.nodes) e.trie.nodes state ch in
    let skipped = find_index_from e state end matched text in
    let read =
      find_index_from e state' end
        (index_chain (length e.trie.nodes) e.trie.out matched (some state') end) text in
    if skip_at_root e (state == 0) ch then skipped else read

unfoldable pub find_index : MemEfficientEngine → Word → IndexMap
unfolding find_index_from
find_index e text = if ltb 1 (length e.trie.nodes) then find_index_from e 0 0 [] text else []
