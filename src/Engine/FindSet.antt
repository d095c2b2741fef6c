-- ===== src/Engine/FindSet.antt =====
-- findSet of internal/engine/engine_map.go and the setCollector of internal/engine/engine_output.go.
-- The collector's two sets are bitsets or, past dedupHashMin, maps; both are lists of ids here.
pub mod Collected
use acor.Prelude.{
  ℕ, zero, suc, ◌+◌, ◌&&◌, ◌||◌, Bool, true, false, Option, none, some, List, [], ◌∷◌, ◌++◌, Word,
  ltb, ◌==◌, if◌then◌else◌, length,
}
use acor.Engine.Outputs.{Outputs, own_at, link_at, keyword_at}
use acor.Engine.MapEngine.{step}
use acor.Engine.MemEfficient.{MemEfficientEngine, skip_at_root}

pub record SetCollector : Type 0 where
  pub out : List Word
  pub seen : List ℕ
  pub seen_states : List ℕ

abbrev pub has_id : ℕ → List ℕ → Bool
has_id id [] = false
has_id id (x ∷ xs) = id == x || has_id id xs

abbrev is_end : Option ℕ → Bool
is_end none = true
is_end (some _) = false

-- The loop along the chain: markKeyword, and the append for a keyword that is new.
unfoldable pub collect_keywords : ℕ → Outputs → SetCollector → Option ℕ → SetCollector
collect_keywords fuel o c none = c
collect_keywords zero o c (some s) = c
collect_keywords (suc fuel) o c (some s) =
    let id = own_at o s in
    collect_keywords fuel o
      (if id == 0 || has_id id c.seen
        then c
        else record c { out = c.out ++ keyword_at o id ∷ []; seen = id ∷ c.seen })
      (link_at o s)

unfoldable pub collect_chain : ℕ → Outputs → SetCollector → ℕ → SetCollector
unfolding collect_keywords
collect_chain fuel o c state =
    if own_at o state == 0 && is_end (link_at o state)
    then c
    else if has_id state c.seen_states
    then c
    else collect_keywords fuel o (record c { seen_states = state ∷ c.seen_states }) (some state)

unfoldable pub find_set_from : MemEfficientEngine → ℕ → SetCollector → Word → SetCollector
unfolding skip_at_root step collect_chain
find_set_from e state c [] = c
find_set_from e state c (ch ∷ text) =
    let state' = step (length e.trie.nodes) e.trie.nodes state ch in
    let skipped = find_set_from e state c text in
    let read =
      find_set_from e state' (collect_chain (length e.trie.nodes) e.trie.out c state') text in
    if skip_at_root e (state == 0) ch then skipped else read

unfoldable pub find_set : MemEfficientEngine → Word → List Word
unfolding find_set_from
find_set e text =
    if ltb 1 (length e.trie.nodes)
    then (find_set_from e 0 (record { out = []; seen = []; seen_states = [] }) text).out
    else []
