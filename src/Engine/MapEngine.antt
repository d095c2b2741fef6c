-- ===== src/Engine/MapEngine.antt =====
-- memEfficientEngine of internal/engine/engine_map.go: a trie in a slice of nodes, its failure links
-- by a breadth-first pass, and the scan. A text is its sequence of runes, and so is a keyword.
pub mod Trie
pub mod Grow
pub mod Insert
pub mod Keyed
pub mod Keywords
pub mod Longest
pub mod Links
pub mod Shape
pub mod LinkChild
pub mod LinkChildren
pub mod Fresh
pub mod Starts
pub mod Bfs
pub mod Automaton
pub mod Chain
pub mod Scan
pub mod Once
use acor.Prelude.{
  ℕ, zero, suc, ◌+◌, not, ◌&&◌, Bool, Option, none, some, List, [], ◌∷◌, ◌++◌, Word, ltb, ◌==◌,
  if◌then◌else◌, length, get_elem?, get_or, set, map,
}
use acor.Engine.Outputs.{Outputs, own_at, link_at, assign, chain, Emission, emission_at}
use acor.Engine.MapNode.{Edges, MapNode, blank, next, add_child, edges, targets}

pub record MapTrie : Type 0 where
  pub nodes : List MapNode
  pub out : Outputs

abbrev pub node_at : List MapNode → ℕ → MapNode
node_at nodes s = get_or nodes s blank

-- The root alone, and the sentinel keyword.
abbrev pub root_only : MapTrie
root_only = record {
  nodes = blank ∷ [];
  out = record { own = 0 ∷ []; out_link = none ∷ []; keywords = [] ∷ []; rune_lens = 0 ∷ [] };
}

-- A new child of `s` for `ch`: its id is the number of nodes.
unfoldable pub grow : MapTrie → ℕ → ℕ → MapTrie
grow t s ch = record {
  nodes =
      set t.nodes s (add_child (node_at t.nodes s) ch (length t.nodes))
      ++ record blank { depth = (node_at t.nodes s).depth + 1 } ∷ [];
  out = record t.out { own = t.out.own ++ 0 ∷ []; out_link = t.out.out_link ++ none ∷ [] };
}

-- The loop over a keyword's runes, from state `s`.
unfoldable pub insert_runes : MapTrie → ℕ → Word → MapTrie × ℕ
unfolding grow
insert_runes t s [] = (t, s)
insert_runes t s (ch ∷ kw) = elim (next (node_at t.nodes s) ch) [
  | some child ↦ insert_runes t child kw
  | none ↦ insert_runes (grow t s ch) (length t.nodes) kw
]

unfoldable pub mark_terminal : MapTrie → ℕ → Word → MapTrie
mark_terminal t s kw =
    let (o, id) = assign t.out (own_at t.out s) kw in
    record t { out = record o { own = set o.own s id } }

-- An empty keyword is skipped.
unfoldable pub insert_keyword : MapTrie → Word → MapTrie
unfolding insert_runes mark_terminal
insert_keyword t [] = t
insert_keyword t (ch ∷ kw) =
    let (t', s) = insert_runes t 0 (ch ∷ kw) in mark_terminal t' s (ch ∷ kw)

unfoldable pub insert_keywords : MapTrie → List Word → MapTrie
unfolding insert_keyword
insert_keywords t [] = t
insert_keywords t (kw ∷ kws) = insert_keywords (insert_keyword t kw) kws

-- `for fail != 0 { if _, ok := next(ch); ok { break }; fail = nodes[fail].fail }`
unfoldable pub descend : ℕ → List MapNode → ℕ → ℕ → ℕ
descend zero nodes fail ch = fail
descend (suc fuel) nodes zero ch = zero
descend (suc fuel) nodes (suc fail) ch = elim (next (node_at nodes (suc fail)) ch) [
  | some _ ↦ suc fail
  | none ↦ descend fuel nodes (node_at nodes (suc fail)).fail ch
]

-- `if next, ok := nodes[fail].next(ch); ok { fail = next }`
unfoldable pub goto_below : List MapNode → ℕ → ℕ → ℕ
goto_below nodes fail ch = elim (next (node_at nodes fail) ch) [ some v ↦ v | none ↦ fail ]

-- The failure state of the child of `state` for `ch`: goto applied once below the walk.
unfoldable pub fail_of_child : List MapNode → ℕ → ℕ → ℕ
unfolding descend goto_below
fail_of_child nodes state ch =
    goto_below nodes (descend (length nodes) nodes (node_at nodes state).fail ch) ch

-- What the inner loop writes for one edge.
unfoldable pub link_child : MapTrie → ℕ → ℕ → ℕ → MapTrie
unfolding fail_of_child
link_child t state ch child =
    let fail = fail_of_child t.nodes state ch in
    let link = if own_at t.out fail == 0 then link_at t.out fail else some fail in
    record {
      nodes = set t.nodes child (record (node_at t.nodes child) { fail = fail });
      out = record t.out { out_link = set t.out.out_link child link };
    }

-- The inner loop: each child joins the queue and gets its links.
unfoldable pub link_children : MapTrie → ℕ → Edges → List ℕ → MapTrie × List ℕ
unfolding link_child
link_children t state [] queue = (t, queue)
link_children t state ((ch, child) ∷ es) queue =
    link_children (link_child t state ch child) state es (queue ++ child ∷ [])

-- The outer loop over the queue by its head index. Each state but the root joins the queue once, so
-- the number of nodes is enough fuel.
unfoldable pub link_loop : ℕ → MapTrie → ℕ → List ℕ → MapTrie
unfolding link_children
link_loop zero t head queue = t
link_loop (suc fuel) t head queue = elim (get_elem? queue head) [
  | none ↦ t
  | some state ↦
      let (t', queue') = link_children t state (edges (node_at t.nodes state)) queue in
      link_loop fuel t' (head + 1) queue'
]

unfoldable pub build_trie : List Word → MapTrie
unfolding insert_keywords link_loop
build_trie keywords =
    let t = insert_keywords root_only keywords in
    link_loop (length t.nodes) t 0 (targets (edges (node_at t.nodes 0)))

-- The scan's inner loop: `for { if ok { break }; if state == 0 { break }; state = fail }`.
unfoldable pub step : ℕ → List MapNode → ℕ → ℕ → ℕ
step zero nodes state ch = state
step (suc fuel) nodes zero ch = elim (next (node_at nodes zero) ch) [
  | some child ↦ child
  | none ↦ zero
]
step (suc fuel) nodes (suc state) ch = elim (next (node_at nodes (suc state)) ch) [
  | some child ↦ child
  | none ↦ step fuel nodes (node_at nodes (suc state)).fail ch
]

-- The calls of `emit` that emitChain makes at `state` when the text read so far ends at `end`.
unfoldable pub emit_chain : MapTrie → ℕ → ℕ → List Emission
unfolding chain emission_at
emit_chain t end state = map (emission_at t.out end) (chain (length t.nodes) t.out (some state))

-- matchString with an `emit` that never stops it. `skip` is skipAtRoot at the root.
unfoldable pub scan : MapTrie → (ℕ → Bool) → ℕ → ℕ → Word → List Emission
unfolding step emit_chain
scan t skip state rune_index [] = []
scan t skip state rune_index (ch ∷ text) =
    let end = rune_index + 1 in
    let state' = step (length t.nodes) t.nodes state ch in
    let skipped = scan t skip state end text in
    let read = emit_chain t end state' ++ scan t skip state' end text in
    if state == 0 && skip ch then skipped else read

unfoldable pub match_string : MapTrie → (ℕ → Bool) → Word → List Emission
unfolding scan
match_string t skip text = if ltb 1 (length t.nodes) then scan t skip 0 0 text else []
