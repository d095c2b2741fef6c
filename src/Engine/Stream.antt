-- ===== src/Engine/Stream.antt =====
-- matchStream of internal/engine/engine_map.go with an `emit` that may stop it, emitChain with its answer,
-- and FindStreamContext of pkg/acor/matches.go. The source is the runes that are read before its end, and
-- the error that ends it if it is not a plain end.
pub mod Stopped
use acor.Prelude.{
  ℕ, ◌+◌, Option, none, some, List, [], ◌∷◌, ◌++◌, Word, Bool, true, false, ◌&&◌, ltb, ◌==◌,
  if◌then◌else◌, length, map,
}
use acor.Engine.Outputs.{Emission}
use acor.Engine.MapEngine.{MapTrie, step, emit_chain}
use acor.Engine.MemEfficient.{MemEfficientEngine, skip_at_root}
use acor.V2.{Error, Result, ok, err}

-- emitChain over the reports of a state: those that `emit` received, and whether it never stopped it.
-- `stops` says for which reports `emit` returns false.
unfoldable pub emitted : (Emission → Bool) → List Emission → List Emission × Bool
emitted stops [] = ([], true)
emitted stops (m ∷ ms) =
    let (received, goes_on) = emitted stops ms in
    if stops m then (m ∷ [], false) else (m ∷ received, goes_on)

-- The loop of matchStream: what `emit` received, and whether the source was read to its end.
unfoldable pub stream :
    MapTrie → (ℕ → Bool) → (Emission → Bool) → ℕ → ℕ → Word → List Emission × Bool
unfolding step emit_chain emitted
stream t skip stops state rune_index [] = ([], true)
stream t skip stops state rune_index (ch ∷ text) =
    let end = rune_index + 1 in
    let state' = step (length t.nodes) t.nodes state ch in
    let skipped = stream t skip stops state end text in
    let (received, goes_on) = emitted stops (emit_chain t end state') in
    let (later, finished) = stream t skip stops state' end text in
    if state == 0 && skip ch
    then skipped
    else if goes_on
    then (received ++ later, finished)
    else (received, false)

unfoldable pub match_stream : MemEfficientEngine → (Emission → Bool) → Word → List Emission × Bool
unfolding stream skip_at_root
match_stream e stops text =
    if ltb 1 (length e.trie.nodes)
    then stream e.trie (skip_at_root e true) stops 0 0 text
    else ([], false)

-- What `onMatch` received, and the error that FindStreamContext returns. A scan that `onMatch` stops does
-- not come to the end of the source, and an engine without keywords does not read it. The
-- reader and `onMatch` are not nil.
unfoldable pub find_stream :
    (ℕ → ℕ)
    → Bool
    → Result MemEfficientEngine
    → (Emission → Bool)
    → Word
    → Option Error
    → List Emission × Option Error
unfolding match_stream
find_stream lower case_sensitive (err e) stops source failure = ([], some e)
find_stream lower case_sensitive (ok e) stops source failure =
    let (received, finished) =
      match_stream e stops (if case_sensitive then source else map lower source) in
    (received, if finished then failure else none)
