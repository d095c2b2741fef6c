-- ===== src/Engine/Stream/Stopped.antt =====
-- A scan that stops early reports the beginning of what the whole scan reports.
use acor.Prelude.{
  ℕ, ◌+◌, ◌≡◌, refl, sym, ap, ◌∙◌, List, [], ◌∷◌, ◌++◌, Word, Bool, true, ◌&&◌, ltb, ◌==◌,
  if◌then◌else◌, length, Bool-cases, inl, inr,
}
use acor.Engine.Outputs.{Emission}
use acor.Engine.MapEngine.{MapTrie, step, emit_chain, scan, match_string}
use acor.Engine.MemEfficient.{MemEfficientEngine, skip_at_root, engine_match_string}
use acor.Engine.Stream.{emitted, stream, match_stream}

-- The reports up to the first that stops the scan, that one included.
abbrev pub until : (Emission → Bool) → List Emission → List Emission
until stops [] = []
until stops (m ∷ ms) = if stops m then m ∷ [] else m ∷ until stops ms

emitted-append :
    (stops : Emission → Bool) (xs ys : List Emission)
    → until stops (xs ++ ys) ≡ (
        if (emitted stops xs).1
        then (emitted stops xs).0 ++ until stops ys
        else (emitted stops xs).0)
unfolding emitted
emitted-append stops [] ys = refl
emitted-append stops (x ∷ xs) ys = elim (Bool-cases (stops x)) [
  | inl e ↦ rw e refl
  | inr e ↦
      let rest = emitted-append stops xs ys in
      elim (Bool-cases (emitted stops xs).1) [
        | inl k ↦ rw (e, k) (ap (◌∷◌ x) (rw k at rest))
        | inr k ↦ rw (e, k) (ap (◌∷◌ x) (rw k at rest))
      ]
]

module _ (t : MapTrie) (skip : ℕ → Bool) (stops : Emission → Bool) where
  stream-scan :
      (text : Word) (state rune_index : ℕ)
      → (stream t skip stops state rune_index text).0
        ≡ until stops (scan t skip state rune_index text)
  unfolding stream scan
  stream-scan [] state rune_index = refl
  stream-scan (ch ∷ text) state rune_index =
      let end = rune_index + 1 in
      let state' = step (length t.nodes) t.nodes state ch in
      elim (Bool-cases (state == 0 && skip ch)) [
        | inl e ↦ rw e (stream-scan text state end)
        | inr e ↦
            let here = emit_chain t end state' in
            let split = emitted-append stops here (scan t skip state' end text) in
            elim (Bool-cases (emitted stops here).1) [
              | inl k ↦
                  rw (e, k)
                    (ap (λ l. (emitted stops here).0 ++ l) (stream-scan text state' end)
                      ∙ sym (rw k at split))
              | inr k ↦ rw (e, k) (sym (rw k at split))
            ]
      ]

-- For any `emit`, matchStream reports what matchString reports over the same runes, up to the first report
-- at which `emit` returns false, that one included.
pub match_stream-match_string :
    (e : MemEfficientEngine) (stops : Emission → Bool) (text : Word)
    → (match_stream e stops text).0 ≡ until stops (engine_match_string e text)
unfolding match_stream engine_match_string match_string
match_stream-match_string e stops text = elim (Bool-cases (ltb 1 (length e.trie.nodes))) [
  | inl k ↦ rw k (stream-scan e.trie (skip_at_root e true) stops text 0 0)
  | inr k ↦ rw k refl
]
