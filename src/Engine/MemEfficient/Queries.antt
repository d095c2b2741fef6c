-- ===== src/Engine/MemEfficient/Queries.antt =====
-- The other queries, whose loops are written out again, agree with matchString.
use acor.Prelude.{
  map-append, ℕ, zero, suc, ◌+◌, ◌≡◌, refl, sym, ap, ◌∙◌, inl, inr, true, Option, none, some, List,
  [], ◌∷◌, ◌++◌, map, Word, ltb, ◌==◌, ◌&&◌, if◌then◌else◌, length, Bool-cases, append-nil,
  append_assoc, append-one,
}
use acor.Engine.Outputs.{Outputs, Emission, own_at, link_at, keyword_at, chain, emission_at}
use acor.Engine.MapEngine.{step, scan, emit_chain, match_string}
use acor.Engine.MemEfficient.{
  MemEfficientEngine, skip_at_root, append_chain, find_from, find, engine_match_string,
}

abbrev keywords_of : List Emission → List Word
keywords_of = map (λ (m : Emission). m.keyword)

append_chain-eq :
    (fuel : ℕ) (o : Outputs) (dst : List Word) (v : Option ℕ) (end : ℕ)
    → append_chain fuel o dst v ≡ dst ++ keywords_of (map (emission_at o end) (chain fuel o v))
unfolding append_chain chain emission_at
append_chain-eq zero o dst none end = sym (append-nil dst)
append_chain-eq (suc fuel) o dst none end = sym (append-nil dst)
append_chain-eq zero o dst (some s) end = sym (append-nil dst)
append_chain-eq (suc fuel) o dst (some s) end =
    let kw = keyword_at o (own_at o s) in
    elim (Bool-cases (own_at o s == 0)) [
      | inl e ↦
          let dst' : (if own_at o s == 0 then dst else dst ++ kw ∷ []) ≡ dst = rw e refl in
          ap (λ d. append_chain fuel o d (link_at o s)) dst'
          ∙ rw e (append_chain-eq fuel o dst (link_at o s) end)
      | inr e ↦
          let dst' : (if own_at o s == 0 then dst else dst ++ kw ∷ []) ≡ dst ++ kw ∷ [] =
            rw e refl in
          ap (λ d. append_chain fuel o d (link_at o s)) dst'
          ∙ rw e (append_chain-eq fuel o (dst ++ kw ∷ []) (link_at o s) end ∙ append-one dst kw _)
    ]

module _ (e : MemEfficientEngine) where
  pub skip-split : (s ch : ℕ) → skip_at_root e (s == 0) ch ≡ (s == 0 && skip_at_root e true ch)
  unfolding skip_at_root
  skip-split s ch = elim (Bool-cases (s == 0)) [ inl k ↦ rw k refl | inr k ↦ rw k refl ]

  find_from-scan :
      (text : Word) (s i : ℕ) (matched : List Word)
      → find_from e s matched text
        ≡ matched ++ keywords_of (scan e.trie (skip_at_root e true) s i text)
  unfolding find_from scan emit_chain
  find_from-scan [] s i matched = sym (append-nil matched)
  find_from-scan (ch ∷ text) s i matched = elim (Bool-cases (s == 0 && skip_at_root e true ch)) [
    | inl k ↦ rw (skip-split s ch, k) (find_from-scan text s (i + 1) matched)
    | inr k ↦
        let s' = step (length e.trie.nodes) e.trie.nodes s ch in
        let later = scan e.trie (skip_at_root e true) s' (i + 1) text in
        rw (skip-split s ch, k)
          (find_from-scan text s' (i + 1)
              (append_chain (length e.trie.nodes) e.trie.out matched (some s'))
            ∙ ap (λ l. l ++ keywords_of later)
                (append_chain-eq (length e.trie.nodes) e.trie.out matched (some s') (i + 1))
            ∙ append_assoc matched (keywords_of (emit_chain e.trie (i + 1) s')) (keywords_of later)
            ∙ ap (◌++◌ matched) (
                sym
                  (map-append (λ (m : Emission). m.keyword) (emit_chain e.trie (i + 1) s') later)))
  ]

  -- Find returns the keywords that matchString reports, in its order, one for each report.
  pub find-match_string :
      (text : Word) → find e text ≡ map (λ (m : Emission). m.keyword) (engine_match_string e text)
  unfolding find engine_match_string match_string
  find-match_string text = elim (Bool-cases (ltb 1 (length e.trie.nodes))) [
    | inl k ↦ rw k (find_from-scan text 0 0 [])
    | inr k ↦ rw k refl
  ]
