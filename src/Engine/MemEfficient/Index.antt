-- ===== src/Engine/MemEfficient/Index.antt =====
-- findIndex against matchString: the same reports, grouped by keyword.
use acor.Prelude.{
  ℕ, zero, suc, ◌+◌, ◌-◌, ◌≡◌, refl, sym, ap, ◌∙◌, inl, inr, true, Option, none, some, List, [],
  ◌∷◌, ◌++◌, map, Word, ltb, ◌==◌, ◌&&◌, if◌then◌else◌, length, get_or, Bool-cases, append-nil,
  append-one, word_eq, word_eq_iff,
}
use acor.Engine.Outputs.{Outputs, Emission, own_at, link_at, keyword_at, chain, emission_at}
use acor.Engine.MapEngine.{step, scan, emit_chain, match_string}
use acor.Engine.MemEfficient.{
  MemEfficientEngine, skip_at_root, IndexMap, index_at, index_add, index_chain, find_index_from,
  find_index, engine_match_string,
}
use acor.Engine.MemEfficient.Queries.{skip-split}

-- The starts of the reports of one keyword.
abbrev pub starts_of : Word → List Emission → List ℕ
starts_of kw [] = []
starts_of kw (m ∷ ms) = if word_eq m.keyword kw then m.start ∷ starts_of kw ms else starts_of kw ms

abbrev index_all : IndexMap → List Emission → IndexMap
index_all dst [] = dst
index_all dst (m ∷ ms) = index_all (index_add dst m.keyword m.start) ms

index_all-append :
    (dst : IndexMap) (xs ys : List Emission)
    → index_all dst (xs ++ ys) ≡ index_all (index_all dst xs) ys
index_all-append dst [] ys = refl
index_all-append dst (x ∷ xs) ys = index_all-append (index_add dst x.keyword x.start) xs ys

index_chain-eq :
    (fuel : ℕ) (o : Outputs) (dst : IndexMap) (v : Option ℕ) (end : ℕ)
    → index_chain fuel o dst v end ≡ index_all dst (map (emission_at o end) (chain fuel o v))
unfolding index_chain chain emission_at
index_chain-eq zero o dst none end = refl
index_chain-eq (suc fuel) o dst none end = refl
index_chain-eq zero o dst (some s) end = refl
index_chain-eq (suc fuel) o dst (some s) end =
    let more : IndexMap =
      index_add dst (keyword_at o (own_at o s)) (end - get_or o.rune_lens (own_at o s) 0) in
    elim (Bool-cases (own_at o s == 0)) [
      | inl e ↦
          let dst' : (if own_at o s == 0 then dst else more) ≡ dst = rw e refl in
          ap (λ d. index_chain fuel o d (link_at o s) end) dst'
          ∙ rw e (index_chain-eq fuel o dst (link_at o s) end)
      | inr e ↦
          let dst' : (if own_at o s == 0 then dst else more) ≡ more = rw e refl in
          ap (λ d. index_chain fuel o d (link_at o s) end) dst'
          ∙ rw e (index_chain-eq fuel o more (link_at o s) end)
    ]

index_at-index_add :
    (dst : IndexMap) (w kw : Word) (offset : ℕ)
    → index_at (index_add dst w offset) kw
      ≡ (if word_eq w kw then index_at dst kw ++ offset ∷ [] else index_at dst kw)
unfolding index_at index_add
index_at-index_add [] w kw offset = refl
index_at-index_add ((v, offsets) ∷ m) w kw offset = elim (Bool-cases (word_eq v w)) [
  | inl e ↦
      let same : v ≡ w = (word_eq_iff v w).0 e in
      rw (e, same) (elim (Bool-cases (word_eq w kw)) [ inl f ↦ rw f refl | inr f ↦ rw f refl ])
  | inr e ↦ rw e (elim (Bool-cases (word_eq v kw)) [
    | inl f ↦ elim (Bool-cases (word_eq w kw)) [
      | inl g ↦
          let same : v ≡ w = (word_eq_iff v kw).0 f ∙ sym ((word_eq_iff w kw).0 g) in
          let yes : word_eq v w ≡ true = (word_eq_iff v w).1 same in absurd (cc)
      | inr g ↦ rw (f, g) refl
    ]
    | inr f ↦ rw f (index_at-index_add m w kw offset)
  ])
]

index_at-index_all :
    (ms : List Emission) (dst : IndexMap) (kw : Word)
    → index_at (index_all dst ms) kw ≡ index_at dst kw ++ starts_of kw ms
index_at-index_all [] dst kw = sym (append-nil (index_at dst kw))
index_at-index_all (m ∷ ms) dst kw =
    index_at-index_all ms (index_add dst m.keyword m.start) kw
    ∙ ap (λ l. l ++ starts_of kw ms) (index_at-index_add dst m.keyword kw m.start)
    ∙ elim (Bool-cases (word_eq m.keyword kw)) [
      | inl e ↦ rw e (append-one (index_at dst kw) m.start (starts_of kw ms))
      | inr e ↦ rw e refl
    ]

module _ (e : MemEfficientEngine) where
  find_index_from-scan :
      (text : Word) (s i : ℕ) (matched : IndexMap)
      → find_index_from e s i matched text
        ≡ index_all matched (scan e.trie (skip_at_root e true) s i text)
  unfolding find_index_from scan emit_chain
  find_index_from-scan [] s i matched = refl
  find_index_from-scan (ch ∷ text) s i matched =
      elim (Bool-cases (s == 0 && skip_at_root e true ch)) [
        | inl k ↦ rw (skip-split e s ch, k) (find_index_from-scan text s (i + 1) matched)
        | inr k ↦
            let s' = step (length e.trie.nodes) e.trie.nodes s ch in
            let later = scan e.trie (skip_at_root e true) s' (i + 1) text in
            rw (skip-split e s ch, k)
              (find_index_from-scan text s' (i + 1)
                  (index_chain (length e.trie.nodes) e.trie.out matched (some s') (i + 1))
                ∙ ap (λ d. index_all d later)
                    (index_chain-eq (length e.trie.nodes) e.trie.out matched (some s') (i + 1))
                ∙ sym (index_all-append matched (emit_chain e.trie (i + 1) s') later))
      ]

  -- FindIndex maps each keyword to the starts of the reports that matchString makes of it, in their
  -- order, and a keyword without reports to none.
  pub find_index-match_string :
      (text kw : Word) → index_at (find_index e text) kw ≡ starts_of kw (engine_match_string e text)
  unfolding find_index engine_match_string match_string index_at
  find_index-match_string text kw = elim (Bool-cases (ltb 1 (length e.trie.nodes))) [
    | inl k ↦ rw k (
        ap (λ m. index_at m kw) (find_index_from-scan text 0 0 [])
        ∙ index_at-index_all (scan e.trie (skip_at_root e true) 0 0 text) [] kw)
    | inr k ↦ rw k refl
  ]
