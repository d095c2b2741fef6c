-- ===== src/Engine/MemEfficient/Answer.antt =====
-- The engine as it is built, filter included, reports exactly the occurrences of its keywords.
use acor.Prelude.{
  Has-backwards, ℕ, ◌<◌, ◌≡◌, refl, ◌∙◌, ◌↔◌, inl, inr, Bool, true, false, none, List, [], ◌∷◌,
  Word, arith, ltb, ◌==◌, length, get_or, set, replicate, get_or-set, length-set, Bool-cases,
  Option-cases, Has, rev_onto, AllDistinct,
}
use acor.Engine.Outputs.{Emission}
use acor.Engine.Bloom.NoFalseNegatives.{contains-added}
use acor.Engine.MapNode.{next}
use acor.Engine.MapEngine.{node_at, build_trie}
use acor.Engine.MapEngine.Automaton.{build_trie-IsAutomaton}
use acor.Engine.MapEngine.Once.{match_string-AllDistinct}
use acor.Engine.MapEngine.Scan.{IsOccurrence, match_string_iff}
use acor.Engine.MemEfficient.{
  has_rune, first_runes, mark_ascii, build_from_sequence, skip_at_root, engine_match_string,
}

has_rune-Has : (r : ℕ) (rs : List ℕ) → has_rune r rs ≡ true → Has r rs
has_rune-Has r [] h = cc
has_rune-Has r (q ∷ rs) h = elim (Bool-cases (r == q)) [
  | inl e ↦ inl (ground arith)
  | inr e ↦ inr (has_rune-Has r rs (rw e at h))
]

first_runes-kept : (kws : List Word) (r : ℕ) (rs : List ℕ) → Has r rs → Has r (first_runes kws rs)
unfolding first_runes
first_runes-kept [] r rs h = h
first_runes-kept ([] ∷ kws) r rs h = first_runes-kept kws r rs h
first_runes-kept ((q ∷ kw) ∷ kws) r rs h =
    first_runes-kept kws r _
      (elim (Bool-cases (has_rune q rs)) [ inl e ↦ rw e h | inr e ↦ rw e (inr h) ])

first_runes-Has :
    (kws : List Word) (r : ℕ) (kw : Word) (rs : List ℕ)
    → Has (r ∷ kw) kws
    → Has r (first_runes kws rs)
unfolding first_runes
first_runes-Has [] r kw rs h = elim h [ ]
first_runes-Has ([] ∷ kws) r kw rs (inl e) = cc
first_runes-Has ([] ∷ kws) r kw rs (inr h) = first_runes-Has kws r kw rs h
first_runes-Has ((q ∷ kw') ∷ kws) r kw rs (inr h) = first_runes-Has kws r kw _ h
first_runes-Has ((q ∷ kw') ∷ kws) r kw rs (inl e) =
    let same : r ≡ q = cc in
    first_runes-kept kws r _ (elim (Bool-cases (has_rune q rs)) [
      | inl f ↦ rw (f, same) (has_rune-Has q rs f)
      | inr f ↦ rw f (inl same)
    ])

mark_ascii-kept :
    (rs : List ℕ) (table : List Bool) (r : ℕ)
    → length table ≡ 128
    → get_or table r false ≡ true
    → get_or (mark_ascii rs table) r false ≡ true
unfolding mark_ascii
mark_ascii-kept [] table r l h = h
mark_ascii-kept (q ∷ rs) table r l h = elim (Bool-cases (ltb q 128)) [
  | inl e ↦ rw e (
      mark_ascii-kept rs (set table q true) r (length-set table q true ∙ l)
        (get_or-set table q true r false (ground arith) ∙ ground arith))
  | inr e ↦ rw e (mark_ascii-kept rs table r l h)
]

mark_ascii-Has :
    (rs : List ℕ) (table : List Bool) (r : ℕ)
    → length table ≡ 128
    → Has r rs
    → ltb r 128 ≡ true
    → get_or (mark_ascii rs table) r false ≡ true
unfolding mark_ascii
mark_ascii-Has [] table r l h k = elim h [ ]
mark_ascii-Has (q ∷ rs) table r l (inl e) k =
    let k' : ltb q 128 ≡ true = rw e at k in
    rw (k', e)
      (mark_ascii-kept rs (set table q true) q (length-set table q true ∙ l)
        (get_or-set table q true q false (ground arith) ∙ ground arith))
mark_ascii-Has (q ∷ rs) table r l (inr h) k = elim (Bool-cases (ltb q 128)) [
  | inl e ↦ rw e (mark_ascii-Has rs (set table q true) r (length-set table q true ∙ l) h k)
  | inr e ↦ rw e (mark_ascii-Has rs table r l h k)
]

module _ (sizing : ℕ → ℕ × ℕ) (some_bits : (n : ℕ) → 0 < n → 0 < (sizing n).0)
    (keywords : List Word) where
  -- The filter never rejects a rune that a keyword starts with, ...
  skip-first :
      (c : ℕ) (w : Word)
      → Has (c ∷ w) keywords
      → skip_at_root (build_from_sequence sizing keywords) true c ≡ false
  unfolding skip_at_root build_from_sequence
  skip-first c w h =
      let f = first_runes-Has keywords c w [] h in
      elim (Bool-cases (ltb c 128)) [
        | inl e ↦
            rw (e, mark_ascii-Has (first_runes keywords []) (replicate 128 false) c refl f e) refl
        | inr e ↦
            rw
              (
                e,
                contains-added sizing some_bits (length (first_runes keywords []))
                    (first_runes keywords []) c f,
              )
              refl
      ]

  -- ... so what it skips has no edge at the root.
  pub skips :
      (ch : ℕ)
      → skip_at_root (build_from_sequence sizing keywords) true ch ≡ true
      → next (node_at (build_trie keywords).nodes 0) ch ≡ none
  skips ch h = elim (Option-cases (next (node_at (build_trie keywords).nodes 0) ch)) [
    | inl e ↦ e
    | inr (u, e) ↦
        let (w, k) = (build_trie-IsAutomaton keywords).starts ch u e in
        let k' : Has (ch ∷ w) keywords = elim ((Has-backwards (ch ∷ w) keywords []).0 k) [
          | inl j ↦ j
          | inr z ↦ elim z [ ]
        ] in
        absurd (cc (skip-first ch w k'))
  ]

  -- Let the formulas give at least one bit for a positive number of items. Then matchString on the
  -- engine built from any keywords, over any text, reports a keyword with a span exactly if the keyword
  -- is one of them, is not empty, and stands in the text at that span.
  pub engine_match_string_iff :
      (text : Word) (m : Emission)
      → Has m (engine_match_string (build_from_sequence sizing keywords) text)
        ↔ IsOccurrence keywords text m
  unfolding engine_match_string build_from_sequence
  engine_match_string_iff text m =
      let at =
        match_string_iff (build_trie keywords) (rev_onto keywords [])
          (build_trie-IsAutomaton keywords)
          (skip_at_root (build_from_sequence sizing keywords) true) skips text m in
      let there = Has-backwards m.keyword keywords [] in
      (
        λ h.
            let (known, a, b, c) = at.0 h in
            (elim (there.0 known) [ inl k ↦ k | inr z ↦ elim z [ ] ], a, b, c),
        λ (known, a, b, c). at.1 (there.1 (inl known), a, b, c),
      )

  -- Let the formulas give at least one bit for a positive number of items. Then no two reports of
  -- matchString on the engine built from any keywords are the same.
  pub engine_match_string-AllDistinct :
      (text : Word) → AllDistinct (engine_match_string (build_from_sequence sizing keywords) text)
  unfolding engine_match_string build_from_sequence
  engine_match_string-AllDistinct text =
      match_string-AllDistinct (build_trie keywords) (rev_onto keywords [])
        (build_trie-IsAutomaton keywords) (skip_at_root (build_from_sequence sizing keywords) true)
        skips text
