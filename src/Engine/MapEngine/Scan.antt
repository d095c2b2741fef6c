-- ===== src/Engine/MapEngine/Scan.antt =====
-- What the scan reports: every occurrence of every keyword, and nothing else.
use acor.Prelude.{
  ℕ, zero, suc, ◌+◌, ◌-◌, ◌<◌, ◌≡◌, ◌≢◌, refl, sym, ap, subst, ◌∙◌, ◌↔◌, inl, inr, Bool, true, ◌&&◌,
  none, some, Word, List, [], ◌∷◌, ◌++◌, arith, ltb, length, drop, Bool-cases, ◌==◌, IsPrefix,
  IsPrefix-shorter, IsPrefix-trans, length-prefix, Has, Has-append_left, Has-append_right,
  Has-append_inv, Has-map, backwards, backwards-injective, rev_onto, length-rev_onto, length-drop,
  nil_of_length, Option-cases, ends_here→occurs, occurs→ends_here,
}
use acor.Engine.Outputs.{own_at, link_at, keyword_at, chain, Emission, emission_at}
use acor.Engine.MapNode.{next}
use acor.Engine.MapEngine.{MapTrie, node_at, step, emit_chain, scan, match_string}
use acor.Engine.MapEngine.Trie.{label_at}
use acor.Engine.MapEngine.Longest.{IsLongest, step-IsLongest}
use acor.Engine.MapEngine.Links.{IsLinkTo, depth-lt}
use acor.Engine.MapEngine.Automaton.{IsAutomaton}
use acor.Engine.MapEngine.Chain.{IsSuffixKeyword, chain-IsSuffixKeyword}

-- An occurrence in `text`: the keyword is one of `keys` and not empty, and stands in the text from
-- `start` to `end`.
abbrev pub IsOccurrence : List Word → Word → Emission → Type 0
IsOccurrence keys text m =
    Has m.keyword keys
    × (m.keyword ≢ [])
    × (m.start + length m.keyword ≡ m.end)
    × IsPrefix m.keyword (drop m.start text)

module _ (t : MapTrie) (keys : List Word) (A : IsAutomaton t keys) where
  -- The state after reading `rt`, backwards.
  abbrev pub IsState : Word → ℕ → Type 0
  IsState rt s = IsLongest t.nodes A.labels (suc (length rt)) rt s

  pub IsState-start : IsState [] 0
  IsState-start = record {
    inside = A.trie.has_root;
    prefix = rw A.trie.root tt;
    below = rw A.trie.root (omega arith);
    longest = λ u h p b. rw A.trie.root (omega arith);
  }

  pub IsState-step :
      (rt : Word) (s ch : ℕ) → IsState rt s → IsState (ch ∷ rt) (step (length t.nodes) t.nodes s ch)
  IsState-step rt s ch S =
      step-IsLongest t.nodes A.labels A.trie (length t.nodes) (λ u h n d. (A.linked u h n).0)
        (length t.nodes) (suc (length rt)) rt ch s
        (record {
          inside = S.inside;
          prefix = S.prefix;
          below = S.below;
          takers = λ u v u_lt e. S.longest u u_lt;
        })
        (omega (arith, depth-lt t.nodes A.labels A.trie s S.inside))
        (depth-lt t.nodes A.labels A.trie s S.inside)

  module _ (rt rest : Word) (s : ℕ) (S : IsState rt s) where
    emission_sound :
        (u : ℕ)
        → IsSuffixKeyword t keys A (label_at A.labels s) u
        → IsOccurrence keys (rev_onto rt rest) (emission_at t.out (length rt) u)
    unfolding emission_at
    emission_sound u (o, h, p) =
        let c = A.keyed.carries u o in
        let p' : IsPrefix (backwards (keyword_at t.out (own_at t.out u))) rt =
          subst (λ l. IsPrefix l rt) (sym c.spells)
            (IsPrefix-trans (label_at A.labels u) (label_at A.labels s) rt p S.prefix) in
        let le = length-prefix (backwards (keyword_at t.out (own_at t.out u))) rt p' in
        let n = length-rev_onto (keyword_at t.out (own_at t.out u)) [] in
        let at : length rt
              - length (keyword_at t.out (own_at t.out u))
              + length (keyword_at t.out (own_at t.out u))
            ≡ length rt =
          omega arith in
        rw c.rune_len (
          c.inserted,
          λ e. o (empty u h (sym c.spells ∙ ap backwards e)),
          at,
          ends_here→occurs (keyword_at t.out (own_at t.out u)) rt rest _ p' at,
        )
      where
        empty : (u : ℕ) → u < length t.nodes → label_at A.labels u ≡ [] → own_at t.out u ≡ 0
        empty u h e =
            ap (own_at t.out) (A.trie.injective u 0 h A.trie.has_root (e ∙ sym A.trie.root))
            ∙ A.keyed.root

    emission_complete :
        (m : Emission)
        → m.end ≡ length rt
        → IsOccurrence keys (rev_onto rt rest) m
        → (u : ℕ) × IsSuffixKeyword t keys A (label_at A.labels s) u
          × (m ≡ emission_at t.out (length rt) u)
    unfolding emission_at
    emission_complete m e (known, nonempty, at, here) =
        let (x, h, o, l) = A.keyed.complete m.keyword known nonempty in
        let p : IsPrefix (backwards m.keyword) rt =
          occurs→ends_here m.keyword rt rest m.start (at ∙ e) here in
        let p' : IsPrefix (label_at A.labels x) rt = subst (λ w. IsPrefix w rt) (sym l) p in
        let k = S.longest x h p' (omega (arith, length-prefix (label_at A.labels x) rt p')) in
        let c = A.keyed.carries x o in
        let word : m.keyword ≡ keyword_at t.out (own_at t.out x) =
          backwards-injective m.keyword (keyword_at t.out (own_at t.out x))
            (sym l ∙ sym c.spells) in
        (
          x,
          (o, h, IsPrefix-shorter (label_at A.labels x) (label_at A.labels s) rt p' S.prefix k),
          same m (keyword_at t.out (own_at t.out x)) _ (length rt) word
              (omega (arith, c.rune_len, ap length word)) e,
        )
      where
        same :
            (m : Emission) (w : Word) (a b : ℕ)
            → m.keyword ≡ w
            → m.start ≡ a
            → m.end ≡ b
            → m ≡ record { keyword = w; start = a; end = b }
        same m w a b p q r = λ i. record { keyword = p i; start = q i; end = r i }

    -- What one position reports.
    pub emit_chain_iff :
        (m : Emission)
        → Has m (emit_chain t (length rt) s)
          ↔ (m.end ≡ length rt) × IsOccurrence keys (rev_onto rt rest) m
    unfolding emit_chain
    emit_chain_iff m =
        let at =
          Has-map (emission_at t.out (length rt)) (chain (length t.nodes) t.out (some s)) m in
        (
          λ h.
              let (u, k, e) = at.0 h in
              subst (λ x. (x.end ≡ length rt) × IsOccurrence keys (rev_onto rt rest) x) (sym e)
                (refl, emission_sound u ((chain-IsSuffixKeyword t keys A s u S.inside).0 k)),
          λ (e, o).
              let (u, k, q) = emission_complete m e o in
              at.1 (u, (chain-IsSuffixKeyword t keys A s u S.inside).1 k, q),
        )

  -- A rune that no keyword starts with leaves the root where it is, and nothing is reported there.
  chain-none : (fuel : ℕ) → chain fuel t.out none ≡ []
  unfolding chain
  chain-none zero = refl
  chain-none (suc fuel) = refl

  root-silent : (end fuel : ℕ) → chain fuel t.out (some 0) ≡ []
  unfolding chain
  root-silent end zero = refl
  root-silent end (suc fuel) = elim (Option-cases (link_at t.out 0)) [
    | inl e ↦ rw (A.keyed.root, e) (chain-none fuel)
    | inr (v, e) ↦
        let L : IsLinkTo t.nodes A.labels t.out (label_at A.labels 0) (some v) = rw e at A.root in
        absurd (omega (arith, (L.0).3, ap length A.trie.root))
  ]

  root-stays : (ch fuel : ℕ) → next (node_at t.nodes 0) ch ≡ none → step fuel t.nodes 0 ch ≡ 0
  unfolding step
  root-stays ch zero e = refl
  root-stays ch (suc fuel) e = rw (e, step) refl

  module _ (skip : ℕ → Bool)
      (skips : (ch : ℕ) → skip ch ≡ true → next (node_at t.nodes 0) ch ≡ none) where
    -- Skipping at the root changes nothing.
    pub scan-read :
        (s i ch : ℕ) (text : Word)
        → scan t skip s i (ch ∷ text)
          ≡ emit_chain t (i + 1) (step (length t.nodes) t.nodes s ch)
            ++ scan t skip (step (length t.nodes) t.nodes s ch) (i + 1) text
    unfolding scan emit_chain
    scan-read s i ch text = elim (Bool-cases (s == 0 && skip ch)) [
      | inl e ↦
          let z : s ≡ 0 = ground arith in
          let k : skip ch ≡ true = ground arith in
          rw
            (
              z,
              k,
              root-stays ch (length t.nodes) (skips ch k),
              root-silent (i + 1) (length t.nodes),
            )
            refl
      | inr e ↦ rw e refl
    ]

    pub scan_iff :
        (text rt : Word) (s : ℕ) (m : Emission)
        → IsState rt s
        → Has m (scan t skip s (length rt) text)
          ↔ (length rt < m.end) × IsOccurrence keys (rev_onto rt text) m
    unfolding scan
    scan_iff [] rt s m S = (
      λ h. elim h [ ],
      λ (h, (known, ne, at, here)). absurd (late rt m.keyword m.start m.end h at ne here),
    )
      where
        late :
            (rt kw : Word) (k e : ℕ)
            → length rt < e
            → k + length kw ≡ e
            → kw ≢ []
            → IsPrefix kw (drop k (rev_onto rt []))
            → ⊥
        late rt [] k e h at ne here = ne refl
        late rt (c ∷ kw) k e h at ne here = omega (
          arith,
          length-prefix (c ∷ kw) (drop k (rev_onto rt [])) here,
          length-drop k (rev_onto rt []),
          length-rev_onto rt [],
        )
    scan_iff (ch ∷ text) rt s m S =
        let s' : ℕ = step (length t.nodes) t.nodes s ch in
        let S' = IsState-step rt s ch S in
        let i : length rt + 1 ≡ suc (length rt) = omega arith in
        let here = emit_chain_iff (ch ∷ rt) text s' S' m in
        let later = scan_iff text (ch ∷ rt) s' m S' in
        rw (scan-read s (length rt) ch text, i)
          (
            λ h. elim (Has-append_inv m (emit_chain t (suc (length rt)) s') _ h) [
              | inl k ↦ let (e, o) = here.0 k in (omega (arith, e), o)
              | inr k ↦ let (e, o) = later.0 k in (omega (arith, e), o)
            ],
            λ (h, o). elim (Bool-cases (m.end == suc (length rt))) [
              | inl e ↦
                  Has-append_left m (emit_chain t (suc (length rt)) s') _ (here.1 (ground arith, o))
              | inr e ↦
                  Has-append_right m (emit_chain t (suc (length rt)) s') _
                    (later.1 (ground arith, o))
            ],
          )

    -- The whole text.
    pub match_string_iff :
        (text : Word) (m : Emission) → Has m (match_string t skip text) ↔ IsOccurrence keys text m
    unfolding match_string
    match_string_iff text m = elim (Bool-cases (ltb 1 (length t.nodes))) [
      | inl e ↦
          let all = scan_iff text [] 0 m IsState-start in
          rw e (λ h. (all.0 h).1, λ o. all.1 (ends_late m o, o))
      | inr e ↦ rw e (
        λ h. elim h [ ],
        λ (known, ne, _, _).
            let (x, h, o, l) = A.keyed.complete m.keyword known ne in
            let z : x ≡ 0 = ground arith in absurd (o (ap (own_at t.out) z ∙ A.keyed.root)),
      )
    ]
      where
        ends_late : (m : Emission) → IsOccurrence keys text m → 0 < m.end
        ends_late m (known, ne, at, here) =
            let n : length m.keyword ≢ 0 = λ e. ne (nil_of_length m.keyword e) in omega arith
