-- ===== src/Matches/Pipeline.antt =====
-- FindMatches: the whole-word filter and the selection together, and the matches of earlier texts.
use acor.Prelude.{
  ap, ◌↔◌, some, false, ℕ, ◌≡◌, refl, inl, inr, true, List, ◌++◌, if◌then◌else◌, Bool-cases, Has,
}
use acor.Matches.{
  appended, Match, MatchKind, overlapping, leftmost_longest_kind, MatchOptions, filter_whole_word,
  apply_kind, find_matches,
}
use acor.Matches.Selection.{Covers, IsSpread, IsSelection, leftmost_longest-IsSelection}
use acor.Matches.WholeWord.{IsWholeWord, IsInside, filter_whole_word_iff}

-- What the options ask of a span before the selection.
abbrev pub IsEligible : List ℕ → MatchOptions → Match → Type 0
IsEligible runes opts m = opts.whole_word ≡ true → IsWholeWord runes opts.word_rune m

module _ (found : List Match) (runes : List ℕ) (opts : MatchOptions)
    (inside : (m : Match) → Has m found → IsInside runes m) where
  -- The spans that the whole-word filter lets through.
  passing_iff :
      (kept : List Match) × ((if opts.whole_word
          then filter_whole_word found runes opts.word_rune
          else some found)
        ≡ some kept)
      × ((m : Match) → Has m kept ↔ Has m found × IsEligible runes opts m)
  passing_iff = elim (Bool-cases opts.whole_word) [
    | inl t ↦
        let (kept, e, w) = filter_whole_word_iff runes opts.word_rune found inside in
        rw t (
          kept,
          e,
          λ m. (λ h. let (i, k) = (w m).0 h in (i, λ _. k), λ (i, k). (w m).1 (i, k refl)),
        )
    | inr t ↦ rw t (found, refl, λ m. (λ h. (h, λ e. absurd (never e)), λ (h, _). h))
  ]
    where
      never : false ≡ true → ⊥
      never h = cc

-- What FindMatches promises of the matches it adds: none that the engine did not find or that is
-- not eligible; every eligible one if overlaps are asked for, and else a selection of those.
pub record IsAnswer (found : List Match) (runes : List ℕ) (opts : MatchOptions) (out : List Match)
    : Type 0 where
  pub sound : (m : Match) → Has m out → Has m found × IsEligible runes opts m
  pub all :
      opts.kind ≡ overlapping → (m : Match) → Has m found → IsEligible runes opts m → Has m out
  pub selected :
      opts.kind ≡ leftmost_longest_kind
      → (m : Match) → Has m found
      → IsEligible runes opts m
      → (k : Match) × Has k out × Covers k m
  pub spread : opts.kind ≡ leftmost_longest_kind → IsSpread 0 out

module _ (found kept : List Match) (runes : List ℕ) (opts : MatchOptions)
    (inside : (m : Match) → Has m found → IsInside runes m)
    (eligible : (m : Match) → Has m kept ↔ Has m found × IsEligible runes opts m) where
  apply_kind-IsAnswer :
      (k : MatchKind) → opts.kind ≡ k → IsAnswer found runes opts (apply_kind k kept)
  unfolding apply_kind
  apply_kind-IsAnswer overlapping e = record {
    sound = λ m. (eligible m).0;
    all = λ _ m h w. (eligible m).1 (h, w);
    selected = λ q. cc;
    spread = λ q. cc;
  }
  apply_kind-IsAnswer leftmost_longest_kind e =
      let s : IsSelection kept (apply_kind leftmost_longest_kind kept) =
        leftmost_longest-IsSelection kept (λ m h. (inside m ((eligible m).0 h).0).0) in
      record {
        sound = λ m h. (eligible m).0 (s.taken m h);
        all = λ q. cc;
        selected = λ _ m h w. s.covered m ((eligible m).1 (h, w));
        spread = λ _. s.spread;
      }

-- On spans that are not empty and stand in the text, FindMatches reads within bounds and appends its
-- answer to the matches of earlier texts, which stay as they are: what it adds was found and, if that is
-- asked for, has no word rune right before or after it; every such span is added if overlaps are asked
-- for, and otherwise the added spans do not overlap and cover every such span.
pub find_matches-IsAnswer :
    (dst found : List Match) (runes : List ℕ) (opts : MatchOptions)
    → ((m : Match) → Has m found → IsInside runes m)
    → (out : List Match) × (find_matches dst found runes opts ≡ some (dst ++ out))
      × IsAnswer found runes opts out
unfolding find_matches
find_matches-IsAnswer dst found runes opts inside =
    let (kept, e, eligible) = passing_iff found runes opts inside in
    (
      apply_kind opts.kind kept,
      ap (appended dst opts.kind) e,
      apply_kind-IsAnswer found kept runes opts inside eligible opts.kind refl,
    )
