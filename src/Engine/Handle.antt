-- ===== src/Engine/Handle.antt =====
-- internal/engine/engine.go and engine_handle.go: the interface of an engine, as its clients use it,
-- and the handle around one. The engine of the memory-efficient preset fills it.
use acor.Prelude.{
  Option, none, some, ℕ, ◌<◌, ◌≤◌, max, ◌≡◌, refl, sym, ◌↔◌, inl, inr, List, [], ◌∷◌, Word, Bool,
  true, false, map, length, Has, arith, ◌+◌, subst, ◌≢◌, IsPrefix, drop, Has-map,
}
use acor.Engine.Outputs.{Emission}
use acor.Engine.MapEngine.Scan.{IsOccurrence}
use acor.Engine.MemEfficient.Index.{starts_of, find_index-match_string}
use acor.Engine.MemEfficient.{
  IndexMap, index_at, find_index, build_from_sequence, engine_match_string, find,
}
use acor.Engine.MemEfficient.Answer.{engine_match_string_iff}
use acor.Engine.FindSet.{find_set}
use acor.Engine.FindSet.Collected.{find_set-find}
use acor.Engine.MemEfficient.Queries.{find-match_string}

-- matchEngine: what it answers once buildFromKeywords has run on the keywords.
pub record MatchEngine : Type 0 where
  pub match_string : List Word → Word → List Emission
  pub find : List Word → Word → List Word
  pub exact :
      (keywords : List Word) (text : Word) (m : Emission)
      → Has m (match_string keywords text) ↔ IsOccurrence keywords text m
  pub find_set : List Word → Word → List Word
  pub find_set-find :
      (keywords : List Word) (text w : Word)
      → Has w (find_set keywords text) ↔ Has w (find keywords text)
  pub find_index : List Word → Word → IndexMap
  pub find_index-starts :
      (keywords : List Word) (text kw : Word)
      → index_at (find_index keywords text) kw ≡ starts_of kw (match_string keywords text)
  pub find_reports :
      (keywords : List Word) (text : Word)
      → find keywords text ≡ map (λ (m : Emission). m.keyword) (match_string keywords text)
  -- The engine's own `contains`, if it is a `container`; nothing is assumed of it.
  pub container : Option (List Word → Word → Bool)

-- Build's loop over the keywords.
unfoldable pub longest_of : List Word → ℕ
longest_of [] = 0
longest_of (kw ∷ kws) = max (longest_of kws) (length kw)

-- The engine that Build leaves.
pub record Engine : Type 0 where
  pub impl : MatchEngine
  pub keywords : List Word
  pub max_keyword_runes : ℕ

unfoldable pub build : MatchEngine → List Word → Engine
unfolding longest_of
build impl keywords = record {
  impl = impl;
  keywords = keywords;
  max_keyword_runes = longest_of keywords;
}

abbrev pub engine_find : Engine → Word → List Word
engine_find e text = e.impl.find e.keywords text

abbrev pub engine_find_set : Engine → Word → List Word
engine_find_set e text = e.impl.find_set e.keywords text

abbrev pub engine_find_index : Engine → Word → IndexMap
engine_find_index e text = e.impl.find_index e.keywords text

abbrev pub reports : Engine → Word → List Emission
reports e text = e.impl.match_string e.keywords text

-- Contains asks the engine's own `contains`, if it has one; else `emit` notes the first report and stops
-- the scan.
abbrev pub contains_by : Option (List Word → Word → Bool) → Engine → Word → Bool
contains_by none e text = elim (reports e text) [ [] ↦ false | _ ∷ _ ↦ true ]
contains_by (some own) e text = own e.keywords text

unfoldable pub contains : Engine → Word → Bool
contains e text = contains_by e.impl.container e text

pub length-longest_of : (kws : List Word) (kw : Word) → Has kw kws → length kw ≤ longest_of kws
unfolding longest_of
length-longest_of [] kw h = elim h [ ]
length-longest_of (k ∷ kws) kw (inl e) =
    subst (λ w. length w ≤ max (longest_of kws) (length k)) (sym e) (omega arith)
length-longest_of (k ∷ kws) kw (inr h) = omega (arith, length-longest_of kws kw h)

module _ (sizing : ℕ → ℕ × ℕ) (some_bits : (n : ℕ) → 0 < n → 0 < (sizing n).0) where
  abbrev pub mem_efficient : MatchEngine
  mem_efficient = record {
    match_string = λ keywords text. engine_match_string (build_from_sequence sizing keywords) text;
    find = λ keywords text. find (build_from_sequence sizing keywords) text;
    find_set = λ keywords text. find_set (build_from_sequence sizing keywords) text;
    find_set-find = λ keywords text w. find_set-find (build_from_sequence sizing keywords) text w;
    find_index = λ keywords text. find_index (build_from_sequence sizing keywords) text;
    find_index-starts =
        λ keywords text kw. find_index-match_string (build_from_sequence sizing keywords) text kw;
    exact = λ keywords text m. engine_match_string_iff sizing some_bits keywords text m;
    find_reports = λ keywords text. find-match_string (build_from_sequence sizing keywords) text;
    container = none;
  }

-- `kw` is one of the keywords, is not empty and stands in the text.
abbrev pub IsFound : List Word → Word → Word → Type 0
IsFound keywords text kw = Has kw keywords × (kw ≢ []) × (p : ℕ) × IsPrefix kw (drop p text)

module _ (impl : MatchEngine) (keywords : List Word) where
  reported :
      (text kw : Word)
      → IsFound keywords text kw
        ↔ ((m : Emission) × Has m (impl.match_string keywords text) × (kw ≡ m.keyword))
  reported text kw = (
    λ (k, n, p, h). (
      record { keyword = kw; start = p; end = p + length kw },
      (impl.exact keywords text (record { keyword = kw; start = p; end = p + length kw })).1
          (k, n, refl, h),
      refl,
    ),
    λ (m, h, e).
        let (k, n, a, q) = (impl.exact keywords text m).0 h in
        subst (IsFound keywords text) (sym e) (k, n, m.start, q),
  )

  -- Find returns exactly the keywords that are not empty and occur in the text.
  pub engine_find_iff :
      (text kw : Word) → Has kw (engine_find (build impl keywords) text) ↔ IsFound keywords text kw
  unfolding build
  engine_find_iff text kw =
      let at = Has-map (λ (m : Emission). m.keyword) (impl.match_string keywords text) kw in
      let shown = reported text kw in
      rw (impl.find_reports keywords text) (λ h. shown.1 (at.0 h), λ h. at.1 (shown.0 h))

  any_report :
      {P : Word → Type 0} (l : List Emission)
      → ((kw : Word) → P kw ↔ ((m : Emission) × Has m l × (kw ≡ m.keyword)))
      → ((elim l [ [] ↦ false | _ ∷ _ ↦ true ]) ≡ true) ↔ ((kw : Word) × P kw)
  any_report [] f = (λ h. cc, λ (kw, h). let (m, z, e) = (f kw).0 h in elim z [ ])
  any_report (m ∷ l) f = (λ h. (m.keyword, (f m.keyword).1 (m, inl refl, refl)), λ h. refl)

  -- On an engine without a `contains` of its own, Contains is true exactly if some keyword that is not
  -- empty occurs in the text.
  pub contains_iff :
      (text : Word)
      → impl.container ≡ none
      → (contains (build impl keywords) text ≡ true) ↔ ((kw : Word) × IsFound keywords text kw)
  unfolding contains build
  contains_iff text generic =
      rw generic (any_report (impl.match_string keywords text) (reported text))
