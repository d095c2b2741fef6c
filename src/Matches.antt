-- ===== src/Matches.antt =====
-- pkg/acor/matches.go: spans of keywords, the leftmost-longest selection, the whole-word filter, and
-- what FindMatches does with the engine's output. `slices.SortFunc` is an insertion sort here; where
-- two spans compare equal Go leaves their order open, and no theorem depends on it.
pub mod Sorting
pub mod Selection
pub mod WholeWord
pub mod Pipeline
pub mod Presence
use Prim.Native.Nat.{compare, Ordering}
use acor.Prelude.{
  ℕ, zero, suc, ◌-◌, Bool, true, false, not, ◌&&◌, ◌||◌, List, [], ◌∷◌, ◌++◌, Word, leb, ◌==◌,
  if◌then◌else◌, length, get_elem?, Option, none, some,
}

pub record Match : Type 0 where
  pub keyword : Word
  pub start : ℕ
  pub end : ℕ

pub data MatchKind : Type 0 where
  overlapping leftmost_longest_kind : MatchKind

-- By start ascending, and at the same start by end descending.
unfoldable pub cmp_leftmost_longest : Match → Match → Ordering
cmp_leftmost_longest a b =
    if a.start == b.start then compare b.end a.end else compare a.start b.start

-- `cmpLeftmostLongest(a, b) < 0`
unfoldable pub is_less : Match → Match → Bool
unfolding cmp_leftmost_longest
is_less a b = elim (cmp_leftmost_longest a b) [ Ordering.lt ↦ true | _ ↦ false ]

-- `slices.IsSortedFunc`: no element is less than the one before it.
unfoldable pub is_sorted : List Match → Bool
is_sorted [] = true
is_sorted (a ∷ []) = true
is_sorted (a ∷ b ∷ ms) = not (is_less b a) && is_sorted (b ∷ ms)

-- `slices.SortFunc`
unfoldable pub insert : Match → List Match → List Match
insert m [] = m ∷ []
insert m (x ∷ ms) = if is_less x m then x ∷ insert m ms else m ∷ x ∷ ms

unfoldable pub sort : List Match → List Match
unfolding insert
sort [] = []
sort (m ∷ ms) = insert m (sort ms)

-- The loop that keeps a span whenever it starts at or past `lastEnd`.
unfoldable pub select : ℕ → List Match → List Match
select last_end [] = []
select last_end (m ∷ ms) =
    let kept = m ∷ select m.end ms in
    let skipped = select last_end ms in if leb last_end m.start then kept else skipped

unfoldable pub leftmost_longest : List Match → List Match
unfolding select sort is_sorted is_less
leftmost_longest ms =
    if leb (length ms) 1 then ms else select 0 (if is_sorted ms then ms else sort ms)

-- The test of one neighbour: `none` is the panic of an index out of its range.
abbrev pub is_no_word : (ℕ → Bool) → Option ℕ → Option Bool
is_no_word is_word none = none
is_no_word is_word (some r) = some (not (is_word r))

abbrev pub before_ok : List ℕ → (ℕ → Bool) → ℕ → Option Bool
before_ok runes is_word start =
    if start == 0 then some true else is_no_word is_word (get_elem? runes (start - 1))

abbrev pub after_ok : List ℕ → (ℕ → Bool) → ℕ → Option Bool
after_ok runes is_word end =
    if leb (length runes) end then some true else is_no_word is_word (get_elem? runes end)

abbrev pub both : Option Bool → Option Bool → Option Bool
both none after = none
both (some b) none = none
both (some b) (some a) = some (b && a)

unfoldable pub is_whole_word : List ℕ → (ℕ → Bool) → Match → Option Bool
is_whole_word runes is_word m =
    both (before_ok runes is_word m.start) (after_ok runes is_word m.end)

abbrev pub kept_if : Match → Option Bool → Option (List Match) → Option (List Match)
kept_if m none rest = none
kept_if m (some b) none = none
kept_if m (some b) (some ms) = some (if b then m ∷ ms else ms)

-- `none` is a panic in one of the rounds.
unfoldable pub filter_whole_word : List Match → List ℕ → (ℕ → Bool) → Option (List Match)
unfolding is_whole_word
filter_whole_word [] runes is_word = some []
filter_whole_word (m ∷ ms) runes is_word =
    kept_if m (is_whole_word runes is_word m) (filter_whole_word ms runes is_word)

-- `word_rune` is the predicate in force: the caller's, or `isWordRune`.
pub record MatchOptions : Type 0 where
  pub kind : MatchKind
  pub whole_word : Bool
  pub word_rune : ℕ → Bool

unfoldable pub apply_kind : MatchKind → List Match → List Match
unfolding leftmost_longest
apply_kind overlapping found = found
apply_kind leftmost_longest_kind found = leftmost_longest found

abbrev pub appended : List Match → MatchKind → Option (List Match) → Option (List Match)
appended dst kind none = none
appended dst kind (some found) = some (dst ++ apply_kind kind found)

-- `findMatches` once the engine has reported `found` on the runes of the normalised text: `dst` holds
-- the matches of earlier texts and is only appended to.
unfoldable pub find_matches : List Match → List Match → List ℕ → MatchOptions → Option (List Match)
unfolding apply_kind filter_whole_word
find_matches dst found runes opts =
    appended dst opts.kind
      (if opts.whole_word then filter_whole_word found runes opts.word_rune else some found)
