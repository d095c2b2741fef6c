-- ===== src/Examples.antt =====
-- Runs of the definitions on small inputs, and the theorems at them.
mod Data
mod Storage
mod Searches
mod Batches
mod Texts
use acor.Prelude.{
  ℕ, ◌-◌, ◌*◌, ◌/◌, ◌<◌, ◌≤◌, ◌||◌, leb, ◌≡◌, ◌≢◌, refl, ◌↔◌, inl, inr, Bool, true, some, List, [],
  ◌∷◌, Word, arith, ◌==◌, length, if◌then◌else◌, map, Has, AllDistinct, rev_onto, ◌+◌,
}
use acor.Examples.Data.{
  word_he, word_she, word_hers, dictionary, ushers, ten_bits, ten_bits-positive,
}
use acor.Matches.{Match, MatchOptions, leftmost_longest_kind, leftmost_longest, find_matches}
use acor.Matches.Selection.{IsNonempty, IsSelection, leftmost_longest-IsSelection}
use acor.Matches.WholeWord.{IsInside}
use acor.Matches.Pipeline.{IsAnswer, find_matches-IsAnswer}
use acor.Parallel.{ParallelOptions, Chunk, line, split_auto_chunks, split_chunks, is_boundary}
use acor.Parallel.Auto.{OccursAt, Owns, split_auto_chunks_lem}
use acor.Parallel.Overlap.{IsShown, split_chunks-IsShown}
use acor.Plan.{TrieSnapshot, plan_add_many, plan_remove_many}
use acor.Plan.Stored.{IsConsistent}
use acor.Plan.Add.{IsAddition, plan_add_many_lem}
use acor.Plan.Remove.{IsRemoval, plan_remove_many_lem}
use acor.Engine.Outputs.{Emission, assign, assign_id, with_sentinel}
use acor.Engine.Bloom.{new_bloom_filter, add_all, might_contain}
use acor.Engine.Bloom.NoFalseNegatives.{contains-added}
use acor.Engine.MapNode.{MapNode, blank, next, add_child, edges, next-add_child}
use acor.Engine.MapEngine.{build_trie, match_string}
use acor.Engine.MapEngine.Automaton.{IsAutomaton, build_trie-IsAutomaton}
use acor.Engine.MapEngine.Scan.{IsOccurrence}
use acor.Engine.MemEfficient.{
  MemEfficientEngine, build_from_sequence, engine_match_string, find, index_at, find_index,
}
use acor.Engine.MemEfficient.Answer.{engine_match_string_iff, engine_match_string-AllDistinct}
use acor.Engine.MemEfficient.Index.{starts_of, find_index-match_string}
use acor.Engine.FindSet.{find_set}
use acor.Engine.FindSet.Collected.{find_set-find}
use acor.Engine.MemEfficient.Queries.{find-match_string}

abbrev engine : MemEfficientEngine
engine = build_from_sequence ten_bits dictionary

abbrev she_in_ushers : Emission
she_in_ushers = record { keyword = word_she; start = 1; end = 4 }

match_string-ushers :
    match_string (build_trie dictionary) (λ r. r == b'u') ushers
    ≡ she_in_ushers
      ∷ record { keyword = word_he; start = 2; end = 4 }
      ∷ record { keyword = word_hers; start = 2; end = 6 }
      ∷ []
unfolding match_string build_trie next add_child edges assign assign_id with_sentinel
match_string-ushers = refl

engine_match_string_iff_example :
    Has she_in_ushers (engine_match_string engine ushers)
    ↔ IsOccurrence dictionary ushers she_in_ushers
engine_match_string_iff_example =
    engine_match_string_iff ten_bits ten_bits-positive dictionary ushers she_in_ushers

engine_match_string-AllDistinct_example : AllDistinct (engine_match_string engine ushers)
engine_match_string-AllDistinct_example =
    engine_match_string-AllDistinct ten_bits ten_bits-positive dictionary ushers

build_trie-IsAutomaton_example : IsAutomaton (build_trie dictionary) (rev_onto dictionary [])
build_trie-IsAutomaton_example = build_trie-IsAutomaton dictionary

find_index-match_string_example :
    index_at (find_index engine ushers) word_he
    ≡ starts_of word_he (engine_match_string engine ushers)
find_index-match_string_example = find_index-match_string engine ushers word_he

find_set-find_example : Has word_he (find_set engine ushers) ↔ Has word_he (find engine ushers)
find_set-find_example = find_set-find engine ushers word_he

find-match_string_example :
    find engine ushers ≡ map (λ (m : Emission). m.keyword) (engine_match_string engine ushers)
find-match_string_example = find-match_string engine ushers

contains-added_example :
    might_contain (add_all (new_bloom_filter ten_bits 2) (b'h' ∷ b's' ∷ [])) b's' ≡ true
contains-added_example =
    contains-added ten_bits ten_bits-positive 2 (b'h' ∷ b's' ∷ []) b's' (inr (inl refl))

-- A second child makes a map of the inline edge.
abbrev one_edge : MapNode
one_edge = add_child blank b'h' 1

seven-not_root : ◌≢◌ {A = ℕ} 7 0
seven-not_root e = omega arith

next-add_child_example :
    next (add_child one_edge b's' 7) b'h' ≡ (if b's' == b'h' then some 7 else next one_edge b'h')
next-add_child_example = next-add_child one_edge b's' 7 b'h' seven-not_root

-- Two keywords that overlap, and one apart.
abbrev spans : List Match
spans =
    record { keyword = word_he; start = 2; end = 4 }
    ∷ record { keyword = word_hers; start = 2; end = 6 }
    ∷ record { keyword = word_he; start = 8; end = 10 }
    ∷ []

spans-IsNonempty : (m : Match) → Has m spans → IsNonempty m
spans-IsNonempty m (inl e) = rw e (omega arith)
spans-IsNonempty m (inr (inl e)) = rw e (omega arith)
spans-IsNonempty m (inr (inr (inl e))) = rw e (omega arith)
spans-IsNonempty m (inr (inr (inr h))) = elim h [ ]

leftmost_longest-IsSelection_example : IsSelection spans (leftmost_longest spans)
leftmost_longest-IsSelection_example = leftmost_longest-IsSelection spans spans-IsNonempty

abbrev is_letter : ℕ → Bool
is_letter r = leb 97 r

abbrev whole_words : MatchOptions
whole_words = record { kind = leftmost_longest_kind; whole_word = true; word_rune = is_letter }

-- The spans that a scan of the text reports.
abbrev found_spans : List Match
found_spans =
    record { keyword = word_she; start = 1; end = 4 }
    ∷ record { keyword = word_he; start = 2; end = 4 }
    ∷ record { keyword = word_hers; start = 2; end = 6 }
    ∷ []

found_spans-IsInside : (m : Match) → Has m found_spans → IsInside ushers m
found_spans-IsInside m (inl e) = rw e (omega arith, omega arith)
found_spans-IsInside m (inr (inl e)) = rw e (omega arith, omega arith)
found_spans-IsInside m (inr (inr (inl e))) = rw e (omega arith, omega arith)
found_spans-IsInside m (inr (inr (inr h))) = elim h [ ]

find_matches-IsAnswer_example :
    (out : List Match) × (find_matches [] found_spans ushers whole_words ≡ some out)
    × IsAnswer found_spans ushers whole_words out
find_matches-IsAnswer_example =
    find_matches-IsAnswer [] found_spans ushers whole_words found_spans-IsInside

abbrev by_lines : ParallelOptions
by_lines = record { chunk_size = 3; boundary = line; overlap = 0 }

abbrev is_blank : ℕ → Bool
is_blank r = r == 32 || r == 10

four-positive : 0 < 4
four-positive = omega arith

two-small : 2 ≤ 4 / 2
two-small = omega arith

she-nonempty : 0 < length word_she
she-nonempty = omega arith

she-short : length word_she ≤ 2 + 1
she-short = omega arith

she-occurs : OccursAt word_she ushers 1
she-occurs = (refl, (refl, (refl, tt)))

-- Words of at most half a chunk survive the cuts.
abbrev halves : ParallelOptions
halves = record { chunk_size = 4; boundary = line; overlap = 2 }

split_chunks-IsShown_example : IsShown (split_chunks is_blank ushers halves) word_she 1
split_chunks-IsShown_example =
    split_chunks-IsShown is_blank ushers halves four-positive two-small word_she 1 she-nonempty
      she-short she-occurs

-- An overlap of a whole chunk is dropped: the parts meet without overlapping.
abbrev wide : ParallelOptions
wide = record { chunk_size = 3; boundary = line; overlap = 3 }

split_chunks-wide :
    split_chunks is_blank ushers wide
    ≡ record { text = b'u' ∷ b's' ∷ b'h' ∷ []; text_offset = 0; owned_runes = 0 }
      ∷ record { text = b'e' ∷ b'r' ∷ b's' ∷ []; text_offset = 3; owned_runes = 0 }
      ∷ []
unfolding split_chunks is_boundary
split_chunks-wide = refl

three-positive : 0 < by_lines.chunk_size
three-positive = omega arith

four-inside : 4 < length ushers
four-inside = omega arith

split_auto_chunks_example :
    (c : Chunk) × Has c (split_auto_chunks is_blank ushers by_lines 4)
    × Owns c 4
    × ((d : Chunk) → Has d (split_auto_chunks is_blank ushers by_lines 4) → Owns d 4 → d ≡ c)
    × ((kw : Word) → length kw ≤ 4 → OccursAt kw ushers 4 ↔ OccursAt kw c.text (4 - c.text_offset))
split_auto_chunks_example =
    split_auto_chunks_lem is_blank ushers by_lines three-positive 4 4 four-inside

-- A collection as it is created: no keywords and the empty prefix.
abbrev empty_snapshot : TrieSnapshot
empty_snapshot = record { keywords = []; prefixes = [] ∷ []; version = 1 }

empty_snapshot-IsConsistent : IsConsistent empty_snapshot.keywords empty_snapshot.prefixes
empty_snapshot-IsConsistent = record {
  closed = λ kw p h g. elim h [ ];
  sound = λ p h. elim h [ inl e ↦ inl e | inr z ↦ elim z [ ] ];
}

abbrev first_write : TrieSnapshot × List (Word × List Word) × List Word
first_write = plan_add_many empty_snapshot dictionary

plan_add_many_example :
    IsAddition empty_snapshot dictionary first_write.0 first_write.1 first_write.2
plan_add_many_example = plan_add_many_lem empty_snapshot dictionary empty_snapshot-IsConsistent

first_write-IsConsistent : IsConsistent first_write.0.keywords first_write.0.prefixes
first_write-IsConsistent =
    (plan_add_many_lem empty_snapshot dictionary empty_snapshot-IsConsistent).consistent

abbrev second_write : TrieSnapshot × List (Word × List Word) × List Word
second_write = plan_remove_many first_write.0 (word_he ∷ [])

plan_remove_many_example :
    IsRemoval first_write.0 (word_he ∷ []) second_write.0 second_write.1 second_write.2
plan_remove_many_example =
    plan_remove_many_lem first_write.0 (word_he ∷ []) first_write-IsConsistent
