-- ===== src/Examples/Batches.antt =====
-- The theorems about batches, on a storage that is a set of keywords.
use acor.Prelude.{
  ℕ, ◌≡◌, none, List, [], ◌∷◌, Word, Bool, true, false, word_eq, if◌then◌else◌, length,
}
use acor.V2.{Result, ok}
use acor.Batch.{Ops, adding, no_result, screen_batch, many_best_effort}
use acor.Batch.Screening.{accounted, IsScreened, screen_batch-IsScreened}
use acor.Batch.Account.{accounted-many_best_effort}
use acor.Examples.Data.{word_he, word_she}

abbrev KeywordSet : Type 0
KeywordSet = Word → Bool

-- An addition, given whether the keyword is there.
abbrev added_to : KeywordSet → Word → Bool → KeywordSet × Result ℕ
added_to s kw true = (s, ok 0)
added_to s kw false = ((λ x. if word_eq kw x then true else s x), ok 1)

abbrev set_ops : Ops KeywordSet
set_ops = record {
  direction = adding;
  atomic = none;
  one = λ s kw. added_to s kw (s kw);
  undo = λ s kw. ((λ x. if word_eq kw x then false else s x), ok 1);
}

abbrev nothing : KeywordSet
nothing _ = false

-- The second keyword is blank.
abbrev asked : List Word
asked = word_he ∷ [] ∷ word_she ∷ []

accounted-many_best_effort_example :
    accounted (many_best_effort (λ w. w) (λ w. w) true set_ops nothing asked no_result).1
    ≡ length asked
accounted-many_best_effort_example =
    accounted-many_best_effort (λ w. w) (λ w. w) true set_ops nothing asked

screen_batch-IsScreened_example :
    IsScreened
      (λ w. w)
      (λ w. w)
      true
      (record { result = no_result; candidates = []; normalized = [] })
      (screen_batch (λ w. w) (λ w. w) true asked no_result)
      asked
screen_batch-IsScreened_example = screen_batch-IsScreened (λ w. w) (λ w. w) true asked no_result
