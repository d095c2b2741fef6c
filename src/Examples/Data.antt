-- ===== src/Examples/Data.antt =====
-- The words and the filter's formulas of the examples.
use acor.Prelude.{ℕ, ◌*◌, ◌<◌, List, [], ◌∷◌, Word, arith}

abbrev pub word_he : Word
word_he = b'h' ∷ b'e' ∷ []

abbrev pub word_she : Word
word_she = b's' ∷ b'h' ∷ b'e' ∷ []

abbrev pub word_hers : Word
word_hers = b'h' ∷ b'e' ∷ b'r' ∷ b's' ∷ []

abbrev pub dictionary : List Word
dictionary = word_he ∷ word_she ∷ word_hers ∷ []

abbrev pub ushers : Word
ushers = b'u' ∷ b's' ∷ b'h' ∷ b'e' ∷ b'r' ∷ b's' ∷ []

-- Ten bits and seven hashes for each item, about what a rate of one in a hundred takes.
abbrev pub ten_bits : ℕ → ℕ × ℕ
ten_bits n = (n * 10, 7)

pub ten_bits-positive : (n : ℕ) → 0 < n → 0 < (ten_bits n).0
ten_bits-positive n h = omega arith
