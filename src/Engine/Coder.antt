-- ===== src/Engine/Coder.antt =====
-- internal/engine/coder.go: the compact alphabet that the flat and the double-array engines share. Runes
-- are natural numbers, so the negative ones, which `code` turns away, do not arise.
pub mod Positions
pub mod Bytes
use acor.Prelude.{
  ℕ, zero, suc, ◌+◌, ◌-◌, Option, none, some, List, [], ◌∷◌, Word, Bool, true, false, ltb, ◌==◌,
  if◌then◌else◌, leb, get_elem?, get_or, set, replicate,
}

-- `index` is the map, with the last write in front; `ascii_code` has 128 entries, each one more than the
-- index, or 0.
pub record AlphabetCoder : Type 0 where
  pub index : List (ℕ × ℕ)
  pub ascii_code : List ℕ
  pub ascii_only : Bool

unfoldable pub index_of : List (ℕ × ℕ) → ℕ → Option ℕ
index_of [] r = none
index_of ((q, i) ∷ index) r = if q == r then some i else index_of index r

-- One round of build's loop.
unfoldable pub put_rune : AlphabetCoder → ℕ → ℕ → AlphabetCoder
put_rune c i r = record {
  index = (r, i) ∷ c.index;
  ascii_code = if ltb r 128 then set c.ascii_code r (i + 1) else c.ascii_code;
  ascii_only = if ltb r 128 then c.ascii_only else false;
}

unfoldable pub build_from : AlphabetCoder → ℕ → Word → AlphabetCoder
unfolding put_rune
build_from c i [] = c
build_from c i (r ∷ runes) = build_from (put_rune c i r) (i + 1) runes

abbrev pub empty_coder : AlphabetCoder
empty_coder = record { index = []; ascii_code = replicate 128 0; ascii_only = true }

unfoldable pub build_coder : Word → AlphabetCoder
unfolding build_from
build_coder runes = build_from empty_coder 0 runes

-- `int(x) - 1, x != 0`
abbrev pub decoded : ℕ → Option ℕ
decoded x = if x == 0 then none else some (x - 1)

-- The read of the table: `none` is the panic of an index out of its range.
abbrev pub decoded_entry : Option ℕ → Option (Option ℕ)
decoded_entry none = none
decoded_entry (some x) = some (decoded x)

unfoldable pub code_byte : AlphabetCoder → ℕ → Option (Option ℕ)
code_byte c b = if leb 128 b then some none else decoded_entry (get_elem? c.ascii_code b)

unfoldable pub code : AlphabetCoder → ℕ → Option ℕ
unfolding index_of
code c ch = if ltb ch 128 then decoded (get_or c.ascii_code ch 0) else index_of c.index ch
