-- ===== src/Rewrite.antt =====
-- pkg/acor/rewrite.go: renderRewrite, which writes the replacement for the matches of a text under a bound
-- on the output. A text is the sequence of its bytes, and a replacement or an encoded mask rune is too.
pub mod Size
pub mod Replaced
use acor.Prelude.{
  ℕ, zero, suc, ◌+◌, ◌-◌, ◌*◌, ◌/◌, Option, none, some, List, [], ◌∷◌, ◌++◌, Word, Bool, true,
  false, ltb, ◌||◌, if◌then◌else◌, length, take, drop, suc,
}
use acor.Parallel.{slice}

-- The fields of a SourceMatch that the rendering reads.
pub record SourceMatch : Type 0 where
  pub start : ℕ
  pub end : ℕ
  pub byte_start : ℕ
  pub byte_end : ℕ

pub data RewriteError : Type 0 where
  canceled output_limit match_limit negative_limit : RewriteError

pub data Rendered : Type 0 where
  rendered : Word → Rendered
  failed : RewriteError → Rendered

-- What a match is written as: the replacement, or the mask once for each of its runes.
pub data Filling : Type 0 where
  replacing : Word → Filling
  masking : Word → Filling

abbrev pub repeated : ℕ → Word → Word
repeated zero w = []
repeated (suc n) w = w ++ repeated n w

abbrev pub filled : Filling → SourceMatch → Word
filled (replacing replacement) m = replacement
filled (masking mask) m = repeated (m.end - m.start) mask

-- The two tests on the size of a replacement, with `room` bytes left.
abbrev pub is_too_large : Filling → SourceMatch → ℕ → Bool
is_too_large (replacing replacement) m room = ltb room (length replacement)
is_too_large (masking mask) m room =
    ltb (room / length mask) (m.end - m.start) || ltb room ((m.end - m.start) * length mask)

abbrev pub filled_size : Filling → SourceMatch → ℕ
filled_size (replacing replacement) m = length replacement
filled_size (masking mask) m = (m.end - m.start) * length mask

module _ (text : Word) (filling : Filling) where
  -- The second loop: `text[cursor:m.ByteStart]`, the replacement, and the rest of the text at the end.
  unfoldable pub write_out : ℕ → List SourceMatch → Word
  write_out cursor [] = drop cursor text
  write_out cursor (m ∷ ms) =
      slice text cursor m.byte_start ++ filled filling m ++ write_out m.byte_end ms

module _ (text : Word) (filling : Filling) (limit : ℕ) (is_canceled : SourceMatch → Bool) where
  -- The first loop: the size of the output, or why there is none.
  unfoldable pub measure : ℕ → ℕ → List SourceMatch → Option RewriteError
  measure total cursor [] =
      if ltb (limit - total) (length text - cursor) then some output_limit else none
  measure total cursor (m ∷ ms) =
      let unchanged = m.byte_start - cursor in
      let total' = total + unchanged in
      let rest = measure (total' + filled_size filling m) m.byte_end ms in
      if is_canceled m
      then some canceled
      else if ltb (limit - total) unchanged
      then some output_limit
      else if is_too_large filling m (limit - total')
      then some output_limit
      else rest

  abbrev pub finished : List SourceMatch → Option RewriteError → Rendered
  finished matches (some e) = failed e
  finished matches none = rendered (write_out text filling 0 matches)

  -- A cancellation that the second loop notices is left out.
  unfoldable pub render_rewrite : List SourceMatch → Rendered
  unfolding measure write_out
  render_rewrite matches = finished matches (measure 0 0 matches)
