-- ===== src/Rewrite/Replaced.antt =====
-- What renderRewrite writes: the text with its matches replaced.
use acor.Prelude.{
  ℕ, zero, suc, ◌+◌, ◌-◌, ◌≤◌, ◌≡◌, refl, sym, ap, ◌∙◌, List, [], ◌∷◌, ◌++◌, Word, Bool, false,
  false, leb, length, drop, if◌then◌else◌, arith, subst, length-take, length-drop, take-append-drop,
  drop-drop,
}
use acor.Parallel.{slice}
use acor.Rewrite.{
  SourceMatch, Filling, replacing, masking, filled, repeated, write_out, render_rewrite, rendered,
  failed, output_limit,
}
use acor.Rewrite.Size.{IsOrdered, IsWritable, render_rewrite-written, ordered-inside}

-- `n` copies of a mask rune, one after the other.
pub data IsCopies (mask : Word) : ℕ → Word → Type 0 where
  no_copy : IsCopies mask 0 []
  a_copy : {n : ℕ} {w : Word} → IsCopies mask n w → IsCopies mask (suc n) (mask ++ w)

-- What stands in the place of a match: the replacement, or as many mask runes as the match has runes.
abbrev pub IsFilling : Filling → SourceMatch → Word → Type 0
IsFilling (replacing replacement) m w = w ≡ replacement
IsFilling (masking mask) m w = IsCopies mask (m.end - m.start) w

-- From a position on, the text is cut into what stands before a match, the match and the rest; the output
-- has what stands before, what the match is filled with, and the output of the rest.
pub data IsReplaced (filling : Filling) : ℕ → Word → List SourceMatch → Word → Type 0 where
  no_match : {at : ℕ} {rest : Word} → IsReplaced filling at rest [] rest
  a_match :
      {at : ℕ} {m : SourceMatch} {ms : List SourceMatch} (before found rest filler out : Word)
      → m.byte_start ≡ at + length before
      → m.byte_end ≡ m.byte_start + length found
      → IsFilling filling m filler
      → IsReplaced filling m.byte_end rest ms out
      → IsReplaced filling at (before ++ (found ++ rest)) (m ∷ ms) (before ++ filler ++ out)

repeated-IsCopies : (n : ℕ) (mask : Word) → IsCopies mask n (repeated n mask)
repeated-IsCopies zero mask = no_copy
repeated-IsCopies (suc n) mask = a_copy (repeated-IsCopies n mask)

filled-IsFilling : (f : Filling) (m : SourceMatch) → IsFilling f m (filled f m)
filled-IsFilling (replacing replacement) m = refl
filled-IsFilling (masking mask) m = repeated-IsCopies (m.end - m.start) mask

module _ (text : Word) (filling : Filling) where
  -- The text from `a` on is the slice up to `b`, and the text from there on.
  slice-drop : (a b : ℕ) → a ≤ b → slice text a b ++ drop b text ≡ drop a text
  slice-drop a b le =
      let n = b - a in
      let whole : a + n ≡ b = omega (arith, le) in
      ap (λ l. slice text a b ++ l) (ap (λ k. drop k text) (sym whole) ∙ sym (drop-drop a n text))
      ∙ take-append-drop n (drop a text)

  length-slice : (a b : ℕ) → a ≤ b → b ≤ length text → b ≡ a + length (slice text a b)
  length-slice a b le inside =
      omega (arith, le, inside, length-take (b - a) (drop a text), length-drop a text)

  write_out-IsReplaced :
      (cursor : ℕ) (ms : List SourceMatch)
      → IsOrdered text cursor ms
      → IsReplaced filling cursor (drop cursor text) ms (write_out text filling cursor ms)
  unfolding write_out
  write_out-IsReplaced cursor [] o = no_match
  write_out-IsReplaced cursor (m ∷ ms) (a, b, o) =
      let before = slice text cursor m.byte_start in
      let found = slice text m.byte_start m.byte_end in
      let inside = ordered-inside text m.byte_end ms o in
      let cut : before ++ (found ++ drop m.byte_end text) ≡ drop cursor text =
        ap (λ l. before ++ l) (slice-drop m.byte_start m.byte_end b)
        ∙ slice-drop cursor m.byte_start a in
      subst (λ l. IsReplaced filling cursor l (m ∷ ms) (write_out text filling cursor (m ∷ ms))) cut
        (a_match before found (drop m.byte_end text) (filled filling m)
          (write_out text filling m.byte_end ms)
          (length-slice cursor m.byte_start a (omega (arith, b, inside)))
          (length-slice m.byte_start m.byte_end b inside) (filled-IsFilling filling m)
          (write_out-IsReplaced m.byte_end ms o))

-- For matches that stand in the text one after the other, with no cancellation, and a mask rune of at
-- least one byte, renderRewrite returns the text in which the bytes of each match are replaced by the
-- replacement, or by one mask rune for each of its runes, if that is at most `limit` bytes long, and the
-- output limit as an error otherwise.
pub render_rewrite-IsReplaced :
    (text : Word) (filling : Filling) (limit : ℕ) (is_canceled : SourceMatch → Bool)
    → IsWritable filling
    → ((m : SourceMatch) → is_canceled m ≡ false)
    → (matches : List SourceMatch) → IsOrdered text 0 matches
    → (out : Word) × IsReplaced filling 0 text matches out
      × (render_rewrite text filling limit is_canceled matches
          ≡ (if leb (length out) limit then rendered out else failed output_limit))
render_rewrite-IsReplaced text filling limit is_canceled writable going matches o = (
  write_out text filling 0 matches,
  write_out-IsReplaced text filling 0 matches o,
  render_rewrite-written text filling limit is_canceled writable going matches o,
)
