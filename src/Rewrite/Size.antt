-- ===== src/Rewrite/Size.antt =====
-- The size that renderRewrite works out beforehand is that of what it writes.
use acor.Prelude.{
  ℕ, zero, suc, ◌+◌, ◌-◌, ◌*◌, ◌/◌, ◌<◌, ◌≤◌, ◌≡◌, refl, sym, ap, ◌∙◌, ◌↔◌, inl, inr, none, some,
  List, [], ◌∷◌, ◌++◌, Word, Bool, true, false, ltb, leb, lt→ltb, ltb→lt, if◌then◌else◌, length,
  length-append, length-take, length-drop, drop, Bool-cases, arith,
}
use native.Mathlib.Nat.{div-lt_iff_lt-mul}
use acor.Parallel.{slice}
use acor.Rewrite.{
  SourceMatch, output_limit, Filling, replacing, masking, filled, filled_size, is_too_large,
  repeated, measure, write_out, render_rewrite, rendered, failed,
}

-- The matches stand in the text one after the other, from `cursor` on.
abbrev pub IsOrdered : Word → ℕ → List SourceMatch → Type 0
IsOrdered text cursor [] = cursor ≤ length text
IsOrdered text cursor (m ∷ ms) =
    (cursor ≤ m.byte_start) × (m.byte_start ≤ m.byte_end) × IsOrdered text m.byte_end ms

-- A mask rune has at least one byte.
abbrev pub IsWritable : Filling → Type 0
IsWritable (replacing replacement) = Unit
IsWritable (masking mask) = 0 < length mask

length-repeated : (n : ℕ) (w : Word) → length (repeated n w) ≡ n * length w
length-repeated zero w = omega arith
length-repeated (suc n) w = length-append w (repeated n w) ∙ grind (arith, length-repeated n w)

length-filled : (f : Filling) (m : SourceMatch) → length (filled f m) ≡ filled_size f m
length-filled (replacing replacement) m = refl
length-filled (masking mask) m = length-repeated (m.end - m.start) mask

is_too_large_iff :
    (f : Filling) (m : SourceMatch) (room : ℕ)
    → IsWritable f
    → is_too_large f m room ≡ ltb room (filled_size f m)
is_too_large_iff (replacing replacement) m room w = refl
is_too_large_iff (masking mask) m room w =
    let both : (room / length mask < m.end - m.start) ↔ (room < (m.end - m.start) * length mask) =
      div-lt_iff_lt-mul w in
    elim (Bool-cases (ltb (room / length mask) (m.end - m.start))) [
      | inl e ↦
          let big : ltb room ((m.end - m.start) * length mask) ≡ true =
            lt→ltb room ((m.end - m.start) * length mask)
              (both.0 (ltb→lt (room / length mask) (m.end - m.start) e)) in
          rw (e, big) refl
      | inr e ↦ rw e refl
    ]

pub ordered-inside :
    (text : Word) (cursor : ℕ) (ms : List SourceMatch)
    → IsOrdered text cursor ms
    → cursor ≤ length text
ordered-inside text cursor [] o = o
ordered-inside text cursor (m ∷ ms) (a, b, o) = omega (arith, ordered-inside text m.byte_end ms o)

ltb_shift : (limit total x : ℕ) → total ≤ limit → ltb (limit - total) x ≡ ltb limit (total + x)
ltb_shift limit total x fits = ground arith

over_first :
    (limit total u f r n : ℕ)
    → total ≤ limit
    → ltb (limit - total) u ≡ true
    → n ≡ u + f + r
    → ltb limit (total + n) ≡ true
over_first limit total u f r n fits e h = ground arith

over_second :
    (limit total u f r n : ℕ)
    → total ≤ limit
    → ltb (limit - total) u ≡ false
    → ltb (limit - (total + u)) f ≡ true
    → n ≡ u + f + r
    → ltb limit (total + n) ≡ true
over_second limit total u f r n fits e k h = ground arith

fits_next :
    (limit total u f : ℕ)
    → total ≤ limit
    → ltb (limit - total) u ≡ false
    → ltb (limit - (total + u)) f ≡ false
    → total + u + f ≤ limit
fits_next limit total u f fits e k = ground arith

module _ (text : Word) (filling : Filling) (limit : ℕ) (is_canceled : SourceMatch → Bool)
    (writable : IsWritable filling) (going : (m : SourceMatch) → is_canceled m ≡ false) where
  abbrev written : ℕ → List SourceMatch → Word
  written cursor ms = write_out text filling cursor ms

  length-written :
      (cursor : ℕ) (m : SourceMatch) (ms : List SourceMatch)
      → IsOrdered text cursor (m ∷ ms)
      → length (written cursor (m ∷ ms))
        ≡ (m.byte_start - cursor) + filled_size filling m + length (written m.byte_end ms)
  unfolding write_out
  length-written cursor m ms (a, b, o) =
      let piece = slice text cursor m.byte_start in
      let rest = written m.byte_end ms in
      length-append (piece ++ filled filling m) rest
      ∙ omega (
        arith,
        length-append piece (filled filling m),
        length-filled filling m,
        length-take (m.byte_start - cursor) (drop cursor text),
        length-drop cursor text,
        ordered-inside text m.byte_end ms o,
      )

  measured :
      (total cursor : ℕ) (ms : List SourceMatch)
      → total ≤ limit
      → IsOrdered text cursor ms
      → measure text filling limit is_canceled total cursor ms
        ≡ (if ltb limit (total + length (written cursor ms)) then some output_limit else none)
  unfolding measure write_out
  measured total cursor [] fits o =
      let same : ltb (limit - total) (length text - cursor)
          ≡ ltb limit (total + length (drop cursor text)) =
        ltb_shift limit total (length text - cursor) fits
        ∙ ap (λ n. ltb limit (total + n)) (sym (length-drop cursor text)) in
      ap (λ b. if b then some output_limit else none) same
  measured total cursor (m ∷ ms) fits (a, b, o) =
      let unchanged = m.byte_start - cursor in
      let size = filled_size filling m in
      let whole = length-written cursor m ms (a, b, o) in
      elim (Bool-cases (ltb (limit - total) unchanged)) [
        | inl e ↦
            let over : ltb limit (total + length (written cursor (m ∷ ms))) ≡ true =
              over_first limit total unchanged size (length (written m.byte_end ms)) _ fits e
                whole in
            rw (going m, e, over) refl
        | inr e ↦ elim (Bool-cases (ltb (limit - (total + unchanged)) size)) [
          | inl k ↦
              let over : ltb limit (total + length (written cursor (m ∷ ms))) ≡ true =
                over_second limit total unchanged size (length (written m.byte_end ms)) _ fits e k
                  whole in
              rw
                (
                  going m,
                  e,
                  is_too_large_iff filling m (limit - (total + unchanged)) writable,
                  k,
                  over,
                )
                refl
          | inr k ↦
              let same : total + unchanged + size + length (written m.byte_end ms)
                  ≡ total + length (written cursor (m ∷ ms)) =
                omega (arith, whole) in
              rw (going m, e, is_too_large_iff filling m (limit - (total + unchanged)) writable, k)
                (measured (total + unchanged + size) m.byte_end ms
                    (fits_next limit total unchanged size fits e k) o
                  ∙ ap (λ n. if ltb limit n then some output_limit else none) same)
        ]
      ]

  -- The size that is worked out beforehand is that of the output: it is within the limit exactly if the
  -- output is.
  pub render_rewrite-written :
      (matches : List SourceMatch)
      → IsOrdered text 0 matches
      → render_rewrite text filling limit is_canceled matches ≡ (
          if leb (length (written 0 matches)) limit
          then rendered (written 0 matches)
          else failed output_limit)
  unfolding render_rewrite
  render_rewrite-written matches o =
      let size = measured 0 0 matches (omega arith) o in
      elim (Bool-cases (ltb limit (0 + length (written 0 matches)))) [
        | inl e ↦
            let none_fits : leb (length (written 0 matches)) limit ≡ false = ground arith in
            rw (size, e, none_fits) refl
        | inr e ↦
            let all_fits : leb (length (written 0 matches)) limit ≡ true = ground arith in
            rw (size, e, all_fits) refl
      ]
