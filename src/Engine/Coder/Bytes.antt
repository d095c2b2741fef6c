-- ===== src/Engine/Coder/Bytes.antt =====
-- The byte path of the coder against its rune path.
use acor.Prelude.{
  ℕ, zero, suc, ◌<◌, ◌+◌, List, some, length, get_elem?, get_or, leb, ltb→lt, sym, ap,
  length-replicate, ◌≡◌, refl, none, [], ◌∷◌, Word, true, false, ltb, ◌==◌, Bool-cases, arith, inl,
  inr,
}
use acor.Engine.Coder.Positions.{length-build_from}
use acor.Engine.Coder.{
  AlphabetCoder, index_of, put_rune, build_from, empty_coder, build_coder, decoded, decoded_entry,
  code_byte, code,
}

-- While all runes were ASCII, the map has no others.
abbrev IsPlain : AlphabetCoder → Type 0
IsPlain c = c.ascii_only ≡ true → (b : ℕ) → ltb b 128 ≡ false → index_of c.index b ≡ none

put_rune-IsPlain : (c : AlphabetCoder) (i r : ℕ) → IsPlain c → IsPlain (put_rune c i r)
unfolding put_rune index_of
put_rune-IsPlain c i r P h b high = elim (Bool-cases (ltb r 128)) [
  | inl a ↦ let other : (r == b) ≡ false = ground arith in rw other (P (rw a at h) b high)
  | inr a ↦ let never : false ≡ true = rw a at h in cc
]

build_from-IsPlain :
    (runes : Word) (c : AlphabetCoder) (i : ℕ) → IsPlain c → IsPlain (build_from c i runes)
unfolding build_from
build_from-IsPlain [] c i P = P
build_from-IsPlain (r ∷ runes) c i P =
    build_from-IsPlain runes (put_rune c i r) (i + 1) (put_rune-IsPlain c i r P)

empty-IsPlain : IsPlain empty_coder
unfolding index_of
empty-IsPlain h b high = refl

decoded-entry :
    (l : List ℕ) (b : ℕ)
    → b < length l
    → decoded_entry (get_elem? l b) ≡ some (decoded (get_or l b 0))
decoded-entry [] b h = absurd (omega (arith, h))
decoded-entry (x ∷ l) zero h = refl
decoded-entry (x ∷ l) (suc b) h = decoded-entry l b (omega (arith, h))

-- On an alphabet of ASCII runes only, codeByte reads its table within bounds on every byte, and gives it
-- the code that code gives the rune.
pub code_byte-code :
    (runes : Word) (b : ℕ)
    → (build_coder runes).ascii_only ≡ true
    → code_byte (build_coder runes) b ≡ some (code (build_coder runes) b)
unfolding code_byte code build_coder
code_byte-code runes b h = elim (Bool-cases (ltb b 128)) [
  | inl a ↦
      let low : leb 128 b ≡ false = ground arith in
      let inside : b < length (build_from empty_coder 0 runes).ascii_code = omega (
        arith,
        ltb→lt b 128 a,
        length-build_from runes empty_coder 0 (length-replicate {A = ℕ} 128 0),
      ) in
      rw (a, low) (decoded-entry (build_from empty_coder 0 runes).ascii_code b inside)
  | inr a ↦
      let high : leb 128 b ≡ true = ground arith in
      rw (a, high) (ap some (sym (build_from-IsPlain runes empty_coder 0 empty-IsPlain h b a)))
]
