-- ===== src/Engine/Coder/Positions.antt =====
-- The code of a rune is its place in the alphabet.
use acor.Prelude.{
  length-replicate, ℕ, zero, suc, ◌+◌, ◌≡◌, ◌≢◌, refl, sym, ap, ◌∙◌, ◌↔◌, ◌⊎◌, inl, inr, none, some,
  [], ◌∷◌, Word, true, false, ltb, ◌==◌, ==_iff, if◌then◌else◌, get_or, set, get_or-set, length-set,
  replicate, length, get_elem?, Has, AllDistinct, Bool-cases, arith, subst,
}
use acor.Engine.Coder.{
  AlphabetCoder, index_of, put_rune, build_from, empty_coder, build_coder, decoded, code,
}

not_equal : (a b : ℕ) → a ≢ b → (a == b) ≡ false
not_equal a b n = elim (Bool-cases (a == b)) [ inl e ↦ absurd (n ((==_iff a b).0 e)) | inr e ↦ e ]

differs : (a b : ℕ) → (a == b) ≡ false → a ≢ b
differs a b e f = let same : (a == b) ≡ true = (==_iff a b).1 f in cc

some_injective : {a b : ℕ} → some a ≡ some b → a ≡ b
some_injective e = cc

some_not_none : {A : Type 0} {a : ℕ} → some a ≡ none → A
some_not_none e = cc

get_or_zeros : (n i : ℕ) → ◌≡◌ {A = ℕ} (get_or {A = ℕ} (replicate n 0) i 0) 0
get_or_zeros zero i = refl
get_or_zeros (suc n) zero = refl
get_or_zeros (suc n) (suc i) = get_or_zeros n i

code-put_rune :
    (c : AlphabetCoder) (i r ch : ℕ)
    → length c.ascii_code ≡ 128
    → code (put_rune c i r) ch ≡ (if r == ch then some i else code c ch)
unfolding code put_rune index_of
code-put_rune c i r ch n = elim (Bool-cases (ltb ch 128)) [
  | inl a ↦ elim (Bool-cases (r == ch)) [
    | inl e ↦
        let b : ltb r 128 ≡ true = ground arith in
        let at : get_or (set c.ascii_code r (i + 1)) ch 0 ≡ i + 1 =
          get_or-set c.ascii_code r (i + 1) ch 0 (ground arith) ∙ ground arith in
        let last : decoded (i + 1) ≡ some i = ground arith in rw (a, b, e, at) last
    | inr e ↦ elim (Bool-cases (ltb r 128)) [
      | inl b ↦
          let at : get_or (set c.ascii_code r (i + 1)) ch 0 ≡ get_or c.ascii_code ch 0 =
            get_or-set c.ascii_code r (i + 1) ch 0 (ground arith) ∙ ground arith in
          rw (a, b, e, at) refl
      | inr b ↦ rw (a, b, e) refl
    ]
  ]
  | inr a ↦ rw a refl
]

length-put_rune :
    (c : AlphabetCoder) (i r : ℕ)
    → length c.ascii_code ≡ 128
    → length (put_rune c i r).ascii_code ≡ 128
unfolding put_rune
length-put_rune c i r n = elim (Bool-cases (ltb r 128)) [
  | inl b ↦ rw b (length-set c.ascii_code r (i + 1) ∙ n)
  | inr b ↦ rw b n
]

pub length-build_from :
    (runes : Word) (c : AlphabetCoder) (i : ℕ)
    → length c.ascii_code ≡ 128
    → length (build_from c i runes).ascii_code ≡ 128
unfolding build_from
length-build_from [] c i n = n
length-build_from (r ∷ runes) c i n =
    length-build_from runes (put_rune c i r) (i + 1) (length-put_rune c i r n)

code-build_from_other :
    (runes : Word) (c : AlphabetCoder) (i ch : ℕ)
    → length c.ascii_code ≡ 128
    → (¬ Has ch runes)
    → code (build_from c i runes) ch ≡ code c ch
unfolding build_from
code-build_from_other [] c i ch n other = refl
code-build_from_other (r ∷ runes) c i ch n other =
    let ne : (r == ch) ≡ false = not_equal r ch (λ e. other (inl (sym e))) in
    code-build_from_other runes (put_rune c i r) (i + 1) ch (length-put_rune c i r n)
      (λ h. other (inr h))
    ∙ code-put_rune c i r ch n
    ∙ ap (λ b. if b then some i else code c ch) ne

code-build_from :
    (runes : Word) (c : AlphabetCoder) (i k ch : ℕ)
    → length c.ascii_code ≡ 128
    → AllDistinct runes
    → get_elem? runes k ≡ some ch
    → code (build_from c i runes) ch ≡ some (i + k)
unfolding build_from
code-build_from [] c i k ch n d e = cc
code-build_from (r ∷ runes) c i zero ch n (new, d) e =
    let same : r ≡ ch = some_injective e in
    let hit : (r == ch) ≡ true = (==_iff r ch).1 same in
    code-build_from_other runes (put_rune c i r) (i + 1) ch (length-put_rune c i r n)
      (λ h. new (subst (λ x. Has x runes) (sym same) h))
    ∙ code-put_rune c i r ch n
    ∙ ap (λ b. if b then some i else code c ch) hit
    ∙ ap some (omega arith)
code-build_from (r ∷ runes) c i (suc k) ch n (new, d) e =
    code-build_from runes (put_rune c i r) (i + 1) k ch (length-put_rune c i r n) d e
    ∙ ap some (omega arith)

-- A rune has a place in the alphabet or is not in it.
placed : (runes : Word) (ch : ℕ) → ((k : ℕ) × (get_elem? runes k ≡ some ch)) ⊎ (¬ Has ch runes)
placed [] ch = inr (λ h. elim h [ ])
placed (r ∷ runes) ch = elim (Bool-cases (r == ch)) [
  | inl e ↦ inl (0, ap some ((==_iff r ch).0 e))
  | inr e ↦ elim (placed runes ch) [
    | inl (k, f) ↦ inl (suc k, f)
    | inr other ↦ inr (λ h. elim h [ inl f ↦ differs r ch e (sym f) | inr g ↦ other g ])
  ]
]

code-empty : (ch : ℕ) → code empty_coder ch ≡ none
unfolding code index_of
code-empty ch = elim (Bool-cases (ltb ch 128)) [
  | inl a ↦ rw (a, get_or_zeros 128 ch) refl
  | inr a ↦ rw a refl
]

module _ (runes : Word) (d : AllDistinct runes) where
  full : length empty_coder.ascii_code ≡ 128
  full = length-replicate {A = ℕ} 128 0

  -- On an alphabet without repeats, the code of a rune is `k` exactly if the rune stands at place `k`,
  -- so a rune has a code exactly if it is in the alphabet, and the code leads back to it.
  pub code_iff : (ch k : ℕ) → (code (build_coder runes) ch ≡ some k) ↔ (get_elem? runes k ≡ some ch)
  unfolding build_coder
  code_iff ch k = (
    λ h. elim (placed runes ch) [
      | inl (j, e) ↦
          let same : j ≡ k =
            some_injective (
              sym (code-build_from runes empty_coder 0 j ch full d e ∙ ap some (omega arith))
              ∙ h) in
          subst (λ x. get_elem? runes x ≡ some ch) same e
      | inr other ↦ absurd (
          some_not_none
            (sym h ∙ code-build_from_other runes empty_coder 0 ch full other ∙ code-empty ch))
    ],
    λ e. code-build_from runes empty_coder 0 k ch full d e ∙ ap some (omega arith),
  )
