-- ===== src/Matches/WholeWord.antt =====
-- filterWholeWord: it reads within bounds on spans of the text, and keeps the whole words.
use acor.Prelude.{
  ◌-◌, ◌==◌, zero, suc, ◌<◌, ◌≤◌, sym, ap, ap₂, ◌∙◌, ◌↔◌, none, some, not, false, ◌&&◌, leb, length,
  get_elem?, subst, ℕ, ◌≡◌, refl, inl, inr, Bool, true, List, [], ◌∷◌, arith, if◌then◌else◌,
  Bool-cases, Has,
}
use acor.Matches.{
  is_no_word, before_ok, after_ok, both, kept_if, Match, is_whole_word, filter_whole_word,
}
use acor.Matches.Selection.{IsNonempty}

-- No rune before the span and none after it, where there is one, is a word rune.
abbrev pub IsWholeWord : List ℕ → (ℕ → Bool) → Match → Type 0
IsWholeWord runes is_word m =
    ((p r : ℕ) → suc p ≡ m.start → get_elem? runes p ≡ some r → is_word r ≡ false)
    × ((r : ℕ) → get_elem? runes m.end ≡ some r → is_word r ≡ false)

-- A span that is not empty and stands in the text.
abbrev pub IsInside : List ℕ → Match → Type 0
IsInside runes m = IsNonempty m × (m.end ≤ length runes)

some_injective : {A : Type 0} {a b : A} → some a ≡ some b → a ≡ b
some_injective e = cc

none_not_some : {A : Type 0} {a : A} → none ≡ some a → ⊥
none_not_some e = cc

entry : (l : List ℕ) (i : ℕ) → i < length l → (r : ℕ) × (get_elem? l i ≡ some r)
entry [] i h = absurd (omega (arith, h))
entry (x ∷ l) zero h = (x, refl)
entry (x ∷ l) (suc i) h = entry l i (omega (arith, h))

no_entry : (l : List ℕ) (i : ℕ) → length l ≤ i → get_elem? l i ≡ none
no_entry [] i h = refl
no_entry (x ∷ l) zero h = absurd (omega (arith, h))
no_entry (x ∷ l) (suc i) h = no_entry l i (omega (arith, h))

not_iff : (b : Bool) → (not b ≡ true) ↔ (b ≡ false)
not_iff true = (λ h. cc, λ h. cc)
not_iff false = (λ h. refl, λ h. refl)

module _ (runes : List ℕ) (is_word : ℕ → Bool) where
  -- A neighbour that there is decides the test.
  at_entry :
      (i : ℕ)
      → i < length runes
      → (b : Bool) × (is_no_word is_word (get_elem? runes i) ≡ some b)
        × ((b ≡ true) ↔ ((r : ℕ) → get_elem? runes i ≡ some r → is_word r ≡ false))
  at_entry i h =
      let (r, e) = entry runes i h in
      let here = not_iff (is_word r) in
      (
        not (is_word r),
        ap (is_no_word is_word) e,
        (λ t q k. ap is_word (some_injective (sym k ∙ e)) ∙ here.0 t, λ f. here.1 (f r e)),
      )

  before_ok_iff :
      (start : ℕ)
      → start ≤ length runes
      → (b : Bool) × (before_ok runes is_word start ≡ some b)
        × ((b ≡ true)
            ↔ ((p r : ℕ) → suc p ≡ start → get_elem? runes p ≡ some r → is_word r ≡ false))
  before_ok_iff zero h = (true, refl, (λ _ p r e k. absurd (omega (arith, e)), λ _. refl))
  before_ok_iff (suc n) h =
      let (b, e, w) = at_entry n (omega (arith, h)) in
      let inner : (suc n == 0) ≡ false = ground arith in
      let last : suc n - 1 ≡ n = omega arith in
      let here : before_ok runes is_word (suc n) ≡ is_no_word is_word (get_elem? runes n) =
        rw (inner, last) refl in
      (
        b,
        here ∙ e,
        (
          λ t p r q k.
              let same : p ≡ n = omega (arith, q) in
              w.0 t r (subst (λ i. get_elem? runes i ≡ some r) same k),
          λ f. w.1 (λ r k. f n r refl k),
        ),
      )

  after_ok_iff :
      (end : ℕ)
      → (b : Bool) × (after_ok runes is_word end ≡ some b)
        × ((b ≡ true) ↔ ((r : ℕ) → get_elem? runes end ≡ some r → is_word r ≡ false))
  after_ok_iff end = elim (Bool-cases (leb (length runes) end)) [
    | inl e ↦
        let out = no_entry runes end (ground arith) in
        (true, rw e refl, (λ _ r k. absurd (none_not_some (sym out ∙ k)), λ _. refl))
    | inr e ↦ let (b, q, w) = at_entry end (ground arith) in (b, rw e q, w)
  ]

  both_iff : (a b : Bool) → (a && b ≡ true) ↔ ((a ≡ true) × (b ≡ true))
  both_iff true b = (λ h. (refl, h), λ (_, h). h)
  both_iff false b = (λ h. (h, absurd (never h)), λ (h, _). h)
    where
      never : false ≡ true → ⊥
      never h = cc

  is_whole_word_iff :
      (m : Match)
      → IsInside runes m
      → (b : Bool) × (is_whole_word runes is_word m ≡ some b)
        × ((b ≡ true) ↔ IsWholeWord runes is_word m)
  unfolding is_whole_word
  is_whole_word_iff m (n, h) =
      let (b, e, before) = before_ok_iff m.start (omega (arith, n, h)) in
      let (a, f, after) = after_ok_iff m.end in
      let pair = both_iff b a in
      (
        b && a,
        ap₂ both e f,
        (
          λ t. let (x, y) = pair.0 t in (before.0 x, after.0 y),
          λ (x, y). pair.1 (before.1 x, after.1 y),
        ),
      )

  -- On spans that stand in the text, the filter reads within bounds and keeps the whole words.
  pub filter_whole_word_iff :
      (ms : List Match)
      → ((m : Match) → Has m ms → IsInside runes m)
      → (kept : List Match) × (filter_whole_word ms runes is_word ≡ some kept)
        × ((m : Match) → Has m kept ↔ Has m ms × IsWholeWord runes is_word m)
  unfolding filter_whole_word
  filter_whole_word_iff [] inside = ([], refl, λ m. (λ h. elim h [ ], λ (h, _). elim h [ ]))
  filter_whole_word_iff (x ∷ ms) inside =
      let (kept, e, w) = filter_whole_word_iff ms (λ m h. inside m (inr h)) in
      let (b, f, whole) = is_whole_word_iff x (inside x (inl refl)) in
      elim (Bool-cases b) [
        | inl t ↦ (
          x ∷ kept,
          ap₂ (kept_if x) f e ∙ ap (λ b. some (if b then x ∷ kept else kept)) t,
          λ m. (
            λ h. elim h [
              | inl q ↦ (inl q, subst (IsWholeWord runes is_word) (sym q) (whole.0 t))
              | inr i ↦ let (j, k) = (w m).0 i in (inr j, k)
            ],
            λ (h, k). elim h [ inl q ↦ inl q | inr i ↦ inr ((w m).1 (i, k)) ],
          ),
        )
        | inr t ↦ (
          kept,
          ap₂ (kept_if x) f e ∙ ap (λ b. some (if b then x ∷ kept else kept)) t,
          λ m. (
            λ h. let (j, k) = (w m).0 h in (inr j, k),
            λ (h, k). elim h [
              | inl q ↦ absurd (clash (whole.1 (subst (IsWholeWord runes is_word) q k)) t)
              | inr i ↦ (w m).1 (i, k)
            ],
          ),
        )
      ]
    where
      clash : {b : Bool} → b ≡ true → b ≡ false → ⊥
      clash h k = cc
