-- ===== src/Plan/Suffixes.antt =====
-- What an output list holds.
use acor.Prelude.{
  ◌≡◌, ◌≢◌, refl, sym, ◌↔◌, ◌⊎◌, inl, inr, false, List, [], ◌∷◌, Word, has_word, has_word_iff, Has,
  Bool-cases, subst,
}
use acor.Plan.{proper_suffixes, suffix_outputs, compute_outputs}

-- `w` is `state` or one of its proper suffixes that is not empty.
abbrev pub IsSuffix : Word → Word → Type 0
IsSuffix w state = (w ≡ state) ⊎ Has w (proper_suffixes state)

pub absent-has_word : (w : Word) (ws : List Word) → has_word w ws ≡ false → ¬ Has w ws
absent-has_word w ws e h = absurd (cc ((has_word_iff w ws).1 h))

module _ (P K : List Word) (live : (w : Word) → Has w K → w ≢ [] → Has w P) where
  nonempty-suffix : (state w : Word) → Has w (proper_suffixes state) → w ≢ []
  nonempty-suffix [] w h = elim h [ ]
  nonempty-suffix (c ∷ []) w h = elim h [ ]
  nonempty-suffix (c ∷ d ∷ s) w (inl e) = λ z. cc
  nonempty-suffix (c ∷ d ∷ s) w (inr h) = nonempty-suffix (d ∷ s) w h

  suffix_outputs_iff :
      (ss : List Word) (w : Word)
      → ((s : Word) → Has s ss → s ≢ [])
      → Has w (suffix_outputs ss P K) ↔ Has w ss × Has w K
  unfolding suffix_outputs
  suffix_outputs_iff [] w n = (λ h. elim h [ ], λ (h, k). elim h [ ])
  suffix_outputs_iff (s ∷ ss) w n =
      let rest = suffix_outputs_iff ss w (λ x h. n x (inr h)) in
      elim (Bool-cases (has_word s P)) [
        | inl p ↦ elim (Bool-cases (has_word s K)) [
          | inl k ↦
              rw (p, k)
                (
                  λ h. elim h [
                    | inl e ↦ (inl e, subst (λ x. Has x K) (sym e) ((has_word_iff s K).0 k))
                    | inr g ↦ let (a, b) = rest.0 g in (inr a, b)
                  ],
                  λ (h, g). elim h [ inl e ↦ inl e | inr a ↦ inr (rest.1 (a, g)) ],
                )
          | inr k ↦
              rw (p, k)
                (
                  λ h. let (a, b) = rest.0 h in (inr a, b),
                  λ (h, g). elim h [
                    | inl e ↦ absurd (absent-has_word s K k (subst (λ x. Has x K) e g))
                    | inr a ↦ rest.1 (a, g)
                  ],
                )
        ]
        | inr p ↦ rw p (
          λ h. let (a, b) = rest.0 h in (inr a, b),
          λ (h, g). elim h [
            | inl e ↦
                absurd (absent-has_word s P p (live s (subst (λ x. Has x K) e g) (n s (inl refl))))
            | inr a ↦ rest.1 (a, g)
          ],
        )
      ]

  -- computeOutputs lists the keywords that are suffixes of the state.
  pub compute_outputs_iff :
      (state w : Word) → Has w (compute_outputs state P K) ↔ IsSuffix w state × Has w K
  unfolding compute_outputs
  compute_outputs_iff state w =
      let rest = suffix_outputs_iff (proper_suffixes state) w (nonempty-suffix state) in
      elim (Bool-cases (has_word state K)) [
        | inl k ↦ rw k (
          λ h. elim h [
            | inl e ↦ (inl e, subst (λ x. Has x K) (sym e) ((has_word_iff state K).0 k))
            | inr g ↦ let (a, b) = rest.0 g in (inr a, b)
          ],
          λ (h, g). elim h [ inl e ↦ inl e | inr a ↦ inr (rest.1 (a, g)) ],
        )
        | inr k ↦ rw k (
          λ h. let (a, b) = rest.0 h in (inr a, b),
          λ (h, g). elim h [
            | inl e ↦ absurd (absent-has_word state K k (subst (λ x. Has x K) e g))
            | inr a ↦ rest.1 (a, g)
          ],
        )
      ]
