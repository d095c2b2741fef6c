-- ===== src/Batch/Blank.antt =====
-- screenBatch notes a failure exactly if a keyword is blank.
use acor.Prelude.{
  ◌≡◌, refl, ap, ◌∙◌, ◌↔◌, ◌⊎◌, inl, inr, List, [], ◌∷◌, ◌++◌, Word, Has, Bool, true, false,
  Bool-cases, has_word,
}
use acor.Plan.{is_empty}
use acor.Plan.Stored.{nil_of_is_empty}
use acor.V2.{empty_keyword}
use acor.Batch.{Screened, screen_from, screen_keyword}
use acor.Batch.Screening.{normal}

module _ (trim lower : Word → Word) (case_sensitive : Bool) where
  abbrev pub HasBlank : List Word → Type 0
  HasBlank keywords = (kw : Word) × Has kw keywords × (trim kw ≡ [])

  appended_not_empty : {A : Type 0} (l : List A) (a : A) → is_empty (l ++ a ∷ []) ≡ false
  appended_not_empty [] a = refl
  appended_not_empty (x ∷ l) a = refl

  screen_keyword-failed :
      (s : Screened) (kw : Word)
      → (is_empty (screen_keyword trim lower case_sensitive s kw).result.failed ≡ true)
        ↔ ((is_empty s.result.failed ≡ true) × (is_empty (trim kw) ≡ false))
  unfolding screen_keyword
  screen_keyword-failed s kw = elim (Bool-cases (is_empty (trim kw))) [
    | inl e ↦ rw e (
      λ h. absurd (clash h (appended_not_empty s.result.failed (trim kw, empty_keyword))),
      λ (_, h). absurd (clash refl h),
    )
    | inr e ↦
        elim (Bool-cases (has_word (normal trim lower case_sensitive (trim kw)) s.normalized)) [
          | inl k ↦ rw (e, k) (λ h. (h, refl), λ (h, _). h)
          | inr k ↦ rw (e, k) (λ h. (h, refl), λ (h, _). h)
        ]
  ]
    where
      clash : {b : Bool} → b ≡ true → b ≡ false → ⊥
      clash h k = cc

  pub screen_from-failed :
      (s : Screened) (kws : List Word)
      → (is_empty (screen_from trim lower case_sensitive s kws).result.failed ≡ true) ↔ (
          (is_empty s.result.failed ≡ true)
          × ((kw : Word) → Has kw kws → is_empty (trim kw) ≡ false))
  unfolding screen_from
  screen_from-failed s [] = (λ h. (h, λ kw z. elim z [ ]), λ (h, _). h)
  screen_from-failed s (x ∷ kws) =
      let one = screen_keyword-failed s x in
      let rest = screen_from-failed (screen_keyword trim lower case_sensitive s x) kws in
      (
        λ h.
            let (k, f) = rest.0 h in
            let (a, b) = one.0 k in
            (a, λ kw i. elim i [ inl e ↦ ap (λ w. is_empty (trim w)) e ∙ b | inr i ↦ f kw i ]),
        λ (a, f). rest.1 (one.1 (a, f x (inl refl)), λ kw i. f kw (inr i)),
      )

  pub blank_or_none :
      (kws : List Word) → HasBlank kws ⊎ ((kw : Word) → Has kw kws → is_empty (trim kw) ≡ false)
  blank_or_none [] = inr (λ kw z. elim z [ ])
  blank_or_none (x ∷ kws) = elim (Bool-cases (is_empty (trim x))) [
    | inl e ↦ inl (x, inl refl, nil_of_is_empty (trim x) e)
    | inr e ↦ elim (blank_or_none kws) [
      | inl (kw, h, b) ↦ inl (kw, inr h, b)
      | inr f ↦ inr (λ kw h. elim h [ inl q ↦ ap (λ w. is_empty (trim w)) q ∙ e | inr i ↦ f kw i ])
    ]
  ]
