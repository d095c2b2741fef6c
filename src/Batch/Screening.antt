-- ===== src/Batch/Screening.antt =====
-- screenBatch: blanks fail, repeats are skipped, and the others go on with their normal forms.
use acor.Prelude.{
  ℕ, ◌+◌, ◌≡◌, ◌≢◌, refl, sym, ap, ◌∙◌, ◌↔◌, ◌⊎◌, inl, inr, List, [], ◌∷◌, ◌++◌, map, Word, Has,
  Has-append_left, Has-append_right, Has-append_inv, AllDistinct, AllDistinct-append, Bool, true,
  false, subst, Bool-cases, has_word, has_word_iff, length, length-append, arith, map-append,
}
use acor.Plan.{is_empty}
use acor.Plan.Stored.{nil_of_is_empty}
use acor.Batch.{BatchResult, Screened, screen_keyword, screen_from, screen_batch, normalize_keyword}
use acor.V2.{empty_keyword}

not_seen : (w : Word) (ws : List Word) → has_word w ws ≡ false → ¬ Has w ws
not_seen w ws e h = let there : has_word w ws ≡ true = (has_word_iff w ws).1 h in cc

not_blank : (w : Word) → is_empty w ≡ false → w ≢ []
not_blank [] e z = cc
not_blank (x ∷ w) e z = cc

-- All entries of a result.
abbrev pub accounted : BatchResult → ℕ
accounted result =
    length result.added + length result.removed + length result.failed + length result.skipped

module _ (trim lower : Word → Word) (case_sensitive : Bool) where
  abbrev pub normal : Word → Word
  normal keyword = normalize_keyword trim lower case_sensitive keyword

  -- `w` is the normal form of a keyword asked for that is not blank.
  abbrev pub IsAsked : List Word → Word → Type 0
  IsAsked keywords w = (kw : Word) × Has kw keywords × (trim kw ≢ []) × (w ≡ normal (trim kw))

  pub record IsScreened (before after : Screened) (keywords : List Word) : Type 0 where
    pub aligned : after.normalized ≡ map normal after.candidates
    pub distinct : AllDistinct after.normalized
    pub covers : (w : Word) → Has w after.normalized ↔ Has w before.normalized ⊎ IsAsked keywords w
    pub counted :
        accounted after.result + length after.candidates
        ≡ accounted before.result + length before.candidates + length keywords

  cons-IsScreened :
      (s t u : Screened) (kw : Word) (kws : List Word)
      → IsScreened s t (kw ∷ [])
      → IsScreened t u kws
      → IsScreened s u (kw ∷ kws)
  cons-IsScreened s t u kw kws A B = record {
    aligned = B.aligned;
    distinct = B.distinct;
    covers = λ w. (
      λ h. elim ((B.covers w).0 h) [
        | inl k ↦ elim ((A.covers w).0 k) [
          | inl i ↦ inl i
          | inr (q, inl e, n, f) ↦ inr (q, inl e, n, f)
          | inr (q, inr z, n, f) ↦ elim z [ ]
        ]
        | inr (q, k, n, f) ↦ inr (q, inr k, n, f)
      ],
      λ h. elim h [
        | inl k ↦ (B.covers w).1 (inl ((A.covers w).1 (inl k)))
        | inr (q, inl e, n, f) ↦ (B.covers w).1 (inl ((A.covers w).1 (inr (q, inl e, n, f))))
        | inr (q, inr k, n, f) ↦ (B.covers w).1 (inr (q, k, n, f))
      ],
    );
    counted = omega (arith, A.counted, B.counted);
  }

  screen_keyword-IsScreened :
      (s : Screened) (kw : Word)
      → s.normalized ≡ map normal s.candidates
      → AllDistinct s.normalized
      → IsScreened s (screen_keyword trim lower case_sensitive s kw) (kw ∷ [])
  unfolding screen_keyword
  screen_keyword-IsScreened s kw a d = elim (Bool-cases (is_empty (trim kw))) [
    | inl e ↦
        let blank = nil_of_is_empty (trim kw) e in
        rw e (record {
          aligned = a;
          distinct = d;
          covers = λ w. (
            λ h. inl h,
            λ h. elim h [
              | inl k ↦ k
              | inr (q, inl f, n, g) ↦ absurd (n (ap trim f ∙ blank))
              | inr (q, inr z, n, g) ↦ elim z [ ]
            ],
          );
          counted = omega (arith, length-append s.result.failed ((trim kw, empty_keyword) ∷ []));
        })
    | inr e ↦ elim (Bool-cases (has_word (normal (trim kw)) s.normalized)) [
      | inl k ↦
          rw (e, k)
            (record {
              aligned = a;
              distinct = d;
              covers = λ w. (
                λ h. inl h,
                λ h. elim h [
                  | inl i ↦ i
                  | inr (q, inl f, n, g) ↦
                      subst (λ x. Has x s.normalized) (sym (g ∙ ap (λ x. normal (trim x)) f))
                        ((has_word_iff (normal (trim kw)) s.normalized).0 k)
                  | inr (q, inr z, n, g) ↦ elim z [ ]
                ],
              );
              counted = omega (arith, length-append s.result.skipped (trim kw ∷ []));
            })
      | inr k ↦
          rw (e, k)
            (record {
              aligned =
                  ap (λ l. l ++ normal (trim kw) ∷ []) a
                  ∙ sym (map-append normal s.candidates (trim kw ∷ []));
              distinct =
                  AllDistinct-append s.normalized (normal (trim kw) ∷ []) d (λ z. elim z [ ], tt)
                    (λ x h i. elim i [
                      | inl f ↦
                          not_seen (normal (trim kw)) s.normalized k
                            (subst (λ y. Has y s.normalized) f h)
                      | inr z ↦ elim z [ ]
                    ]);
              covers = λ w. (
                λ h. elim (Has-append_inv w s.normalized (normal (trim kw) ∷ []) h) [
                  | inl i ↦ inl i
                  | inr (inl f) ↦ inr (kw, inl refl, (λ z. not_blank (trim kw) e z), f)
                  | inr (inr z) ↦ elim z [ ]
                ],
                λ h. elim h [
                  | inl i ↦ Has-append_left w s.normalized (normal (trim kw) ∷ []) i
                  | inr (q, inl f, n, g) ↦
                      Has-append_right w s.normalized (normal (trim kw) ∷ [])
                        (inl (g ∙ ap (λ x. normal (trim x)) f))
                  | inr (q, inr z, n, g) ↦ elim z [ ]
                ],
              );
              counted = omega (arith, length-append s.candidates (trim kw ∷ []));
            })
    ]
  ]

  screen_from-IsScreened :
      (s : Screened) (kws : List Word)
      → s.normalized ≡ map normal s.candidates
      → AllDistinct s.normalized
      → IsScreened s (screen_from trim lower case_sensitive s kws) kws
  unfolding screen_from
  screen_from-IsScreened s [] a d = record {
    aligned = a;
    distinct = d;
    covers = λ w. (λ h. inl h, λ h. elim h [ inl k ↦ k | inr (q, z, n, g) ↦ elim z [ ] ]);
    counted = omega arith;
  }
  screen_from-IsScreened s (kw ∷ kws) a d =
      let t = screen_keyword trim lower case_sensitive s kw in
      let first = screen_keyword-IsScreened s kw a d in
      cons-IsScreened s t (screen_from trim lower case_sensitive t kws) kw kws first
        (screen_from-IsScreened t kws first.aligned first.distinct)

  -- screenBatch leaves as many entries as keywords came in, in its result and its candidates; the normal
  -- forms stand beside the candidates, no two are the same, and they are those of the keywords that are
  -- not blank.
  pub screen_batch-IsScreened :
      (keywords : List Word) (result : BatchResult)
      → IsScreened
          (record { result = result; candidates = []; normalized = [] })
          (screen_batch trim lower case_sensitive keywords result)
          keywords
  unfolding screen_batch
  screen_batch-IsScreened keywords result =
      screen_from-IsScreened (record { result = result; candidates = []; normalized = [] }) keywords
        refl tt
