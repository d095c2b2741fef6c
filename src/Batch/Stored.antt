-- ===== src/Batch/Stored.antt =====
-- A transactional batch on a stored collection with one writer, where applyManyAtomic writes the whole
-- batch at once.
use acor.Prelude.{
  map, ℕ, ◌≡◌, refl, ap, ◌∙◌, ◌↔◌, ◌⊎◌, inl, inr, some, List, [], Word, Has, Bool, true, false,
  Bool-cases, length, has_word, has_word_iff, subst, arith,
}
use acor.Plan.{is_empty}
use acor.Plan.Stored.{nil_of_is_empty}
use acor.V2.{
  Json, Collection, Write, add, remove, attempt, Result, ok, err, empty_keyword, retry_on_conflict,
}
use acor.V2.Stored.{IsStored}
use acor.V2.Written.{IsKept, IsChanged}
use acor.V2.Attempt.{attempt-IsOutcome}
use acor.V2.System.{is_stale-own}
use acor.V2.Writes.{apply_many_atomic}
use acor.Batch.{
  BatchResult, no_result, Screened, Direction, adding, removing, Ops, screen_batch, settled,
  note_applied, many_transactional,
}
use acor.Batch.Screening.{accounted, normal, IsAsked, screen_batch-IsScreened}
use acor.Batch.Account.{accounted-applied}
use acor.Batch.Blank.{HasBlank, screen_from-failed, blank_or_none}

-- A batch write of the mode, by the only writer: no attempt meets another version.
module _ (json : Json) (write : Write) (version : Collection → ℕ) where
  unfoldable pub v2_write : Collection → List Word → Collection × Result (List Word)
  unfolding apply_many_atomic attempt
  v2_write c keywords = (
    (attempt json write keywords c (version c) c).0,
    apply_many_atomic json (λ _. c) (λ _. c) (λ _. version c) (λ _. false) write keywords,
  )

  -- A collection that stores what the write makes of `ks`.
  pub record IsLeft (ks asked : List Word) (after : Collection) : Type 0 where
    pub keywords_after : List Word
    pub prefixes_after : List Word
    pub stored : IsStored json after keywords_after prefixes_after
    pub held : (w : Word) → Has w keywords_after ↔ IsKept write ks asked w

  idle_iff :
      (write : Write) (ks asked : List Word)
      → ((w : Word) → ¬ IsChanged write ks asked w)
      → (w : Word) → Has w ks ↔ IsKept write ks asked w
  idle_iff add ks asked nothing w = (
    λ h. inl h,
    λ h. elim h [
      | inl k ↦ k
      | inr (n, k) ↦ elim (Bool-cases (has_word w ks)) [
        | inl e ↦ (has_word_iff w ks).0 e
        | inr e ↦ absurd (nothing w (n, k, λ i. clash ((has_word_iff w ks).1 i) e))
      ]
    ],
  )
    where
      clash : {b : Bool} → b ≡ true → b ≡ false → ⊥
      clash h k = cc
  idle_iff remove ks asked nothing w = (λ h. (h, λ k. nothing w (h, k)), λ (h, _). h)

  v2_write-IsLeft :
      (c : Collection) (ks ps : List Word)
      → IsStored json c ks ps
      → (keywords : List Word)
      → (after : Collection) × (applied : List Word) × (v2_write c keywords ≡ (after, ok applied))
        × IsLeft ks keywords after
  unfolding v2_write apply_many_atomic retry_on_conflict
  v2_write-IsLeft c ks ps S keywords =
      let answer : Collection × Result (List Word) → Collection × Result (List Word) =
        λ r. (r.0, retry_on_conflict (λ _. r.1) (λ _. false)) in
      elim (attempt-IsOutcome json write keywords (version c) c ks ps S c (λ _. refl)) [
        | inl (e, nothing) ↦ (
          c,
          [],
          ap answer e,
          record {
            keywords_after = ks;
            prefixes_after = ps;
            stored = S;
            held = idle_iff write ks keywords nothing;
          },
        )
        | inr (inl (e, stale)) ↦ absurd (clash stale (is_stale-own json c.trie.version))
        | inr (inr (after, applied, e, same, changes, W)) ↦ (
          after,
          applied,
          ap answer e,
          record {
            keywords_after = W.keywords_after;
            prefixes_after = W.prefixes_after;
            stored = W.stored;
            held = W.held;
          },
        )
      ]
    where
      clash : {b : Bool} → b ≡ true → b ≡ false → ⊥
      clash h k = cc

changes_none :
    (write : Write) (ks asked : List Word) → asked ≡ [] → (w : Word) → ¬ IsChanged write ks asked w
changes_none add ks asked e w (n, h, _) = elim (subst (Has w) e h) [ ]
changes_none remove ks asked e w (h, k) = elim (subst (Has w) e k) [ ]

abbrev pub direction_of : Write → Direction
direction_of add = adding
direction_of remove = removing

module _ (trim lower : Word → Word) (case_sensitive : Bool) (json : Json) (write : Write)
    (version : Collection → ℕ) (one undo : Collection → Word → Collection × Result ℕ) where
  abbrev pub v2_ops : Ops Collection
  v2_ops = record {
    direction = direction_of write;
    atomic = some (v2_write json write version);
    one = one;
    undo = undo;
  }

  -- All or nothing: a blank keyword fails the batch and changes nothing; else the collection that is left
  -- stores what the write makes of the normal forms of the keywords, and each keyword is accounted for.
  abbrev pub IsWhole : Collection → List Word → List Word → Collection × Result BatchResult → Type 0
  IsWhole c ks asked r =
      (HasBlank trim lower case_sensitive asked × (r ≡ (c, err empty_keyword)))
      ⊎ ((¬ HasBlank trim lower case_sensitive asked)
          × ((after : Collection) × (result : BatchResult) × (r ≡ (after, ok result))
              × (accounted result ≡ length asked)
              × ((forms : List Word) × ((w : Word)
                    → Has w forms ↔ IsAsked trim lower case_sensitive asked w)
                  × IsLeft json write version ks forms after)))

  -- On a stored collection with one writer, a transactional batch fails exactly if a keyword is blank, and
  -- then changes nothing; else it leaves a stored collection with exactly the keywords that the write makes
  -- of the normal forms of those asked for, and reports as many entries as it was asked for keywords.
  pub many_transactional-IsWhole :
      (c : Collection) (ks ps : List Word)
      → IsStored json c ks ps
      → (asked : List Word)
      → IsWhole c ks asked (many_transactional trim lower case_sensitive v2_ops c asked no_result)
  unfolding many_transactional screen_batch
  many_transactional-IsWhole c ks ps S asked =
      let start : Screened = record { result = no_result; candidates = []; normalized = [] } in
      let screened : Screened = screen_batch trim lower case_sensitive asked no_result in
      let I = screen_batch-IsScreened trim lower case_sensitive asked no_result in
      let failed = screen_from-failed trim lower case_sensitive start asked in
      let forms : (w : Word)
          → Has w screened.normalized ↔ IsAsked trim lower case_sensitive asked w =
        λ w. (
          λ h. elim ((I.covers w).0 h) [ inl z ↦ elim z [ ] | inr k ↦ k ],
          λ k. (I.covers w).1 (inr k),
        ) in
      elim (blank_or_none trim lower case_sensitive asked) [
        | inl (kw, h, b) ↦ elim (Bool-cases (is_empty screened.result.failed)) [
          | inl e ↦ absurd (clash (ap is_empty b) ((failed.0 e).1 kw h))
          | inr e ↦ inl ((kw, h, b), rw e refl)
        ]
        | inr f ↦ inr (
          λ (kw, h, b). clash (ap is_empty b) (f kw h),
          (let whole = failed.1 (refl, f) in
              elim (Bool-cases (is_empty screened.candidates)) [
                | inl k ↦
                    let no_candidate = nil_of_is_empty screened.candidates k in
                    let no_form : screened.normalized ≡ [] =
                      I.aligned ∙ ap (map (normal trim lower case_sensitive)) no_candidate in
                    (
                      c,
                      screened.result,
                      rw (whole, k) refl,
                      omega (arith, I.counted, ap length no_candidate),
                      (
                        screened.normalized,
                        forms,
                        record {
                          keywords_after = ks;
                          prefixes_after = ps;
                          stored = S;
                          held =
                              idle_iff json write version write ks screened.normalized
                                (changes_none write ks screened.normalized no_form);
                        },
                      ),
                    )
                | inr k ↦
                    let (after, applied, e, left) =
                      v2_write-IsLeft json write version c ks ps S screened.normalized in
                    (
                      after,
                      note_applied v2_ops screened applied,
                      rw (whole, k) (ap (settled trim lower case_sensitive v2_ops screened) e),
                      omega (arith, I.counted, accounted-applied v2_ops screened applied),
                      (screened.normalized, forms, left),
                    )
              ]),
        )
      ]
    where
      clash : {b : Bool} → b ≡ true → b ≡ false → ⊥
      clash h k = cc
