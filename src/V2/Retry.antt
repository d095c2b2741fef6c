-- ===== src/V2/Retry.antt =====
-- The retry loop: which attempt decides.
use acor.Prelude.{
  ℕ, zero, suc, ◌+◌, ◌<◌, ◌≤◌, ◌≡◌, ◌≢◌, refl, sym, ◌∙◌, ◌⊎◌, inl, inr, Bool, true, false, ◌==◌,
  arith, Bool-cases, subst,
}
use acor.V2.{
  Result, err, concurrency_conflict, canceled, retry_from, after_attempt, retry_on_conflict,
}

le_cases : (i j : ℕ) → i ≤ j → (i + 1 ≤ j) ⊎ (i ≡ j)
le_cases i j h = ground arith

module _ {A : Type 0} (outcome : ℕ → Result A) (is_canceled : ℕ → Bool) where
  -- Attempt `k` is the last one of those before `stop`, and this is what the loop answers.
  pub record IsDecided (stop k : ℕ) (answer : Result A) : Type 0 where
    pub in_time : k < stop
    pub conclusion :
        ((outcome k ≢ err concurrency_conflict) × (answer ≡ outcome k))
        ⊎ ((outcome k ≡ err concurrency_conflict)
            × (k + 1 ≡ stop)
            × (answer ≡ err concurrency_conflict))
        ⊎ ((outcome k ≡ err concurrency_conflict)
            × (k + 1 < stop)
            × (is_canceled k ≡ true)
            × (answer ≡ err canceled))

  -- The attempts from `i` up to the deciding one met a conflict, with no cancellation after it.
  abbrev pub IsRetried : ℕ → ℕ → Result A → Type 0
  IsRetried i stop answer =
      (k : ℕ) × IsDecided stop k answer
      × ((j : ℕ) → i ≤ j → j < k → (outcome j ≡ err concurrency_conflict) × (is_canceled j ≡ false))

  final :
      (i : ℕ) (stop : ℕ) (r answer : Result A)
      → i < stop
      → outcome i ≡ r
      → r ≢ err concurrency_conflict
      → answer ≡ r
      → IsRetried i stop answer
  final i stop r answer lt e n k = (
    i,
    record { in_time = lt; conclusion = inl (λ h. n (sym e ∙ h), k ∙ sym e) },
    λ j a b. absurd (omega arith),
  )

  later-IsRetried :
      (i stop : ℕ) (answer : Result A)
      → outcome i ≡ err concurrency_conflict
      → is_canceled i ≡ false
      → IsRetried (i + 1) stop answer
      → IsRetried i stop answer
  later-IsRetried i stop answer e k (d, D, before) = (
    d,
    D,
    λ j a b. elim (le_cases i j a) [
      | inl h ↦ before j h b
      | inr h ↦ (
        subst (λ x. outcome x ≡ err concurrency_conflict) h e,
        subst (λ x. is_canceled x ≡ false) h k,
      )
    ],
  )

  decided :
      (left i : ℕ) (later r : Result A)
      → outcome i ≡ r
      → (left ≡ 0) ⊎ IsRetried (i + 1) (i + suc left) later
      → IsRetried i (i + suc left) (after_attempt left (is_canceled i) later r)
  decided zero i later (err concurrency_conflict) e next = (
    i,
    record { in_time = omega arith; conclusion = inr (inl (e, omega arith, refl)) },
    λ j a b. absurd (omega arith),
  )
  decided (suc left) i later (err concurrency_conflict) e (inl z) = cc
  decided (suc left) i later (err concurrency_conflict) e (inr next) =
      let more : (suc left == 0) ≡ false = ground arith in
      elim (Bool-cases (is_canceled i)) [
        | inl k ↦
            rw (more, k)
              (
                i,
                record { in_time = omega arith; conclusion = inr (inr (e, omega arith, k, refl)) },
                λ j a b. absurd (omega arith),
              )
        | inr k ↦ rw (more, k) (later-IsRetried i (i + suc (suc left)) later e k next)
      ]
  decided left i later r e next = final i (i + suc left) r r (omega arith) e (λ h. cc) refl

  retry_from-IsRetried :
      (left i : ℕ) → IsRetried i (i + suc left) (retry_from outcome is_canceled (suc left) i)
  unfolding retry_from
  retry_from-IsRetried zero i =
      decided 0 i (retry_from outcome is_canceled 0 (i + 1)) (outcome i) refl (inl refl)
  retry_from-IsRetried (suc left) i =
      decided (suc left) i (retry_from outcome is_canceled (suc left) (i + 1)) (outcome i) refl (
        inr (
          subst (λ stop. IsRetried (i + 1) stop (retry_from outcome is_canceled (suc left) (i + 1)))
            (omega arith) (retry_from-IsRetried left (i + 1))))

-- retryOnConflict makes at most three attempts, one more only after a conflict that no cancellation
-- followed. It answers the last attempt's outcome if that is no conflict, the conflict if it is the
-- third, and otherwise the cancellation that followed.
pub retry_on_conflict-IsRetried :
    {A : Type 0} (outcome : ℕ → Result A) (is_canceled : ℕ → Bool)
    → IsRetried outcome is_canceled 0 3 (retry_on_conflict outcome is_canceled)
unfolding retry_on_conflict
retry_on_conflict-IsRetried outcome is_canceled = retry_from-IsRetried outcome is_canceled 2 0
