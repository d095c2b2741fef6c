-- ===== src/V2/Writes/Progress.antt =====
-- A write comes through if one of its attempts is undisturbed.
use acor.Prelude.{
  ℕ, ◌+◌, ◌<◌, ◌≡◌, ◌≢◌, sym, ap, ◌∙◌, ◌⊎◌, inl, inr, List, [], Word, Bool-cases, ◌==◌, ==_iff,
  Bool, true, false, subst, arith,
}
use acor.V2.{
  Json, Error, Collection, Write, Result, ok, err, concurrency_conflict, attempt,
  parse_trie_version, is_stale,
}
use acor.V2.Stored.{IsStored}
use acor.V2.Attempt.{attempt-IsOutcome}
use acor.V2.Retry.{retry_on_conflict-IsRetried}
use acor.V2.System.{is_stale-own}
use acor.V2.Writes.{apply_many_atomic}

ok_not_err : {A : Type 0} {a : A} {e : Error} → ok a ≡ err e → ⊥
ok_not_err h = cc

true_not_false : true ≡ false → ⊥
true_not_false h = cc

below : (k d : ℕ) → k < 3 → d + 1 ≡ 3 → (k == d) ≡ false → k < d
below k d lt last ne = ground arith

module _ (json : Json) (before now : ℕ → Collection) (versions : ℕ → ℕ) (cut : ℕ → Bool)
    (stored : (i : ℕ) → (ks : List Word) × (ps : List Word) × IsStored json (before i) ks ps)
    (safe : (i : ℕ)
      → is_stale (now i).trie.version (parse_trie_version (before i).trie.version) ≡ false
      → now i ≡ before i)
    (write : Write) (asked : List Word) where
  abbrev outcome : ℕ → Result (List Word)
  outcome i = (attempt json write asked (now i) (versions i) (before i)).1

  -- An attempt succeeds or meets a conflict, and then another version stands there.
  outcome-cases :
      (i : ℕ)
      → ((changed : List Word) × (outcome i ≡ ok changed))
        ⊎ ((outcome i ≡ err concurrency_conflict)
            × (is_stale (now i).trie.version (parse_trie_version (before i).trie.version) ≡ true))
  outcome-cases i =
      let (ks, ps, S) = stored i in
      elim (attempt-IsOutcome json write asked (versions i) (before i) ks ps S (now i) (safe i)) [
        | inl (e, _) ↦ inl ([], ap (λ r. r.1) e)
        | inr (inl (e, k)) ↦ inr (ap (λ r. r.1) e, k)
        | inr (inr (after, changed, e, _, _, _)) ↦ inl (changed, ap (λ r. r.1) e)
      ]

  undisturbed : (k : ℕ) → now k ≡ before k → outcome k ≢ err concurrency_conflict
  undisturbed k same h = elim (outcome-cases k) [
    | inl (changed, e) ↦ ok_not_err (sym e ∙ h)
    | inr (_, stale) ↦ true_not_false (
        sym stale
        ∙ ap (λ c. is_stale c.trie.version (parse_trie_version (before k).trie.version)) same
        ∙ is_stale-own json (before k).trie.version)
  ]

  -- On stored collections, where an unchanged version means an unchanged collection, and without a
  -- cancellation, applyManyAtomic succeeds if one of its three attempts is undisturbed: the collection
  -- is the same when its script runs as it was when it read.
  pub apply_many_atomic-succeeds :
      ((i : ℕ) → cut i ≡ false)
      → (k : ℕ) → k < 3
      → now k ≡ before k
      → (changed : List Word) × (apply_many_atomic json before now versions cut write asked
          ≡ ok changed)
  unfolding apply_many_atomic
  apply_many_atomic-succeeds uncut k lt same =
      let (d, D, earlier) = retry_on_conflict-IsRetried outcome cut in
      elim D.conclusion [
        | inl (n, e) ↦ elim (outcome-cases d) [
          | inl (changed, f) ↦ (changed, e ∙ f)
          | inr (f, _) ↦ absurd (n f)
        ]
        | inr (inl (f, last, _)) ↦ elim (Bool-cases (k == d)) [
          | inl e ↦ absurd (
              undisturbed k same
                (subst (λ x. outcome x ≡ err concurrency_conflict) (sym ((==_iff k d).0 e)) f))
          | inr ne ↦ absurd (undisturbed k same (earlier k (omega arith) (below k d lt last ne)).0)
        ]
        | inr (inr (_, _, c, _)) ↦ absurd (true_not_false (sym c ∙ uncut d))
      ]
