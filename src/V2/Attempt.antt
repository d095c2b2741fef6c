-- ===== src/V2/Attempt.antt =====
-- One attempt of a write: what it leaves and answers, with other writers in between or without.
use acor.Prelude.{
  ◌≡◌, refl, ap, ◌∙◌, ◌↔◌, ◌⊎◌, inl, inr, List, [], Word, Has, true, false, subst, Bool-cases, ℕ,
  some, if◌then◌else◌,
}
use acor.Plan.{TrieSnapshot, OutputMap, is_empty}
use acor.V2.{
  Json, Hash, Collection, Write, add, remove, plan_write, clears, attempt, attempt_from, Result, ok,
  err, concurrency_conflict, parse_trie_version, is_stale,
}
use acor.V2.Stored.{IsStored, read_trie_snapshot-stored, nothing_decoded, nothing_to_read}
use acor.V2.Commit.{
  after_commit, after_commit-IsStored, commit_v2_write-current, commit_v2_write-stale,
}
use acor.Plan.Stored.{nil_of_is_empty}
use acor.Plan.Suffixes.{IsSuffix}
use acor.V2.Fields.{decoded_at, IsKeyed, IsReadable}
use acor.V2.Written.{IsPlanned, plan_write-IsPlanned, IsKept, IsKept-nonempty, IsChanged}

module _ (json : Json) (write : Write) (asked : List Word) (now : Collection) (new_version : ℕ)
    (snap : TrieSnapshot) where
  abbrev plan : TrieSnapshot × OutputMap × List Word
  plan = plan_write write snap asked

  attempt_from-nothing :
      is_empty plan.2 ≡ true
      → attempt_from json write asked now new_version (ok snap) ≡ (now, ok [])
  unfolding attempt_from
  attempt_from-nothing e = rw e refl

  attempt_from-stale :
      is_empty plan.2 ≡ false
      → is_stale now.trie.version plan.0.version ≡ true
      → attempt_from json write asked now new_version (ok snap) ≡ (now, err concurrency_conflict)
  unfolding attempt_from
  attempt_from-stale e k =
      rw (e, commit_v2_write-stale json now plan.0 plan.1 new_version (clears write) k) refl

  attempt_from-current :
      is_empty plan.2 ≡ false
      → is_stale now.trie.version plan.0.version ≡ false
      → attempt_from json write asked now new_version (ok snap)
        ≡ (after_commit json now plan.0 plan.1 new_version (clears write), ok plan.2)
  unfolding attempt_from
  attempt_from-current e k =
      rw (e, commit_v2_write-current json now plan.0 plan.1 new_version (clears write) k) refl

module _ (json : Json) (write : Write) (asked : List Word) where
  -- The collection stores what the write makes of `keywords`, under the new version.
  pub record IsWritten (keywords : List Word) (new_version : ℕ) (after : Collection) : Type 0 where
    pub keywords_after : List Word
    pub prefixes_after : List Word
    pub stored : IsStored json after keywords_after prefixes_after
    pub held : (w : Word) → Has w keywords_after ↔ IsKept write keywords asked w
    pub stamped : after.trie.version ≡ some new_version

  -- An attempt to write to `keywords`: it changes nothing because nothing is to change, or because
  -- another version stands there now, or it writes and answers what it changed.
  abbrev pub IsOutcome :
      List Word → Collection → Collection → ℕ → Collection × Result (List Word) → Type 0
  IsOutcome keywords before now new_version r =
      ((r ≡ (now, ok [])) × ((w : Word) → ¬ IsChanged write keywords asked w))
      ⊎ ((r ≡ (now, err concurrency_conflict))
          × (is_stale now.trie.version (parse_trie_version before.trie.version) ≡ true))
      ⊎ ((after : Collection) × (changed : List Word) × (r ≡ (after, ok changed))
          × (now ≡ before)
          × ((w : Word) → Has w changed ↔ IsChanged write keywords asked w)
          × IsWritten keywords new_version after)

module _ (json : Json) (write : Write) (asked : List Word) (new_version : ℕ) (before : Collection)
    (ks ps : List Word) (S : IsStored json before ks ps) where
  abbrev snap : TrieSnapshot
  snap = record { keywords = ks; prefixes = ps; version = parse_trie_version before.trie.version }

  attempt-from :
      (now : Collection)
      → attempt json write asked now new_version before
        ≡ attempt_from json write asked now new_version (ok snap)
  unfolding attempt
  attempt-from now =
      ap (attempt_from json write asked now new_version)
        (read_trie_snapshot-stored json before ks ps S)

  abbrev planned : TrieSnapshot × OutputMap × List Word
  planned = plan_write write snap asked

  P : IsPlanned write snap asked planned.0 planned.1 planned.2
  P = plan_write-IsPlanned write snap asked S.consistent

  -- The output lists that the script starts from.
  abbrev old : Write → Hash
  old write = if clears write then [] else before.outputs

  old_sound :
      (write : Write) (s w : Word)
      → Has w (decoded_at json (old write) s)
      → IsSuffix w s × IsKept write ks asked w
  old_sound add s w h = let (i, k) = S.sound s w h in (i, inl k)
  old_sound remove s w h = nothing_decoded json s w h

  old-IsKeyed : (write : Write) → IsKeyed (old write)
  old-IsKeyed add = S.keyed
  old-IsKeyed remove = tt

  old-IsReadable : (write : Write) → IsReadable json (old write)
  old-IsReadable add = S.readable
  old-IsReadable remove = nothing_to_read json

  abbrev committed : Collection
  committed = after_commit json before planned.0 planned.1 new_version (clears write)

  written-IsStored :
      is_empty planned.2 ≡ false → IsStored json committed planned.0.keywords planned.0.prefixes
  written-IsStored e =
      after_commit-IsStored json before planned.0 planned.1 new_version (clears write) (old write)
        refl (old-IsKeyed write) (old-IsReadable write)
        (λ s w h. let (i, k) = old_sound write s w h in (i, (P.held w).1 k)) P.consistent
        (λ h. IsKept-nonempty write ks asked S.nonempty ((P.held []).0 h)) P.sound (P.right e)

  -- If the version that stands in the collection now is the one that was read only where nothing else
  -- changed either, an attempt to write to a stored collection either changes and answers nothing, as
  -- nothing was to change; or meets another version, changes nothing and reports the conflict; or
  -- leaves a stored collection with exactly the keywords that the write asks for, under the new
  -- version, and answers exactly those that it changed.
  pub attempt-IsOutcome :
      (now : Collection)
      → (is_stale now.trie.version (parse_trie_version before.trie.version) ≡ false → now ≡ before)
      → IsOutcome json write asked ks before now new_version
          (attempt json write asked now new_version before)
  attempt-IsOutcome now safe = elim (Bool-cases (is_empty planned.2)) [
    | inl e ↦
        let none = nil_of_is_empty planned.2 e in
        inl (
          attempt-from now ∙ attempt_from-nothing json write asked now new_version snap e,
          λ w h. elim (subst (Has w) none ((P.changes w).1 h)) [ ],
        )
    | inr e ↦ elim (Bool-cases (is_stale now.trie.version planned.0.version)) [
      | inl k ↦ inr (
          inl (
            attempt-from now ∙ attempt_from-stale json write asked now new_version snap e k,
            subst (λ v. is_stale now.trie.version v ≡ true) P.same_version k,
          ))
      | inr k ↦
          let same : now ≡ before =
            safe (subst (λ v. is_stale now.trie.version v ≡ false) P.same_version k) in
          inr (
            inr (
              committed,
              planned.2,
              attempt-from now
                  ∙ attempt_from-current json write asked now new_version snap e k
                  ∙ ap
                      (λ c. (
                        after_commit json c planned.0 planned.1 new_version (clears write),
                        ok planned.2,
                      ))
                      same,
              same,
              P.changes,
              record {
                keywords_after = planned.0.keywords;
                prefixes_after = planned.0.prefixes;
                stored = written-IsStored e;
                held = P.held;
                stamped = refl;
              },
            ))
    ]
  ]
