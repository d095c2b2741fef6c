-- ===== src/V2/Writes.antt =====
-- The writes with their retries: applyManyAtomic and its two callers of pkg/acor/batch_atomic.go, and add
-- and remove of pkg/acor/v2_ops.go. `before i` and `now i` are the collection when attempt `i` reads its
-- snapshot and when its script runs, and `versions i` is what it stamps; `cut i` says whether the
-- context ends after it.
pub mod Progress
use acor.Prelude.{ℕ, List, [], ◌∷◌, Word, Bool, if◌then◌else◌}
use acor.Plan.{is_empty}
use acor.V2.{Json, Collection, Write, add, remove, Result, ok, err, attempt, retry_on_conflict}

-- What tryAddV2 and tryRemoveV2 return.
abbrev pub counted : Result (List Word) → Result ℕ
counted (err e) = err e
counted (ok []) = ok 0
counted (ok (_ ∷ _)) = ok 1

module _ (json : Json) (before now : ℕ → Collection) (versions : ℕ → ℕ) (cut : ℕ → Bool) where
  unfoldable pub apply_many_atomic : Write → List Word → Result (List Word)
  unfolding attempt retry_on_conflict
  apply_many_atomic write keywords =
      retry_on_conflict (λ i. (attempt json write keywords (now i) (versions i) (before i)).1) cut

  unfoldable pub add_many_atomic : List Word → Result (List Word)
  unfolding apply_many_atomic
  add_many_atomic keywords = apply_many_atomic add keywords

  unfoldable pub remove_many_atomic : List Word → Result (List Word)
  unfolding apply_many_atomic
  remove_many_atomic keywords = apply_many_atomic remove keywords

  -- planAdd and planRemove are the plans for one keyword.
  unfoldable pub try_add : ℕ → Word → Result ℕ
  unfolding attempt
  try_add i keyword = counted (attempt json add (keyword ∷ []) (now i) (versions i) (before i)).1

  unfoldable pub try_remove : ℕ → Word → Result ℕ
  unfolding attempt
  try_remove i keyword =
      counted (attempt json remove (keyword ∷ []) (now i) (versions i) (before i)).1

  unfoldable pub add_keyword : (Word → Word) → Word → Result ℕ
  unfolding try_add retry_on_conflict
  add_keyword normalize keyword =
      let keyword' = normalize keyword in
      if is_empty keyword' then ok 0 else retry_on_conflict (λ i. try_add i keyword') cut

  unfoldable pub remove_keyword : (Word → Word) → Word → Result ℕ
  unfolding try_remove retry_on_conflict
  remove_keyword normalize keyword =
      let keyword' = normalize keyword in
      if is_empty keyword' then ok 0 else retry_on_conflict (λ i. try_remove i keyword') cut
