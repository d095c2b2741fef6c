-- ===== src/Batch.antt =====
-- pkg/acor/batch.go: several keywords added or removed in one call. The storage is a state `S` with the
-- operations of the mode; strings.TrimSpace and strings.ToLower are parameters.
pub mod Screening
pub mod Account
pub mod Blank
pub mod Stored
use acor.Prelude.{
  ℕ, ltb, Option, none, some, List, [], ◌∷◌, ◌++◌, map, Word, Bool, true, false, has_word,
  if◌then◌else◌,
}
use acor.Plan.{is_empty}
use acor.V2.{Error, empty_keyword, Result, ok, err}

pub record BatchResult : Type 0 where
  pub added : List Word
  pub removed : List Word
  pub failed : List (Word × Error)
  pub skipped : List Word

abbrev pub no_result : BatchResult
no_result = record { added = []; removed = []; failed = []; skipped = [] }

pub data BatchMode : Type 0 where
  best_effort transactional : BatchMode

-- What screenBatch's loop has so far.
pub record Screened : Type 0 where
  pub result : BatchResult
  pub candidates : List Word
  pub normalized : List Word

-- partitionApplied: the candidates that the write changed, and the others.
unfoldable pub partition_applied : List Word → List Word → List Word → List Word × List Word
partition_applied [] normalized applied = ([], [])
partition_applied (kw ∷ kws) [] applied = ([], kw ∷ kws)
partition_applied (kw ∷ kws) (n ∷ ns) applied =
    let (changed, unchanged) = partition_applied kws ns applied in
    if has_word n applied then (kw ∷ changed, unchanged) else (changed, kw ∷ unchanged)

module _ (trim lower : Word → Word) (case_sensitive : Bool) where
  unfoldable pub normalize_keyword : Word → Word
  normalize_keyword keyword =
      let trimmed = trim keyword in if case_sensitive then trimmed else lower trimmed

  -- One round of screenBatch. Its set of seen keywords is that of the normalized candidates.
  unfoldable pub screen_keyword : Screened → Word → Screened
  unfolding normalize_keyword
  screen_keyword s keyword =
      let trimmed = trim keyword in
      let normal = normalize_keyword trimmed in
      let failing : Screened = record s {
        result = record s.result { failed = s.result.failed ++ (trimmed, empty_keyword) ∷ [] };
      } in
      let skipping : Screened = record s {
        result = record s.result { skipped = s.result.skipped ++ trimmed ∷ [] };
      } in
      let taking : Screened = record s {
        candidates = s.candidates ++ trimmed ∷ [];
        normalized = s.normalized ++ normal ∷ [];
      } in
      if is_empty trimmed
      then failing
      else if has_word normal s.normalized
      then skipping
      else taking

  unfoldable pub screen_from : Screened → List Word → Screened
  unfolding screen_keyword
  screen_from s [] = s
  screen_from s (kw ∷ kws) = screen_from (screen_keyword s kw) kws

  unfoldable pub screen_batch : List Word → BatchResult → Screened
  unfolding screen_from
  screen_batch keywords result =
      screen_from (record { result = result; candidates = []; normalized = [] }) keywords

pub data Direction : Type 0 where
  adding removing : Direction

-- The operations that a direction of writing uses: the write of a whole batch, where the mode has one,
-- the write of one keyword, and its undoing.
pub record Ops (S : Type 0) : Type 0 where
  pub direction : Direction
  pub atomic : Option (S → List Word → S × Result (List Word))
  pub one : S → Word → S × Result ℕ
  pub undo : S → Word → S × Result ℕ

abbrev pub note_changed : Direction → BatchResult → List Word → BatchResult
note_changed adding result kws = record result { added = result.added ++ kws }
note_changed removing result kws = record result { removed = result.removed ++ kws }

abbrev pub note_skipped : BatchResult → List Word → BatchResult
note_skipped result kws = record result { skipped = result.skipped ++ kws }

-- One error for every keyword.
abbrev pub note_failed : Error → BatchResult → List Word → BatchResult
note_failed e result kws = record result { failed = result.failed ++ map (λ kw. (kw, e)) kws }

module _ {S : Type 0} (ops : Ops S) where
  -- What a batch write that was tried comes to in the result.
  unfoldable pub note_applied : Screened → List Word → BatchResult
  unfolding partition_applied
  note_applied s applied =
      let (changed, unchanged) = partition_applied s.candidates s.normalized applied in
      note_skipped (note_changed ops.direction s.result changed) unchanged

  abbrev pub note_outcome : Screened → Result (List Word) → BatchResult
  note_outcome s (err e) = note_failed e s.result s.candidates
  note_outcome s (ok applied) = note_applied s applied

  abbrev pub note_one : BatchResult → Word → Result ℕ → BatchResult
  note_one result keyword (err e) = note_failed e result (keyword ∷ [])
  note_one result keyword (ok count) =
      if ltb 0 count
      then note_changed ops.direction result (keyword ∷ [])
      else note_skipped result (keyword ∷ [])

  -- The loop of the modes without a batch write.
  unfoldable pub each_best_effort : S → BatchResult → List Word → S × BatchResult
  each_best_effort s result [] = (s, result)
  each_best_effort s result (keyword ∷ keywords) =
      let (s', outcome) = ops.one s keyword in
      each_best_effort s' (note_one result keyword outcome) keywords

  -- rollbackBatch: errors are only logged.
  unfoldable pub rollback_batch : S → List Word → S
  rollback_batch s [] = s
  rollback_batch s (keyword ∷ keywords) = rollback_batch (ops.undo s keyword).0 keywords

-- The four functions of the two directions and modes differ in the operations only.
module _ (trim lower : Word → Word) (case_sensitive : Bool) {S : Type 0} (ops : Ops S) where
  unfoldable pub many_best_effort : S → List Word → BatchResult → S × BatchResult
  unfolding screen_batch note_applied each_best_effort
  many_best_effort s keywords result =
      let screened = screen_batch trim lower case_sensitive keywords result in
      elim ops.atomic [
        | none ↦ each_best_effort ops s screened.result screened.candidates
        | some write ↦
            let (s', outcome) = write s screened.normalized in
            if is_empty screened.candidates
            then (s, screened.result)
            else (s', note_outcome ops screened outcome)
      ]

  -- How the loop goes on after a write: rolled back, with a change, or without.
  abbrev pub continued :
      S → S × Result BatchResult → S × Result BatchResult → Result ℕ → S × Result BatchResult
  continued back changing unchanged (err e) = (back, err e)
  continued back changing unchanged (ok count) = if ltb 0 count then changing else unchanged

  -- The loop of a transactional batch without a batch write; `changed` is what a rollback undoes.
  unfoldable pub each_transactional :
      S → BatchResult → List Word → List Word → List Word → S × Result BatchResult
  unfolding rollback_batch
  each_transactional s result changed seen [] = (s, ok (note_changed ops.direction result changed))
  each_transactional s result changed seen (keyword ∷ keywords) =
      let trimmed = trim keyword in
      let (s', outcome) = ops.one s trimmed in
      let skipping =
        each_transactional s (note_skipped result (trimmed ∷ [])) changed seen keywords in
      let changing =
        each_transactional s' result (changed ++ trimmed ∷ []) (trimmed ∷ seen) keywords in
      let unchanged =
        each_transactional s' (note_skipped result (trimmed ∷ [])) changed (trimmed ∷ seen)
          keywords in
      if is_empty trimmed
      then (rollback_batch ops s changed, err empty_keyword)
      else if has_word trimmed seen
      then skipping
      else continued (rollback_batch ops s' changed) changing unchanged outcome

  abbrev pub settled : Screened → S × Result (List Word) → S × Result BatchResult
  settled screened (s, err e) = (s, err e)
  settled screened (s, ok applied) = (s, ok (note_applied ops screened applied))

  unfoldable pub many_transactional : S → List Word → BatchResult → S × Result BatchResult
  unfolding screen_batch note_applied each_transactional
  many_transactional s keywords result =
      let screened = screen_batch trim lower case_sensitive keywords result in
      elim ops.atomic [
        | none ↦ each_transactional s result [] [] keywords
        | some write ↦
            if is_empty screened.result.failed
            then (if is_empty screened.candidates
                then (s, ok screened.result)
                else settled screened (write s screened.normalized))
            else (s, err empty_keyword)
      ]

abbrev pub as_result : {S : Type 0} → S × BatchResult → S × Result BatchResult
as_result (s, result) = (s, ok result)

-- The writes of the modes: those of the interface `operations`, and those of batchPlanner, where the
-- mode has them.
pub record Storage (S : Type 0) : Type 0 where
  pub add : S → Word → S × Result ℕ
  pub remove : S → Word → S × Result ℕ
  pub add_many_atomic : Option (S → List Word → S × Result (List Word))
  pub remove_many_atomic : Option (S → List Word → S × Result (List Word))

module _ {S : Type 0} (storage : Storage S) where
  abbrev pub add_ops : Ops S
  add_ops = record {
    direction = adding;
    atomic = storage.add_many_atomic;
    one = storage.add;
    undo = storage.remove;
  }

  abbrev pub remove_ops : Ops S
  remove_ops = record {
    direction = removing;
    atomic = storage.remove_many_atomic;
    one = storage.remove;
    undo = storage.add;
  }

  module _ (trim lower : Word → Word) (case_sensitive : Bool) where
    abbrev pub add_many_best_effort : S → List Word → BatchResult → S × BatchResult
    add_many_best_effort = many_best_effort trim lower case_sensitive add_ops

    abbrev pub remove_many_best_effort : S → List Word → BatchResult → S × BatchResult
    remove_many_best_effort = many_best_effort trim lower case_sensitive remove_ops

    abbrev pub add_many_transactional : S → List Word → BatchResult → S × Result BatchResult
    add_many_transactional = many_transactional trim lower case_sensitive add_ops

    abbrev pub remove_many_transactional : S → List Word → BatchResult → S × Result BatchResult
    remove_many_transactional = many_transactional trim lower case_sensitive remove_ops

    unfoldable pub add_many : BatchMode → S → List Word → S × Result BatchResult
    unfolding many_best_effort many_transactional
    add_many best_effort s keywords = as_result (add_many_best_effort s keywords no_result)
    add_many transactional s keywords = add_many_transactional s keywords no_result

    unfoldable pub remove_many : BatchMode → S → List Word → S × Result BatchResult
    unfolding many_best_effort many_transactional
    remove_many best_effort s keywords = as_result (remove_many_best_effort s keywords no_result)
    remove_many transactional s keywords = remove_many_transactional s keywords no_result
